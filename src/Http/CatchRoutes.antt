-- ===== src/Http/CatchRoutes.antt =====
-- src/app.ts, registerCatchRoutes: the ingestion of a request and the owner's calls. `now` gives the
-- clock at each call of a handler, and `others` what other requests do to the tables before that
-- call. The address look-up, which is never awaited, is a later call of `setEventIpLocation`.
pub mod Safety
use the402machine.Base.{
  ℕ, ◌+◌, ◌*◌, String, Bool, true, false, not, ◌||◌, ◌&&◌, Option, none, some, List, [], ◌∷◌,
  if◌then◌else◌, ltb, leb, min, max, get_or, filter, length, str_eq, Result, ok, err,
}
use the402machine.Base.Batch.{mem}
use Prim.Native.String.{◌++◌ as ◌<>◌}
use the402machine.Tokens.{TokenError, CatchTokenRole, verify_token}
use the402machine.Catch.Model.{
  Db, Resource, AcceptEventInput, AcceptEventResult, accepted, rejected, Error, Runtime,
}
use the402machine.Catch.Store.{
  CredentialHashes, get_credential_hashes, accept_event, delete_event, destroy,
}
use the402machine.Catch.Listing.{
  Texts, CatchEventListOptions, CatchEventPage, list_events, get_resource,
}
use the402machine.Http.Exchange.{
  Request, Reply, Served, sent, no_content, refused, thrown, not_found, unauthorized, bearer_token,
  normalized_content_type, identity_encoding, limited, owner_route,
}

abbrev pub owner_hash : Option CredentialHashes → Option String
owner_hash none = none
owner_hash (some c) = c.owner_token_hash

abbrev pub ingest_hash : Option CredentialHashes → Option String
ingest_hash none = none
ingest_hash (some c) = c.ingest_token_hash

abbrev pub allowed_content_types : List String
allowed_content_types = "application/json" ∷ "text/plain" ∷ "application/x-www-form-urlencoded" ∷ []

abbrev allowed_headers : List String
allowed_headers =
    "content-type" ∷ "user-agent" ∷ "x-request-id" ∷ "x-github-event" ∷ "x-github-delivery"
    ∷ "stripe-signature" ∷ []

-- `filteredHeaders`, of the headers that have one value.
unfoldable pub filtered_headers : Request → List (String × String)
filtered_headers request = filter (λ h. mem h.0 allowed_headers) request.headers

-- `MAX_INGEST_BYTES`, the largest of the plans' limits.
abbrev pub max_ingest_bytes : ℕ
max_ingest_bytes = 1_024 * 1_024

module _ (hmac_hex : (pepper message : String) → String) (pepper : String) (rt : Runtime)
    (tx : Texts) (now : ℕ → ℕ) (others : ℕ → Db → Db) where
  unfoldable pub content_type_of : Request → String
  unfolding normalized_content_type
  content_type_of request =
      get_or (normalized_content_type tx.trim tx.lower request.content_type) "text/plain"

  -- What is stored of a request.
  unfoldable pub event_input : String → Request → (authenticated : Bool) → AcceptEventInput
  unfolding filtered_headers content_type_of
  event_input public_id request authenticated = record {
    public_id = public_id;
    method = some request.method;
    authenticated = some authenticated;
    source_ip = some request.ip;
    content_type = content_type_of request;
    headers = filtered_headers request;
    body = get_or request.body [];
  }

  abbrev pub answer_event : Db → Result Error (AcceptEventResult × Db) → Reply (Unit {0}) × Db
  answer_event db (err e) = (thrown, db)
  answer_event db (ok (accepted event_id number, left)) = (no_content, left)
  answer_event db (ok (rejected reason, left)) = (refused 400 "invalid request", left)

  unfoldable pub store_request :
      (event_id : String) → String → Request → Result TokenError Bool → Db → Reply (Unit {0}) × Db
  unfolding event_input accept_event
  store_request event_id public_id request (err e) db = (thrown, db)
  store_request event_id public_id request (ok authenticated) db =
      if ltb max_ingest_bytes (length (get_or request.body []))
      then (refused 400 "invalid request", db)
      else answer_event (others 2 db) (
          accept_event rt (now 2) event_id (event_input public_id request authenticated)
            (others 2 db))

  -- `verifyToken("ingest", …)` where there is a hash.
  unfoldable pub check_ingest :
      (event_id : String) → String → Request → Option String → Db → Reply (Unit {0}) × Db
  unfolding store_request
  check_ingest event_id public_id request none db = (unauthorized, db)
  check_ingest event_id public_id request (some hash) db =
      store_request event_id public_id request
        (verify_token hmac_hex CatchTokenRole.ingest
          (get_or (bearer_token request.authorization) "") hash pepper)
        db

  -- `ingestHandler` behind its limit. `event_id` is the one that the database generates.
  unfoldable pub handle_ingest : (event_id : String) → String → Request → Db → Reply (Unit {0}) × Db
  unfolding content_type_of identity_encoding check_ingest get_credential_hashes
  handle_ingest event_id public_id request db =
      if not (mem (content_type_of request) allowed_content_types)
        || not (identity_encoding tx.lower request.content_encoding)
      then (refused 400 "invalid request", db)
      else let found = get_credential_hashes (now 1) public_id (others 1 db) in
        check_ingest event_id public_id request (ingest_hash found.0) found.1

  unfoldable pub ingest :
      (event_id : String) → Request → String → Served Db → Reply (Unit {0}) × Served Db
  unfolding limited
  ingest event_id request public_id s =
      limited (now 0) (request.ip <> (":" <> public_id)) 60
        (handle_ingest event_id public_id request) s

  unfoldable pub verify_owner : Request → Option String → Result TokenError Bool
  verify_owner request none = ok false
  verify_owner request (some hash) =
      verify_token hmac_hex CatchTokenRole.owner (get_or (bearer_token request.authorization) "")
        hash pepper

  unfoldable pub authorize_owner : Request → String → Db → Result TokenError Bool × Db
  unfolding verify_owner get_credential_hashes
  authorize_owner request public_id db =
      let found = get_credential_hashes (now 1) public_id (others 1 db) in
      (verify_owner request (owner_hash found.0), found.1)

  abbrev pub show : Option Resource → Reply Resource
  show none = not_found
  show (some r) = sent 200 r

  unfoldable pub handle_get : String → Db → Reply Resource × Db
  unfolding get_resource
  handle_get public_id db = (show (get_resource public_id (others 2 db)), others 2 db)

  -- `GET /api/catch/:publicId`
  unfoldable pub get_catch : Request → String → Served Db → Reply Resource × Served Db
  unfolding owner_route authorize_owner handle_get
  get_catch request public_id s =
      owner_route (now 0) request (authorize_owner request public_id) (handle_get public_id) s

  unfoldable pub handle_list : CatchEventListOptions → String → Db → Reply CatchEventPage × Db
  unfolding list_events
  handle_list options public_id db =
      let listed = list_events tx (now 2) public_id options (others 2 db) in
      (sent 200 listed.0, listed.1)

  -- `GET /api/catch/:publicId/events`, with the parsed options.
  unfoldable pub list_catch_events :
      CatchEventListOptions → Request → String → Served Db → Reply CatchEventPage × Served Db
  unfolding owner_route authorize_owner handle_list
  list_catch_events options request public_id s =
      owner_route (now 0) request (authorize_owner request public_id)
        (handle_list options public_id) s

  abbrev pub answer_deleted : Bool × Db → Reply (Unit {0}) × Db
  answer_deleted (deleted, db) = (if deleted then no_content else not_found, db)

  unfoldable pub handle_delete_event : String → String → Db → Reply (Unit {0}) × Db
  unfolding delete_event
  handle_delete_event event_id public_id db =
      answer_deleted (delete_event rt (now 2) public_id event_id (others 2 db))

  -- `DELETE /api/catch/:publicId/events/:eventId`
  unfoldable pub delete_catch_event :
      String → Request → String → Served Db → Reply (Unit {0}) × Served Db
  unfolding owner_route authorize_owner handle_delete_event
  delete_catch_event event_id request public_id s =
      owner_route (now 0) request (authorize_owner request public_id)
        (handle_delete_event event_id public_id) s

  abbrev pub answer_destroyed : Db → Result Error (Bool × Db) → Reply (Unit {0}) × Db
  answer_destroyed db (err e) = (thrown, db)
  answer_destroyed db (ok out) = answer_deleted out

  unfoldable pub handle_destroy : String → Db → Reply (Unit {0}) × Db
  unfolding destroy
  handle_destroy public_id db =
      answer_destroyed (others 2 db) (destroy (now 2) public_id (others 2 db))

  -- `DELETE /api/catch/:publicId`
  unfoldable pub delete_catch : Request → String → Served Db → Reply (Unit {0}) × Served Db
  unfolding owner_route authorize_owner handle_destroy
  delete_catch request public_id s =
      owner_route (now 0) request (authorize_owner request public_id) (handle_destroy public_id) s
