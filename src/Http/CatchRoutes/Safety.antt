-- ===== src/Http/CatchRoutes/Safety.antt =====
-- src/app.ts, registerCatchRoutes: what an accepted request stores, and whose requests show or
-- change a resource.
use the402machine.Base.{
  ℕ, String, Bool, true, false, not, ◌||◌, Option, none, some, [], ◌∷◌, ◌++◌, ltb, length, get_or,
  Result, ok, err, ◌≡◌, refl, inl, inr, Bool-cases,
}
use the402machine.Base.Batch.{mem}
use the402machine.Tokens.{TokenError, CatchTokenRole, verify_token}
use the402machine.Catch.Model.{
  Db, Event, AcceptEventInput, AcceptEventResult, accepted, rejected, Error, Runtime,
}
use the402machine.Catch.Store.{get_credential_hashes, accept_event, new_event}
use the402machine.Catch.Listing.{Texts, CatchEventListOptions}
use the402machine.Catch.History.{Recorded, accept_event-Recorded}
use the402machine.Http.Exchange.{
  Request, Reply, Served, no_content, bearer_token, identity_encoding, outcome, limited-outcome,
  OwnerOnly, owner_route-OwnerOnly,
}
use the402machine.Http.CatchRoutes.{
  owner_hash, verify_owner, filtered_headers, ingest_hash, max_ingest_bytes, allowed_content_types,
  content_type_of, event_input, answer_event, store_request, check_ingest, handle_ingest, ingest,
  authorize_owner, handle_get, get_catch, handle_list, list_catch_events, handle_delete_event,
  delete_catch_event, handle_destroy, delete_catch,
}

abbrev pub is_accepted : AcceptEventResult → Bool
is_accepted (accepted event_id number) = true
is_accepted (rejected reason) = false

module _ (hmac_hex : (pepper message : String) → String) (pepper : String) (rt : Runtime)
    (tx : Texts) (now : ℕ → ℕ) (others : ℕ → Db → Db) where
  -- The request's bearer token verifies against the hash that the tables hold for the owner.
  abbrev pub Owns : Request → String → Db → Type 0
  Owns request public_id db =
      (hash : String) × (owner_hash (get_credential_hashes (now 1) public_id db).0 ≡ some hash)
      × (verify_token hmac_hex CatchTokenRole.owner (get_or (bearer_token request.authorization) "")
            hash pepper
          ≡ ok true)

  -- What an answer to the owner's call says of the tables before it.
  abbrev pub OwnedCatch : {A : Type 0} → Request → String → Db → Reply A × Db → Type 0
  OwnedCatch request public_id db =
      OwnerOnly (Owns request public_id (others 1 db)) db
        (get_credential_hashes (now 1) public_id (others 1 db)).1

  verified-Owns :
      (request : Request) (public_id : String) (db : Db) (o : Option String)
      → owner_hash (get_credential_hashes (now 1) public_id db).0 ≡ o
      → verify_owner hmac_hex pepper rt tx now others request o ≡ ok true
      → Owns request public_id db
  unfolding verify_owner
  verified-Owns request public_id db none e h = cc
  verified-Owns request public_id db (some hash) e h = (hash, e, h)

  -- Whatever other requests do between the calls of the handler: a resource and its events are
  -- shown, and an event or a resource is deleted, only when the bearer token of the request
  -- verifies, as an owner's token, against the owner hash that the tables hold for the resource at
  -- the look-up; any other request is refused, and leaves the tables as they were at its start or
  -- as the look-up left them.
  pub catch_owner-OwnerOnly :
      (options : CatchEventListOptions) (event_id : String) (request : Request) (public_id : String)
      (s : Served Db)
      → OwnedCatch request public_id s.tables
          (outcome (get_catch hmac_hex pepper rt tx now others request public_id s))
        × OwnedCatch request public_id s.tables (
            outcome
              (list_catch_events hmac_hex pepper rt tx now others options request public_id s))
        × OwnedCatch request public_id s.tables (
            outcome
              (delete_catch_event hmac_hex pepper rt tx now others event_id request public_id s))
        × OwnedCatch request public_id s.tables
            (outcome (delete_catch hmac_hex pepper rt tx now others request public_id s))
  unfolding get_catch list_catch_events delete_catch_event delete_catch authorize_owner
  catch_owner-OwnerOnly options event_id request public_id s =
      let authorize = authorize_owner hmac_hex pepper rt tx now others request public_id in
      let owns = verified-Owns request public_id (others 1 s.tables) _ refl in
      (
        owner_route-OwnerOnly (now 0) request authorize
            (handle_get hmac_hex pepper rt tx now others public_id) s owns,
        owner_route-OwnerOnly (now 0) request authorize
            (handle_list hmac_hex pepper rt tx now others options public_id) s owns,
        owner_route-OwnerOnly (now 0) request authorize
            (handle_delete_event hmac_hex pepper rt tx now others event_id public_id) s owns,
        owner_route-OwnerOnly (now 0) request authorize
            (handle_destroy hmac_hex pepper rt tx now others public_id) s owns,
      )

  -- The tables that `acceptEvent` finds.
  abbrev pub before_event : String → Db → Db
  before_event public_id db = others 2 (get_credential_hashes (now 1) public_id (others 1 db)).1

  -- The event that a request asks to store.
  abbrev pub asked : String → Request → (authenticated : Bool) → AcceptEventInput
  asked public_id request authenticated = record {
    public_id = public_id;
    method = some request.method;
    authenticated = some authenticated;
    source_ip = some request.ip;
    content_type = content_type_of hmac_hex pepper rt tx now others request;
    headers = filtered_headers request;
    body = get_or request.body [];
  }

  -- What an answer says of the tables before it and of those it leaves.
  abbrev pub Ingests : String → String → Request → Db → Reply (Unit {0}) × Db → Type 0
  Ingests event_id public_id request db (no_content, db') =
      (hash : String) × (authenticated : Bool) × (result : AcceptEventResult) × (ingest_hash
          (get_credential_hashes (now 1) public_id (others 1 db)).0
        ≡ some hash)
      × (verify_token hmac_hex CatchTokenRole.ingest
            (get_or (bearer_token request.authorization) "") hash pepper
          ≡ ok authenticated)
      × (is_accepted result ≡ true)
      × Recorded rt (now 2) event_id (asked public_id request authenticated)
          (before_event public_id db) (result, db')
      × ((e : Event) × (db'.events ≡ (before_event public_id db).events ++ e ∷ [])
          × (e.id ≡ event_id)
          × (e.authenticated ≡ authenticated)
          × (e.body ≡ get_or request.body []))
  Ingests event_id public_id request db _ = Unit

  stored_event :
      (event_id : String) (input : AcceptEventInput) (db db' : Db) (id : String) (number : ℕ)
      → Recorded rt (now 2) event_id input db (accepted id number, db')
      → (e : Event) × (db'.events ≡ db.events ++ e ∷ [])
        × (e.id ≡ event_id)
        × (e.authenticated ≡ get_or input.authenticated true)
        × (e.body ≡ input.body)
  unfolding new_event
  stored_event event_id input db db' id number (r, f, i, n, w, a, o, b, s, e) =
      (new_event rt (now 2) event_id input r, e, refl, refl, refl)

  answer-Ingests :
      (event_id public_id : String) (request : Request) (db : Db) (hash : String)
      (authenticated : Bool) (out : Result Error (AcceptEventResult × Db))
      → ingest_hash (get_credential_hashes (now 1) public_id (others 1 db)).0 ≡ some hash
      → verify_token hmac_hex CatchTokenRole.ingest
          (get_or (bearer_token request.authorization) "")
          hash
          pepper
        ≡ ok authenticated
      → accept_event rt
          (now 2)
          event_id
          (event_input hmac_hex pepper rt tx now others public_id request authenticated)
          (before_event public_id db)
        ≡ out
      → Ingests event_id public_id request db
          (answer_event hmac_hex pepper rt tx now others (before_event public_id db) out)
  unfolding event_input
  answer-Ingests event_id public_id request db hash authenticated (err e) f v a = tt
  answer-Ingests event_id public_id request db hash authenticated (ok (accepted id number, left)) f
        v a =
      let recorded =
        accept_event-Recorded rt (now 2) event_id (asked public_id request authenticated)
          (before_event public_id db) (accepted id number, left) a in
      (
        hash,
        authenticated,
        accepted id number,
        f,
        v,
        refl,
        recorded,
        stored_event event_id (asked public_id request authenticated) (before_event public_id db)
            left id number recorded,
      )
  answer-Ingests event_id public_id request db hash authenticated (ok (rejected reason, left)) f v
        a =
      tt

  store-Ingests :
      (event_id public_id : String) (request : Request) (db : Db) (hash : String)
      (held : Result TokenError Bool)
      → ingest_hash (get_credential_hashes (now 1) public_id (others 1 db)).0 ≡ some hash
      → verify_token hmac_hex CatchTokenRole.ingest
          (get_or (bearer_token request.authorization) "")
          hash
          pepper
        ≡ held
      → Ingests event_id public_id request db (
          store_request hmac_hex pepper rt tx now others event_id public_id request held
            (get_credential_hashes (now 1) public_id (others 1 db)).1)
  unfolding store_request
  store-Ingests event_id public_id request db hash (err e) f v = tt
  store-Ingests event_id public_id request db hash (ok authenticated) f v =
      elim (Bool-cases (ltb max_ingest_bytes (length (get_or request.body [])))) [
        | inl t ↦ rw t tt
        | inr t ↦ rw t (answer-Ingests event_id public_id request db hash authenticated _ f v refl)
      ]

  check-Ingests :
      (event_id public_id : String) (request : Request) (db : Db) (o : Option String)
      → ingest_hash (get_credential_hashes (now 1) public_id (others 1 db)).0 ≡ o
      → Ingests event_id public_id request db (
          check_ingest hmac_hex pepper rt tx now others event_id public_id request o
            (get_credential_hashes (now 1) public_id (others 1 db)).1)
  unfolding check_ingest
  check-Ingests event_id public_id request db none f = tt
  check-Ingests event_id public_id request db (some hash) f =
      store-Ingests event_id public_id request db hash _ f refl

  handle-Ingests :
      (event_id public_id : String) (request : Request) (db : Db)
      → Ingests event_id public_id request db
          (handle_ingest hmac_hex pepper rt tx now others event_id public_id request db)
  unfolding handle_ingest
  handle-Ingests event_id public_id request db = elim (Bool-cases refused_type) [
    | inl t ↦ rw t tt
    | inr t ↦ rw t (check-Ingests event_id public_id request db _ refl)
  ]
    where
      refused_type : Bool
      refused_type =
          not (mem (content_type_of hmac_hex pepper rt tx now others request) allowed_content_types)
          || not (identity_encoding tx.lower request.content_encoding)

  -- Whatever other requests do between the calls of the handler: a request is answered with success
  -- only when the resource has an ingest hash and an event with the request's method, address,
  -- content type, allowed headers and body was stored, under the next number and within all limits
  -- of the active, unexpired resource. It is the one event that is added, and it is marked as
  -- authenticated exactly when the request's bearer token verifies against that hash.
  pub ingest-Ingests :
      (event_id public_id : String) (request : Request) (s : Served Db)
      → Ingests event_id public_id request s.tables
          (outcome (ingest hmac_hex pepper rt tx now others event_id request public_id s))
  unfolding ingest
  ingest-Ingests event_id public_id request s =
      limited-outcome (Ingests event_id public_id request s.tables) (now 0) _ 60
        (handle_ingest hmac_hex pepper rt tx now others event_id public_id request) s tt
        (handle-Ingests event_id public_id request s.tables)
