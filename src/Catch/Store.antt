-- ===== src/Catch/Store.antt =====
-- The methods of `CatchRepository` that write. Each is one transaction: it takes the clock, the
-- ids that the database generates and the two tables, and returns a result and the new tables, or
-- an error, which leaves the tables as they were.
use the402machine.Base.{
  ℕ, ◌+◌, ◌-◌, String, Bool, true, false, not, ◌&&◌, ◌||◌, Option, none, some, List, [], ◌∷◌, ◌++◌,
  ltb, leb, if◌then◌else◌, get_or, length, filter, all, str_eq, Result, ok, err,
}
use the402machine.Base.Table
use the402machine.Base.Batch.{clamp_limit, mem, due_keys, update_in}
use the402machine.Domain.Lifecycle.{
  CatchStatus, IllegalTransition, is_active, is_exhausted, transition_catch_resource,
}
use the402machine.Catch.Model.{
  Resource, Event, Db, ProvisionInput, AcceptEventInput, Reason, AcceptEventResult, accepted,
  rejected, Error, invalid_headers, invalid_method, illegal_transition, Runtime, event_bytes,
}

-- `["active", "exhausted", "suspended"].includes(status)`
abbrev pub is_live : CatchStatus → Bool
is_live CatchStatus.active = true
is_live CatchStatus.exhausted = true
is_live CatchStatus.suspended = true
is_live _ = false

abbrev pub locate : String → Db → Option Resource
locate public_id db = Table.find (λ r. str_eq r.public_id public_id) db.resources

abbrev pub store : Resource → Db → Db
store r db = record db { resources = Table.save (λ x. x.id) r db.resources }

-- `delete from catch_events where resource_id = …`
abbrev pub clear : String → List Event → List Event
clear id = filter (λ e. not (str_eq e.resource_id id))

-- `coalesce(a, clock_timestamp())`
abbrev pub coalesce : Option ℕ → ℕ → Option ℕ
coalesce a now = some (get_or a now)

-- The columns that an expiry sets.
unfoldable pub expired_row : ℕ → Resource → Resource
expired_row now r = record r {
  status = CatchStatus.expired;
  expired_at = coalesce r.expired_at now;
  owner_token_hash = none;
  ingest_token_hash = none;
  stored_bytes = 0;
  updated_at = now;
}

unfoldable pub expire_locked_resource : ℕ → Resource → Db → Db
unfolding expired_row
expire_locked_resource now r db =
    if is_live r.status
    then store (expired_row now r) (record db { events = clear r.id db.events })
    else db

unfoldable pub provision : ℕ → String → ProvisionInput → Db → Resource × Db
provision now id input db = (row, record db { resources = db.resources ++ row ∷ [] })
  where
    row : Resource
    row = record {
      id = id;
      public_id = input.public_id;
      plan_id = input.plan_id;
      status = CatchStatus.active;
      owner_token_hash = some input.owner_token_hash;
      ingest_token_hash = some input.ingest_token_hash;
      request_limit = input.request_limit;
      storage_limit_bytes = input.storage_limit_bytes;
      max_bytes_per_request = input.max_bytes_per_request;
      accepted_request_count = 0;
      stored_bytes = 0;
      created_at = now;
      expires_at = input.expires_at;
      exhausted_at = none;
      expired_at = none;
      manually_destroyed_at = none;
      deleted_at = none;
      updated_at = now;
    }

pub record CredentialHashes : Type 0 where
  pub owner_token_hash : Option String
  pub ingest_token_hash : Option String

credentials_of : ℕ → Db → Option Resource → Option CredentialHashes × Db
unfolding expire_locked_resource
credentials_of now db none = (none, db)
credentials_of now db (some r) =
    if leb r.expires_at now
    then (none, expire_locked_resource now r db)
    else if is_live r.status
    then (
      some (record {
        owner_token_hash = r.owner_token_hash;
        ingest_token_hash = r.ingest_token_hash;
      }),
      db,
    )
    else (none, db)

unfoldable pub get_credential_hashes : ℕ → String → Db → Option CredentialHashes × Db
unfolding credentials_of
get_credential_hashes now public_id db = credentials_of now db (locate public_id db)

abbrev allowed_event_headers : List String
allowed_event_headers =
    "content-type" ∷ "user-agent" ∷ "x-request-id" ∷ "x-github-event" ∷ "x-github-delivery"
    ∷ "stripe-signature" ∷ []

abbrev pub event_methods : List String
event_methods = "GET" ∷ "HEAD" ∷ "POST" ∷ "PUT" ∷ "PATCH" ∷ "DELETE" ∷ "OPTIONS" ∷ []

abbrev headers_allowed : List (String × String) → Bool
headers_allowed = all (λ h. mem h.0 allowed_event_headers)

module _ (rt : Runtime) where
  -- The event that an accepted request stores.
  unfoldable pub new_event : ℕ → String → AcceptEventInput → Resource → Event
  new_event now event_id input r = record {
    id = event_id;
    resource_id = r.id;
    sequence_number = r.accepted_request_count + 1;
    method = rt.upper (get_or input.method "POST");
    authenticated = get_or input.authenticated true;
    source_ip = input.source_ip;
    ip_location = none;
    content_type = input.content_type;
    headers = input.headers;
    body = input.body;
    received_at = now;
  }

  unfoldable pub exhausted_row : ℕ → Resource → Resource
  exhausted_row now r = record r {
    status = CatchStatus.exhausted;
    exhausted_at = coalesce r.exhausted_at now;
    updated_at = now;
  }

  -- The row after an accepted event that brings the total to `next_bytes`.
  unfoldable pub accepted_row : ℕ → ℕ → Resource → Resource
  accepted_row now next_bytes r = record r {
    accepted_request_count = r.accepted_request_count + 1;
    stored_bytes = next_bytes;
    status = if full then CatchStatus.exhausted else CatchStatus.active;
    exhausted_at = if full then coalesce r.exhausted_at now else r.exhausted_at;
    updated_at = now;
  }
    where
      full : Bool
      full =
          leb r.request_limit (r.accepted_request_count + 1) || leb r.storage_limit_bytes next_bytes

  -- The part of `acceptEvent` behind the checks of the state.
  unfoldable pub store_event :
      ℕ → String → AcceptEventInput → Resource → Db → AcceptEventResult × Db
  unfolding new_event exhausted_row accepted_row
  store_event now event_id input r db =
      let e = new_event now event_id input r in
      let next_bytes = r.stored_bytes + event_bytes rt e in
      if ltb r.request_limit (r.accepted_request_count + 1) || ltb r.storage_limit_bytes next_bytes
      then (rejected Reason.exhausted, store (exhausted_row now r) db)
      else (
        accepted event_id (r.accepted_request_count + 1),
        store (accepted_row now next_bytes r) (record db { events = db.events ++ e ∷ [] }),
      )

  unfoldable pub accept_locked :
      ℕ → String → AcceptEventInput → Db → Option Resource → AcceptEventResult × Db
  unfolding expire_locked_resource store_event
  accept_locked now event_id input db none = (rejected Reason.not_found, db)
  accept_locked now event_id input db (some r) =
      if leb r.expires_at now
      then (rejected Reason.expired, expire_locked_resource now r db)
      else if is_exhausted r.status
      then (rejected Reason.exhausted, db)
      else if not (is_active r.status)
      then (rejected Reason.inactive, db)
      else if ltb r.max_bytes_per_request (length input.body)
      then (rejected Reason.body_too_large, db)
      else store_event now event_id input r db

  unfoldable pub accept_event :
      ℕ → String → AcceptEventInput → Db → Result Error (AcceptEventResult × Db)
  accept_event now event_id input db =
      if not (headers_allowed input.headers)
      then err invalid_headers
      else if not (mem (rt.upper (get_or input.method "POST")) event_methods)
      then err invalid_method
      else ok (accept_locked now event_id input db (locate input.public_id db))

  -- `where id = … and resource_id = …`
  abbrev pub is_event : String → String → Event → Bool
  is_event resource_id event_id e = str_eq e.id event_id && str_eq e.resource_id resource_id

  unfoldable pub located_row : ℕ → ℕ → Resource → Resource
  located_row now next_bytes r = record r {
    stored_bytes = next_bytes;
    status = if full then CatchStatus.exhausted else r.status;
    exhausted_at = if full then coalesce r.exhausted_at now else r.exhausted_at;
    updated_at = now;
  }
    where
      full : Bool
      full = is_active r.status && leb r.storage_limit_bytes next_bytes

  -- The total after the location of the event `e` is set: the difference of the two sizes may be
  -- negative, so the old size is taken off last.
  unfoldable pub set_location : ℕ → String → Resource → Db → Option Event → Bool × Db
  unfolding located_row
  set_location now location r db none = (false, db)
  set_location now location r db (some e) =
      let next = record e { ip_location = some location } in
      let next_bytes = r.stored_bytes + event_bytes rt next - event_bytes rt e in
      if ltb r.storage_limit_bytes next_bytes then (false, db) else (
        true,
        store (located_row now next_bytes r)
            (record db { events = Table.save (λ x. x.id) next db.events }),
      )

  unfoldable pub set_event_location_locked : ℕ → String → String → Db → Option Resource → Bool × Db
  set_event_location_locked now event_id location db none = (false, db)
  set_event_location_locked now event_id location db (some r) =
      if is_live r.status
      then set_location now location r db (Table.find (is_event r.id event_id) db.events)
      else (false, db)

  unfoldable pub set_event_ip_location : ℕ → String → String → String → Db → Bool × Db
  unfolding set_event_location_locked
  set_event_ip_location now public_id event_id location db =
      set_event_location_locked now event_id location db (locate public_id db)

  unfoldable pub delete_found : ℕ → Resource → Db → Option Event → Bool × Db
  delete_found now r db none = (false, db)
  delete_found now r db (some e) = (
    true,
    store (record r { stored_bytes = r.stored_bytes - event_bytes rt e; updated_at = now })
        (record db { events = Table.remove (λ x. x.id) e.id db.events }),
  )

  unfoldable pub delete_locked : ℕ → String → Db → Option Resource → Bool × Db
  delete_locked now event_id db none = (false, db)
  delete_locked now event_id db (some r) =
      if is_live r.status
      then delete_found now r db (Table.find (is_event r.id event_id) db.events)
      else (false, db)

  unfoldable pub delete_event : ℕ → String → String → Db → Bool × Db
  unfolding delete_locked
  delete_event now public_id event_id db = delete_locked now event_id db (locate public_id db)

-- `locked` says which rows another transaction holds: `skip locked` passes them over.
abbrev pub is_due : ℕ → (String → Bool) → Resource → Bool
is_due now locked r = is_live r.status && leb r.expires_at now && not (locked r.id)

unfoldable pub expire_due_resources : ℕ → (String → Bool) → ℕ → Db → ℕ × Db
expire_due_resources now locked requested db =
    let ids =
      due_keys (λ r. r.id) (λ r. r.expires_at) (is_due now locked) (clamp_limit requested)
        db.resources in
    (
      length ids,
      record {
        resources = update_in (λ r. r.id) ids (expired_row now) db.resources;
        events = filter (λ e. not (mem e.resource_id ids)) db.events;
      },
    )

abbrev is_gone : CatchStatus → Bool
is_gone CatchStatus.expired = true
is_gone CatchStatus.manually_destroyed = true
is_gone CatchStatus.deleted = true
is_gone _ = false

abbrev is_manually_destroyed : CatchStatus → Bool
is_manually_destroyed CatchStatus.manually_destroyed = true
is_manually_destroyed _ = false

abbrev is_deleted_status : CatchStatus → Bool
is_deleted_status CatchStatus.deleted = true
is_deleted_status _ = false

unfoldable pub destroyed_row : ℕ → CatchStatus → Resource → Resource
destroyed_row now next r = record r {
  status = next;
  manually_destroyed_at = if is_manually_destroyed next then some now else r.manually_destroyed_at;
  deleted_at = if is_deleted_status next then some now else r.deleted_at;
  owner_token_hash = none;
  ingest_token_hash = none;
  stored_bytes = 0;
  updated_at = now;
}

unfoldable pub destroy_to :
    ℕ → Resource → Db → Result IllegalTransition CatchStatus → Result Error (Bool × Db)
destroy_to now r db (err _) = err illegal_transition
destroy_to now r db (ok next) =
    ok (true, store (destroyed_row now next r) (record db { events = clear r.id db.events }))

-- The third argument is the status of the locked row.
unfoldable pub destroy_from : ℕ → Resource → CatchStatus → Db → Result Error (Bool × Db)
unfolding transition_catch_resource destroy_to
destroy_from now r status db =
    if is_gone status
    then ok (false, db)
    else destroy_to now r db (
        transition_catch_resource status
          (if is_active status then CatchStatus.manually_destroyed else CatchStatus.deleted))

unfoldable pub destroy_locked : ℕ → Db → Option Resource → Result Error (Bool × Db)
destroy_locked now db none = ok (false, db)
destroy_locked now db (some r) = destroy_from now r r.status db

unfoldable pub destroy : ℕ → String → Db → Result Error (Bool × Db)
destroy now public_id db = destroy_locked now db (locate public_id db)
