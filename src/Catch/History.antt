-- ===== src/Catch/History.antt =====
-- Histories of calls of `CatchRepository`, and what holds after each of them.
use the402machine.Base.{
  ℕ, ◌+◌, ◌≤◌, ◌<◌, String, ◌≡◌, refl, ◌≢◌, inl, inr, Bool, true, false, Option, none, some, List,
  [], ◌∷◌, ◌++◌, All, length, str_eq, arith, Bool-cases, Result-cases, Result, ok, err, not, ltb,
  leb, ◌||◌, length-filter, subst,
}
use the402machine.Base.Batch.{clamp_limit, sweep_complete}
use the402machine.Domain.Lifecycle.{is_active, is_exhausted}
use the402machine.Catch.Model.{
  Resource, Db, ProvisionInput, AcceptEventInput, AcceptEventResult, accepted, rejected, Error,
  Runtime, event_bytes,
}
use the402machine.Catch.Store.{
  locate, provision, get_credential_hashes, new_event, store_event, accept_locked, accept_event,
  set_event_ip_location, delete_event, is_due, expired_row, expire_locked_resource,
  expire_due_resources, destroy,
}
use the402machine.Catch.Accounting.{IsValid, get_credential_hashes-IsValid}
use the402machine.Catch.Accounting.Requests.{accept_event-IsValid}
use the402machine.Catch.Accounting.Edits.{set_event_ip_location-IsValid, delete_event-IsValid}
use the402machine.Catch.Accounting.Ends.{
  provision-IsValid, expire_due_resources-IsValid, destroy-Destroys,
}

-- A call with its clock reading and the id that the database generates for it.
pub data Call : Type 0 where
  provisions : (now : ℕ) (id : String) → ProvisionInput → Call
  reads_credentials : (now : ℕ) (public_id : String) → Call
  accepts : (now : ℕ) (event_id : String) → AcceptEventInput → Call
  sets_location : (now : ℕ) (public_id event_id location : String) → Call
  deletes_event : (now : ℕ) (public_id event_id : String) → Call
  expires_due : (now : ℕ) (locked : String → Bool) (limit : ℕ) → Call
  destroys : (now : ℕ) (public_id : String) → Call

-- A transaction that throws is rolled back.
abbrev pub after {ℓ} : {A : Type ℓ} → Db → Result Error (A × Db) → Db
after db (ok (a, db')) = db'
after db (err e) = db

module _ (rt : Runtime) where
  unfoldable pub step : Db → Call → Db
  step db (provisions now id input) = (provision now id input db).1
  step db (reads_credentials now public_id) = (get_credential_hashes now public_id db).1
  step db (accepts now event_id input) = after db (accept_event rt now event_id input db)
  step db (sets_location now public_id event_id location) =
      (set_event_ip_location rt now public_id event_id location db).1
  step db (deletes_event now public_id event_id) = (delete_event rt now public_id event_id db).1
  step db (expires_due now locked limit) = (expire_due_resources now locked limit db).1
  step db (destroys now public_id) = after db (destroy now public_id db)

  -- A generated id is new, and a plan's limits are positive.
  abbrev pub IsFresh : Db → Call → Type 0
  IsFresh db (provisions now id input) =
      (0 < input.request_limit)
      × (0 < input.storage_limit_bytes)
      × All (λ e. e.resource_id ≢ id) db.events
  IsFresh db (accepts now event_id input) = All (λ e. e.id ≢ event_id) db.events
  IsFresh db _ = Unit

  unfoldable pub run : Db → List Call → Db
  run db [] = db
  run db (c ∷ cs) = run (step db c) cs

  abbrev pub AllFresh : Db → List Call → Type 0
  AllFresh db [] = Unit
  AllFresh db (c ∷ cs) = IsFresh db c × AllFresh (step db c) cs

  step-IsValid : (db : Db) (c : Call) → IsFresh db c → IsValid rt db → IsValid rt (step db c)
  unfolding step
  step-IsValid db (provisions now id input) f v = provision-IsValid rt now id input db f.0 f.1 f.2 v
  step-IsValid db (reads_credentials now public_id) f v =
      get_credential_hashes-IsValid rt now public_id db v
  step-IsValid db (accepts now event_id input) f v =
      elim (Result-cases (accept_event rt now event_id input db)) [
        | inl (r, e) ↦
            rw e (accept_event-IsValid rt now event_id input db {res = r.0} {db' = r.1} f v e)
        | inr (x, e) ↦ rw e v
      ]
  step-IsValid db (sets_location now public_id event_id location) f v =
      set_event_ip_location-IsValid rt now public_id event_id location db v
  step-IsValid db (deletes_event now public_id event_id) f v =
      delete_event-IsValid rt now public_id event_id db v
  step-IsValid db (expires_due now locked limit) f v =
      expire_due_resources-IsValid rt now locked limit db v
  step-IsValid db (destroys now public_id) f v = elim (Result-cases (destroy now public_id db)) [
    | inl (r, e) ↦ rw e (rw e at (destroy-Destroys rt now public_id db v))
    | inr (x, e) ↦ rw e v
  ]

  -- Whatever calls are made, on a valid database and with new ids, afterwards every resource's
  -- stored bytes are exactly those of its events, within its storage quota; its accepted requests
  -- are within its request quota; it has both token hashes while it is live and none afterwards;
  -- and an active resource has room for a request.
  pub run-IsValid :
      (db : Db) (cs : List Call) → AllFresh db cs → IsValid rt db → IsValid rt (run db cs)
  unfolding run
  run-IsValid db [] f v = v
  run-IsValid db (c ∷ cs) f v = run-IsValid (step db c) cs f.1 (step-IsValid db c f.0 v)

  -- What an answer of `acceptEvent` says of the state before it and of the events after it.
  abbrev pub Recorded : ℕ → String → AcceptEventInput → Db → AcceptEventResult × Db → Type 0
  Recorded now event_id input db (accepted id number, db') =
      (r : Resource) × (locate input.public_id db ≡ some r)
      × (id ≡ event_id)
      × (number ≡ r.accepted_request_count + 1)
      × (number ≤ r.request_limit)
      × (is_active r.status ≡ true)
      × (now < r.expires_at)
      × (length input.body ≤ r.max_bytes_per_request)
      × (r.stored_bytes + event_bytes rt (new_event rt now event_id input r)
          ≤ r.storage_limit_bytes)
      × (db'.events ≡ db.events ++ new_event rt now event_id input r ∷ [])
  Recorded now event_id input db (rejected reason, db') = length db'.events ≤ length db.events

  expire_locked-events :
      (now : ℕ) (r : Resource) (db : Db)
      → length (expire_locked_resource now r db).events ≤ length db.events
  unfolding expire_locked_resource
  expire_locked-events now r db =
      ground (arith, length-filter (λ e. not (str_eq e.resource_id r.id)) db.events)

  store_event-Recorded :
      (now : ℕ) (event_id : String) (input : AcceptEventInput) (db : Db) (r : Resource)
      → locate input.public_id db ≡ some r
      → is_active r.status ≡ true
      → now < r.expires_at
      → length input.body ≤ r.max_bytes_per_request
      → Recorded now event_id input db (store_event rt now event_id input r db)
  unfolding store_event
  store_event-Recorded now event_id input db r f a n b = elim (Bool-cases refused) [
    | inl t ↦ rw t (omega arith)
    | inr t ↦ rw t (r, f, refl, refl, ground arith, a, n, b, ground arith, refl)
  ]
    where
      refused : Bool
      refused =
          ltb r.request_limit (r.accepted_request_count + 1)
          || ltb r.storage_limit_bytes
              (r.stored_bytes + event_bytes rt (new_event rt now event_id input r))

  accept_locked-Recorded :
      (now : ℕ) (event_id : String) (input : AcceptEventInput) (db : Db) (found : Option Resource)
      → locate input.public_id db ≡ found
      → Recorded now event_id input db (accept_locked rt now event_id input db found)
  unfolding accept_locked
  accept_locked-Recorded now event_id input db none f = omega arith
  accept_locked-Recorded now event_id input db (some r) f =
      elim (Bool-cases (leb r.expires_at now)) [
        | inl t ↦ rw t (expire_locked-events now r db)
        | inr t ↦ rw t (elim (Bool-cases (is_exhausted r.status)) [
          | inl u ↦ rw u (omega arith)
          | inr u ↦ rw u (elim (Bool-cases (is_active r.status)) [
            | inl w ↦ rw w (elim (Bool-cases (ltb r.max_bytes_per_request (length input.body))) [
              | inl x ↦ rw x (omega arith)
              | inr x ↦
                  rw x
                    (store_event-Recorded now event_id input db r f w (ground arith) (ground arith))
            ])
            | inr w ↦ rw w (omega arith)
          ])
        ])
      ]

  -- An accepted request was for an active resource that had not expired and whose limits left room
  -- for the body, the event and the count; it appends exactly its own event, under the next number.
  -- A refused request adds no event.
  pub accept_event-Recorded :
      (now : ℕ) (event_id : String) (input : AcceptEventInput) (db : Db)
      (out : AcceptEventResult × Db)
      → accept_event rt now event_id input db ≡ ok out
      → Recorded now event_id input db out
  unfolding accept_event
  accept_event-Recorded now event_id input db out h =
      let same : accept_locked rt now event_id input db (locate input.public_id db) ≡ out =
        ground arith in
      subst (Recorded now event_id input db) same
        (accept_locked-Recorded now event_id input db (locate input.public_id db) refl)

  -- After a sweep that reports fewer expired resources than its limit, no live resource that is due
  -- and not locked is left.
  pub expire_due_resources_complete :
      (now : ℕ) (locked : String → Bool) (requested : ℕ) (db : Db)
      → (expire_due_resources now locked requested db).0 < clamp_limit requested
      → All
          (λ r. is_due now locked r ≡ false)
          (expire_due_resources now locked requested db).1.resources
  unfolding expire_due_resources expired_row
  expire_due_resources_complete now locked requested db h =
      sweep_complete (λ r. r.id) (λ r. r.expires_at) (is_due now locked) (expired_row now)
        (clamp_limit requested) db.resources (λ x. refl) h
