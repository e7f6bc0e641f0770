-- ===== src/Catch/Accounting.antt =====
-- The invariant of the CATCH tables: the stored bytes of every resource are those of its events,
-- the quotas hold, and only a live resource has credentials.
pub mod Requests
pub mod Edits
pub mod Ends
use the402machine.Base.{
  ℕ, ◌+◌, ◌-◌, ◌≤◌, ◌<◌, String, ◌≡◌, refl, ◌∙◌, ◌≢◌, inl, inr, Bool, true, false, not, ◌||◌,
  Option, none, some, List, [], ◌∷◌, ◌++◌, ltb, if◌then◌else◌, is_some, filter, All, str_eq, eq_iff,
  arith, Bool-cases, Option-cases, Result, ok, err,
}
use the402machine.Base.Table
use the402machine.Base.Batch.{mem, update_in}
use the402machine.Domain.Lifecycle.{CatchStatus, is_active}
use the402machine.Catch.Model.{
  Resource, Event, Db, ProvisionInput, AcceptEventInput, AcceptEventResult, Error, Runtime,
  event_bytes,
}
use the402machine.Catch.Store.{
  is_live, locate, store, clear, is_event, expired_row, expire_locked_resource, provision,
  get_credential_hashes, new_event, exhausted_row, accepted_row, located_row, store_event,
  accept_locked, accept_event, set_location, set_event_ip_location, delete_found, delete_event,
  destroy_from, destroy_locked, expire_due_resources, destroyed_row, destroy,
}
use the402machine.Catch.Usage.{
  Distinct, usage, usage-append, usage-clear_self, usage-clear_ne, usage-remove, usage-save,
  usage_absent, usage-swept_in, usage-swept_out, filter-Distinct, append-Distinct, remove-Distinct,
  save-Distinct,
}

module _ (rt : Runtime) where
  -- What holds of one resource beside a table of events.
  pub record IsSound (es : List Event) (r : Resource) : Type 0 where
    pub metered : usage rt r.id es ≡ r.stored_bytes
    pub within : r.stored_bytes ≤ r.storage_limit_bytes
    pub counted : r.accepted_request_count ≤ r.request_limit
    pub owner_held : is_some r.owner_token_hash ≡ is_live r.status
    pub ingest_held : is_some r.ingest_token_hash ≡ is_live r.status
    pub room :
        is_active r.status ≡ true
        → (r.accepted_request_count < r.request_limit) × (r.stored_bytes < r.storage_limit_bytes)

  pub record IsValid (db : Db) : Type 0 where
    pub sound : All (IsSound db.events) db.resources
    pub distinct : Distinct db.events

  -- A write of one resource and of the events keeps the invariant if the written row is sound and
  -- the other resources use what they used.
  pub store-IsValid :
      (r : Resource) (db : Db) (es : List Event)
      → IsSound es r
      → ((j : String) → j ≢ r.id → usage rt j es ≡ usage rt j db.events)
      → Distinct es
      → IsValid db
      → IsValid (store r (record db { events = es }))
  store-IsValid r db es s same d v = record {
    sound =
        Table.save-All_other (IsSound db.events) (IsSound es) (λ x. x.id) r db.resources s
          (λ x n h. record {
            metered = same x.id n ∙ h.metered;
            within = h.within;
            counted = h.counted;
            owner_held = h.owner_held;
            ingest_held = h.ingest_held;
            room = h.room;
          })
          v.sound;
    distinct = d;
  }

  pub locate-IsSound :
      (public_id : String) (db : Db) (r : Resource)
      → IsValid db
      → locate public_id db ≡ some r
      → IsSound db.events r
  locate-IsSound public_id db r v e =
      Table.find-All (IsSound db.events) (λ x. str_eq x.public_id public_id) db.resources r e
        v.sound

  -- A resource that has ended, and whose events are gone, is sound.
  pub ended-IsSound :
      (es0 es : List Event) (r : Resource) (now : ℕ)
      → usage rt r.id es ≡ 0
      → IsSound es0 r
      → IsSound es (expired_row now r)
  unfolding expired_row
  ended-IsSound es0 es r now u h = record {
    metered = u;
    within = omega arith;
    counted = h.counted;
    owner_held = refl;
    ingest_held = refl;
    room = λ e. cc;
  }

  pub expire_locked-IsValid :
      (now : ℕ) (r : Resource) (db : Db)
      → IsSound db.events r
      → IsValid db
      → IsValid (expire_locked_resource now r db)
  unfolding expire_locked_resource
  expire_locked-IsValid now r db h v = elim (Bool-cases (is_live r.status)) [
    | inl t ↦ rw t (
        store-IsValid (expired_row now r) db (clear r.id db.events)
          (ended-IsSound db.events (clear r.id db.events) r now (usage-clear_self rt r.id db.events)
            h)
          (λ j n. usage-clear_ne rt r.id j db.events n) (filter-Distinct _ db.events v.distinct) v)
    | inr t ↦ rw t v
  ]

  pub get_credential_hashes-IsValid :
      (now : ℕ) (public_id : String) (db : Db)
      → IsValid db
      → IsValid (get_credential_hashes now public_id db).1
  unfolding get_credential_hashes
  get_credential_hashes-IsValid now public_id db v = elim (Option-cases (locate public_id db)) [
    | inl e ↦ rw (e, get_credential_hashes) v
    | inr (r, e) ↦
        rw (e, get_credential_hashes)
          (ground (arith, expire_locked-IsValid now r db (locate-IsSound public_id db r v e) v))
  ]
