-- ===== src/Catch/Accounting/Requests.antt =====
-- A request that is received keeps the invariant of the CATCH tables.
use the402machine.Base.{
  ℕ, ◌+◌, String, ◌≡◌, refl, ◌≢◌, inl, inr, Bool, true, false, ◌||◌, Option, none, some, List, [],
  ◌∷◌, ◌++◌, ltb, All, eq_iff, arith, Bool-cases, ok,
}
use the402machine.Domain.Lifecycle.{is_active}
use the402machine.Catch.Model.{
  Resource, Event, Db, AcceptEventInput, AcceptEventResult, Runtime, event_bytes,
}
use the402machine.Catch.Store.{
  locate, new_event, exhausted_row, accepted_row, store_event, accept_locked, accept_event,
}
use the402machine.Catch.Usage.{usage-append, append-Distinct}
use the402machine.Catch.Accounting.{
  IsSound, IsValid, store-IsValid, locate-IsSound, expire_locked-IsValid,
}

module _ (rt : Runtime) where
  exhausted_row-IsSound :
      (now : ℕ) (es : List Event) (r : Resource)
      → is_active r.status ≡ true
      → IsSound rt es r
      → IsSound rt es (exhausted_row rt now r)
  unfolding exhausted_row
  exhausted_row-IsSound now es r a h = ground arith

  accepted_row-IsSound :
      (now : ℕ) (es : List Event) (e : Event) (r : Resource)
      → e.resource_id ≡ r.id
      → is_active r.status ≡ true
      → ltb r.request_limit (r.accepted_request_count + 1) ≡ false
      → ltb r.storage_limit_bytes (r.stored_bytes + event_bytes rt e) ≡ false
      → IsSound rt es r
      → IsSound rt (es ++ e ∷ []) (accepted_row rt now (r.stored_bytes + event_bytes rt e) r)
  unfolding accepted_row
  accepted_row-IsSound now es e r same a c b h =
      ground (arith, usage-append rt r.id e es, eq_iff e.resource_id r.id)

  -- A request that is stored, or that exhausts the resource, keeps the invariant.
  store_event-IsValid :
      (now : ℕ) (event_id : String) (input : AcceptEventInput) (r : Resource) (db : Db)
      → All (λ e. e.id ≢ event_id) db.events
      → IsSound rt db.events r
      → IsValid rt db
      → is_active r.status ≡ true
      → IsValid rt (store_event rt now event_id input r db).1
  unfolding store_event new_event
  store_event-IsValid now event_id input r db fresh h v a = elim (Bool-cases refused) [
    | inl t ↦ rw t (
        store-IsValid rt (exhausted_row rt now r) db db.events
          (exhausted_row-IsSound now db.events r a h) (λ j n. refl) v.distinct v)
    | inr t ↦ rw t (
        store-IsValid rt (accepted_row rt now (r.stored_bytes + event_bytes rt e) r) db
          (db.events ++ e ∷ [])
          (accepted_row-IsSound now db.events e r refl a (ground arith) (ground arith) h)
          (λ j n. ground (arith, usage-append rt j e db.events, eq_iff r.id j))
          (append-Distinct e db.events fresh v.distinct) v)
  ]
    where
      e : Event
      e = new_event rt now event_id input r

      refused : Bool
      refused =
          ltb r.request_limit (r.accepted_request_count + 1)
          || ltb r.storage_limit_bytes (r.stored_bytes + event_bytes rt e)

  accept_locked-IsValid :
      (now : ℕ) (event_id : String) (input : AcceptEventInput) (db : Db) (found : Option Resource)
      → All (λ e. e.id ≢ event_id) db.events
      → ((r : Resource) → found ≡ some r → IsSound rt db.events r)
      → IsValid rt db
      → IsValid rt (accept_locked rt now event_id input db found).1
  unfolding accept_locked
  accept_locked-IsValid now event_id input db none fresh h v = v
  accept_locked-IsValid now event_id input db (some r) fresh h v = ground (
    arith,
    expire_locked-IsValid rt now r db (h r refl) v,
    store_event-IsValid now event_id input r db fresh (h r refl) v,
  )

  pub accept_event-IsValid :
      (now : ℕ) (event_id : String) (input : AcceptEventInput) (db : Db) {res : AcceptEventResult}
      {db' : Db}
      → All (λ e. e.id ≢ event_id) db.events
      → IsValid rt db
      → accept_event rt now event_id input db ≡ ok (res, db')
      → IsValid rt db'
  unfolding accept_event
  accept_event-IsValid now event_id input db {res} {db'} fresh v h =
      let same : (accept_locked rt now event_id input db (locate input.public_id db)).1 ≡ db' =
        ground arith in
      rw (← same) (
        accept_locked-IsValid now event_id input db (locate input.public_id db) fresh
          (λ r e. locate-IsSound rt input.public_id db r v e) v)
