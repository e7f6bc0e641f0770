-- ===== src/Catch/Accounting/Edits.antt =====
-- Locating and deleting an event keep the invariant of the CATCH tables.
use the402machine.Base.{
  ℕ, ◌+◌, ◌-◌, ◌≤◌, String, ◌≡◌, refl, inl, inr, true, Option, none, some, List, ltb, if◌then◌else◌,
  str_eq, eq_iff, arith, Bool-cases, Option-cases,
}
use the402machine.Base.Table
use the402machine.Catch.Model.{Resource, Event, Db, Runtime, event_bytes}
use the402machine.Catch.Store.{
  is_live, locate, is_event, located_row, set_location, set_event_ip_location, delete_found,
  delete_event,
}
use the402machine.Catch.Usage.{usage, usage-remove, usage-save, remove-Distinct, save-Distinct}
use the402machine.Catch.Accounting.{IsSound, IsValid, store-IsValid, locate-IsSound}

module _ (rt : Runtime) where
  located_row-IsSound :
      (now : ℕ) (es es' : List Event) (r : Resource) (next_bytes : ℕ)
      → is_live r.status ≡ true
      → usage rt r.id es' ≡ next_bytes
      → next_bytes ≤ r.storage_limit_bytes
      → IsSound rt es r
      → IsSound rt es' (located_row rt now next_bytes r)
  unfolding located_row
  located_row-IsSound now es es' r next_bytes live u fits h = ground arith

  delete_row-IsSound :
      (now : ℕ) (es es' : List Event) (r : Resource) (next_bytes : ℕ)
      → usage rt r.id es' ≡ next_bytes
      → next_bytes ≤ r.stored_bytes
      → IsSound rt es r
      → IsSound rt es' (record r { stored_bytes = next_bytes; updated_at = now })
  delete_row-IsSound now es es' r next_bytes u fits h = ground arith

  -- An event that a resource's query finds is one of its own.
  found_owner :
      (rid eid : String) (es : List Event) (e : Event)
      → Table.find (is_event rt rid eid) es ≡ some e
      → e.resource_id ≡ rid
  found_owner rid eid es e f =
      ground (arith, Table.find-true (is_event rt rid eid) es e f, eq_iff e.resource_id rid)

  set_location-IsValid :
      (now : ℕ) (event_id location : String) (r : Resource) (db : Db) (found : Option Event)
      → is_live r.status ≡ true
      → Table.find (is_event rt r.id event_id) db.events ≡ found
      → IsSound rt db.events r
      → IsValid rt db
      → IsValid rt (set_location rt now location r db found).1
  unfolding set_location
  set_location-IsValid now event_id location r db none live f h v = v
  set_location-IsValid now event_id location r db (some e) live f h v =
      elim (Bool-cases (ltb r.storage_limit_bytes next_bytes)) [
        | inl t ↦ rw t v
        | inr t ↦ rw t (
            store-IsValid rt (located_row rt now next_bytes r) db
              (Table.save (λ x. x.id) next db.events)
              (located_row-IsSound now db.events _ r next_bytes live
                (ground (arith, moved r.id, owner, eq_iff e.resource_id r.id)) (ground arith) h)
              (λ j n. ground (arith, moved j, owner, eq_iff e.resource_id j))
              (save-Distinct next db.events v.distinct) v)
      ]
    where
      next : Event
      next = record e { ip_location = some location }

      next_bytes : ℕ
      next_bytes = r.stored_bytes + event_bytes rt next - event_bytes rt e

      owner : e.resource_id ≡ r.id
      owner = found_owner r.id event_id db.events e f

      moved :
          (j : String)
          → usage rt j (Table.save (λ x. x.id) next db.events)
              + (if str_eq e.resource_id j then event_bytes rt e else 0)
            ≡ usage rt j db.events + (if str_eq e.resource_id j then event_bytes rt next else 0)
      moved j = usage-save rt r.id event_id j e next db.events v.distinct refl f

  pub set_event_ip_location-IsValid :
      (now : ℕ) (public_id event_id location : String) (db : Db)
      → IsValid rt db
      → IsValid rt (set_event_ip_location rt now public_id event_id location db).1
  unfolding set_event_ip_location
  set_event_ip_location-IsValid now public_id event_id location db v =
      elim (Option-cases (locate public_id db)) [
        | inl e ↦ rw (e, set_event_ip_location) v
        | inr (r, e) ↦ elim (Bool-cases (is_live r.status)) [
          | inl t ↦
              rw (e, set_event_ip_location, t)
                (set_location-IsValid now event_id location r db _ t refl
                  (locate-IsSound rt public_id db r v e) v)
          | inr t ↦ rw (e, set_event_ip_location, t) v
        ]
      ]

  delete_found-IsValid :
      (now : ℕ) (event_id : String) (r : Resource) (db : Db) (found : Option Event)
      → Table.find (is_event rt r.id event_id) db.events ≡ found
      → IsSound rt db.events r
      → IsValid rt db
      → IsValid rt (delete_found rt now r db found).1
  unfolding delete_found
  delete_found-IsValid now event_id r db none f h v = v
  delete_found-IsValid now event_id r db (some e) f h v =
      store-IsValid rt _ db (Table.remove (λ x. x.id) e.id db.events)
        (delete_row-IsSound now db.events _ r (r.stored_bytes - event_bytes rt e)
          (ground (arith, moved r.id, owner, eq_iff e.resource_id r.id)) (omega arith) h)
        (λ j n. ground (arith, moved j, owner, eq_iff e.resource_id j))
        (remove-Distinct e.id db.events v.distinct) v
    where
      owner : e.resource_id ≡ r.id
      owner = found_owner r.id event_id db.events e f

      moved :
          (j : String)
          → usage rt j (Table.remove (λ x. x.id) e.id db.events)
              + (if str_eq e.resource_id j then event_bytes rt e else 0)
            ≡ usage rt j db.events
      moved j = usage-remove rt r.id event_id j e db.events v.distinct f

  pub delete_event-IsValid :
      (now : ℕ) (public_id event_id : String) (db : Db)
      → IsValid rt db
      → IsValid rt (delete_event rt now public_id event_id db).1
  unfolding delete_event
  delete_event-IsValid now public_id event_id db v = elim (Option-cases (locate public_id db)) [
    | inl e ↦ rw (e, delete_event) v
    | inr (r, e) ↦ elim (Bool-cases (is_live r.status)) [
      | inl t ↦
          rw (e, delete_event, t)
            (delete_found-IsValid now event_id r db _ refl (locate-IsSound rt public_id db r v e) v)
      | inr t ↦ rw (e, delete_event, t) v
    ]
  ]
