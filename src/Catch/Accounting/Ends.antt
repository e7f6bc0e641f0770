-- ===== src/Catch/Accounting/Ends.antt =====
-- Destroying, sweeping and provisioning resources keep the invariant of the CATCH tables.
use the402machine.Base.{
  ℕ, ◌<◌, String, ◌≡◌, refl, ◌∙◌, ◌≢◌, inl, inr, Bool, false, not, Option, none, some, List, [],
  ◌∷◌, ◌++◌, filter, All, arith, Bool-cases, Result, ok, err,
}
use the402machine.Base.Batch.{mem, update_in}
use the402machine.Domain.Lifecycle.{CatchStatus}
use the402machine.Catch.Model.{Resource, Event, Db, ProvisionInput, Error, Runtime}
use the402machine.Catch.Store.{
  is_live, locate, store, clear, expired_row, provision, destroy_from, destroy_locked,
  expire_due_resources, destroyed_row, destroy,
}
use the402machine.Catch.Usage.{
  usage, usage-clear_self, usage-clear_ne, usage_absent, usage-swept_in, usage-swept_out,
  filter-Distinct,
}
use the402machine.Catch.Accounting.{IsSound, IsValid, store-IsValid, locate-IsSound, ended-IsSound}

module _ (rt : Runtime) where
  destroyed_row-IsSound :
      (now : ℕ) (es0 es : List Event) (next : CatchStatus) (r : Resource)
      → usage rt r.id es ≡ 0
      → is_live next ≡ false
      → IsSound rt es0 r
      → IsSound rt es (destroyed_row now next r)
  unfolding destroyed_row
  destroyed_row-IsSound now es0 es next r u l h = ground arith

  destroy_to-IsValid :
      (now : ℕ) (next : CatchStatus) (r : Resource) (db : Db)
      → is_live next ≡ false
      → IsSound rt db.events r
      → IsValid rt db
      → IsValid rt (store (destroyed_row now next r) (record db { events = clear r.id db.events }))
  unfolding destroyed_row
  destroy_to-IsValid now next r db l h v =
      store-IsValid rt (destroyed_row now next r) db (clear r.id db.events)
        (destroyed_row-IsSound now db.events _ next r (usage-clear_self rt r.id db.events) l h)
        (λ j n. usage-clear_ne rt r.id j db.events n) (filter-Distinct _ db.events v.distinct) v

  -- Destroying is never an illegal transition.
  abbrev pub Destroys : Result Error (Bool × Db) → Type 0
  Destroys (ok (done, db)) = IsValid rt db
  Destroys (err e) = ⊥

  destroy_from-Destroys :
      (now : ℕ) (r : Resource) (s : CatchStatus) (db : Db)
      → IsSound rt db.events r
      → IsValid rt db
      → Destroys (destroy_from now r s db)
  unfolding destroy_from
  destroy_from-Destroys now r CatchStatus.active db h v =
      destroy_to-IsValid now CatchStatus.manually_destroyed r db refl h v
  destroy_from-Destroys now r CatchStatus.exhausted db h v =
      destroy_to-IsValid now CatchStatus.deleted r db refl h v
  destroy_from-Destroys now r CatchStatus.suspended db h v =
      destroy_to-IsValid now CatchStatus.deleted r db refl h v
  destroy_from-Destroys now r _ db h v = v

  destroy_locked-Destroys :
      (now : ℕ) (db : Db) (found : Option Resource)
      → ((r : Resource) → found ≡ some r → IsSound rt db.events r)
      → IsValid rt db
      → Destroys (destroy_locked now db found)
  unfolding destroy_locked
  destroy_locked-Destroys now db none h v = v
  destroy_locked-Destroys now db (some r) h v = destroy_from-Destroys now r r.status db (h r refl) v

  pub destroy-Destroys :
      (now : ℕ) (public_id : String) (db : Db) → IsValid rt db → Destroys (destroy now public_id db)
  unfolding destroy
  destroy-Destroys now public_id db v =
      destroy_locked-Destroys now db (locate public_id db)
        (λ r e. locate-IsSound rt public_id db r v e) v

  sweep-IsSound :
      (now : ℕ) (ids : List String) (es : List Event) (rows : List Resource)
      → All (IsSound rt es) rows
      → All
          (IsSound rt (filter (λ e. not (mem e.resource_id ids)) es))
          (update_in (λ r. r.id) ids (expired_row now) rows)
  sweep-IsSound now ids es [] h = tt
  sweep-IsSound now ids es (r ∷ rows) h = elim (Bool-cases (mem r.id ids)) [
    | inl t ↦ rw t (
      ended-IsSound rt es _ r now (usage-swept_in rt ids r.id es t) h.0,
      sweep-IsSound now ids es rows h.1,
    )
    | inr t ↦
        let same = usage-swept_out rt ids r.id es t in
        rw t (
          record {
            metered = same ∙ h.0.metered;
            within = h.0.within;
            counted = h.0.counted;
            owner_held = h.0.owner_held;
            ingest_held = h.0.ingest_held;
            room = h.0.room;
          },
          sweep-IsSound now ids es rows h.1,
        )
  ]

  pub expire_due_resources-IsValid :
      (now : ℕ) (locked : String → Bool) (requested : ℕ) (db : Db)
      → IsValid rt db
      → IsValid rt (expire_due_resources now locked requested db).1
  unfolding expire_due_resources
  expire_due_resources-IsValid now locked requested db v = record {
    sound = sweep-IsSound now _ db.events db.resources v.sound;
    distinct = filter-Distinct _ db.events v.distinct;
  }

  append-All :
      (es : List Event) (r : Resource) (rows : List Resource)
      → IsSound rt es r
      → All (IsSound rt es) rows
      → All (IsSound rt es) (rows ++ r ∷ [])
  append-All es r [] s h = (s, tt)
  append-All es r (x ∷ xs) s h = (h.0, append-All es r xs s h.1)

  pub provision-IsValid :
      (now : ℕ) (id : String) (input : ProvisionInput) (db : Db)
      → 0 < input.request_limit
      → 0 < input.storage_limit_bytes
      → All (λ e. e.resource_id ≢ id) db.events
      → IsValid rt db
      → IsValid rt (provision now id input db).1
  unfolding provision
  provision-IsValid now id input db p q fresh v = record {
    sound =
        append-All db.events _ db.resources
          (record {
            metered = usage_absent rt id db.events fresh;
            within = omega arith;
            counted = omega arith;
            owner_held = refl;
            ingest_held = refl;
            room = λ e. (p, q);
          })
          v.sound;
    distinct = v.distinct;
  }
