-- ===== src/Catch/Usage.antt =====
-- The bytes that the events of one resource take, and how each write of the event table moves them.
use the402machine.Base.{
  ℕ, ◌+◌, String, ◌≡◌, refl, sym, subst, ◌≢◌, inl, inr, Bool, true, false, not, some, List, [], ◌∷◌,
  ◌++◌, if◌then◌else◌, filter, All, str_eq, eq_iff, eq_refl, arith, Bool-cases,
}
use the402machine.Base.Table
use the402machine.Base.Batch.{mem}
use the402machine.Catch.Model.{Event, Runtime, event_bytes}
use the402machine.Catch.Store.{clear, is_event}

-- No two events have one id.
abbrev pub Distinct : List Event → Type 0
Distinct [] = Unit
Distinct (x ∷ xs) = All (λ y. y.id ≢ x.id) xs × Distinct xs

filter-All_ids :
    (k : String) (p : Event → Bool) (es : List Event)
    → All (λ y. y.id ≢ k) es
    → All (λ y. y.id ≢ k) (filter p es)
filter-All_ids k p [] h = tt
filter-All_ids k p (x ∷ xs) h = elim (Bool-cases (p x)) [
  | inl t ↦ rw t (h.0, filter-All_ids k p xs h.1)
  | inr t ↦ rw t (filter-All_ids k p xs h.1)
]

pub filter-Distinct : (p : Event → Bool) (es : List Event) → Distinct es → Distinct (filter p es)
filter-Distinct p [] d = tt
filter-Distinct p (x ∷ xs) d = elim (Bool-cases (p x)) [
  | inl t ↦ rw t (filter-All_ids x.id p xs d.0, filter-Distinct p xs d.1)
  | inr t ↦ rw t (filter-Distinct p xs d.1)
]

append-All_ids :
    (k : String) (e : Event) (es : List Event)
    → e.id ≢ k
    → All (λ y. y.id ≢ k) es
    → All (λ y. y.id ≢ k) (es ++ e ∷ [])
append-All_ids k e [] n h = (n, tt)
append-All_ids k e (x ∷ xs) n h = (h.0, append-All_ids k e xs n h.1)

pub append-Distinct :
    (e : Event) (es : List Event)
    → All (λ y. y.id ≢ e.id) es
    → Distinct es
    → Distinct (es ++ e ∷ [])
append-Distinct e [] f d = (tt, tt)
append-Distinct e (x ∷ xs) f d =
    (append-All_ids x.id e xs (λ q. f.0 (sym q)) d.0, append-Distinct e xs f.1 d.1)

module _ (k : String) where
  remove-All_ids :
      (j : String) (es : List Event)
      → All (λ y. y.id ≢ k) es
      → All (λ y. y.id ≢ k) (Table.remove (λ x. x.id) j es)
  remove-All_ids j [] h = tt
  remove-All_ids j (x ∷ xs) h = elim (Bool-cases (str_eq x.id j)) [
    | inl t ↦ rw t (remove-All_ids j xs h.1)
    | inr t ↦ rw t (h.0, remove-All_ids j xs h.1)
  ]

  remove_absent : (es : List Event) → All (λ y. y.id ≢ k) es → Table.remove (λ x. x.id) k es ≡ es
  remove_absent [] h = refl
  remove_absent (x ∷ xs) h = ground (arith, eq_iff x.id k, remove_absent xs h.1)

  save_absent :
      (r : Event) (es : List Event)
      → r.id ≡ k
      → All (λ y. y.id ≢ k) es
      → Table.save (λ x. x.id) r es ≡ es
  save_absent r [] e h = refl
  save_absent r (x ∷ xs) e h = ground (arith, eq_iff x.id r.id, save_absent r xs e h.1)

pub remove-Distinct :
    (j : String) (es : List Event) → Distinct es → Distinct (Table.remove (λ x. x.id) j es)
remove-Distinct j [] d = tt
remove-Distinct j (x ∷ xs) d = elim (Bool-cases (str_eq x.id j)) [
  | inl t ↦ rw t (remove-Distinct j xs d.1)
  | inr t ↦ rw t (remove-All_ids x.id j xs d.0, remove-Distinct j xs d.1)
]

save-All_ids :
    (k : String) (r : Event) (es : List Event)
    → All (λ y. y.id ≢ k) es
    → All (λ y. y.id ≢ k) (Table.save (λ x. x.id) r es)
save-All_ids k r [] h = tt
save-All_ids k r (x ∷ xs) h = ground (arith, eq_iff x.id r.id, save-All_ids k r xs h.1)

pub save-Distinct :
    (r : Event) (es : List Event) → Distinct es → Distinct (Table.save (λ x. x.id) r es)
save-Distinct r [] d = tt
save-Distinct r (x ∷ xs) d = elim (Bool-cases (str_eq x.id r.id)) [
  | inl t ↦
      let same : x.id ≡ r.id = (eq_iff x.id r.id).0 t in
      rw t (
        save-All_ids r.id r xs (subst (λ k. All (λ y. y.id ≢ k) xs) same d.0),
        save-Distinct r xs d.1,
      )
  | inr t ↦ rw t (save-All_ids x.id r xs d.0, save-Distinct r xs d.1)
]

module _ (rt : Runtime) where
  -- What an event adds to the total of the resource `id`.
  abbrev share : String → Event → ℕ
  share id e = if str_eq e.resource_id id then event_bytes rt e else 0

  unfoldable pub usage : String → List Event → ℕ
  usage id [] = 0
  usage id (e ∷ es) = share id e + usage id es

  pub usage-append :
      (id : String) (e : Event) (es : List Event)
      → usage id (es ++ e ∷ []) ≡ usage id es + share id e
  unfolding usage
  usage-append id e [] = omega arith
  usage-append id e (x ∷ xs) = omega (arith, usage-append id e xs)

  pub usage-clear_self : (id : String) (es : List Event) → usage id (clear id es) ≡ 0
  unfolding usage
  usage-clear_self id [] = refl
  usage-clear_self id (x ∷ xs) = ground (arith, usage-clear_self id xs)

  pub usage-clear_ne :
      (id j : String) (es : List Event) → j ≢ id → usage j (clear id es) ≡ usage j es
  unfolding usage
  usage-clear_ne id j [] h = refl
  usage-clear_ne id j (x ∷ xs) h =
      ground (arith, eq_iff x.resource_id id, eq_iff x.resource_id j, usage-clear_ne id j xs h)

  pub usage_absent :
      (id : String) (es : List Event) → All (λ e. e.resource_id ≢ id) es → usage id es ≡ 0
  unfolding usage
  usage_absent id [] h = refl
  usage_absent id (x ∷ xs) h = ground (arith, eq_iff x.resource_id id, usage_absent id xs h.1)

  pub usage-swept_in :
      (ids : List String) (j : String) (es : List Event)
      → mem j ids ≡ true
      → usage j (filter (λ e. not (mem e.resource_id ids)) es) ≡ 0
  unfolding usage
  usage-swept_in ids j [] h = refl
  usage-swept_in ids j (x ∷ xs) h = elim (Bool-cases (str_eq x.resource_id j)) [
    | inl t ↦
        let same : x.resource_id ≡ j = (eq_iff x.resource_id j).0 t in
        let hit : mem x.resource_id ids ≡ true = rw same h in rw hit (usage-swept_in ids j xs h)
    | inr t ↦ ground (arith, usage-swept_in ids j xs h)
  ]

  pub usage-swept_out :
      (ids : List String) (j : String) (es : List Event)
      → mem j ids ≡ false
      → usage j (filter (λ e. not (mem e.resource_id ids)) es) ≡ usage j es
  unfolding usage
  usage-swept_out ids j [] h = refl
  usage-swept_out ids j (x ∷ xs) h = elim (Bool-cases (str_eq x.resource_id j)) [
    | inl t ↦
        let same : x.resource_id ≡ j = (eq_iff x.resource_id j).0 t in
        let out : mem x.resource_id ids ≡ false = rw same h in
        rw out (ground (arith, usage-swept_out ids j xs h))
    | inr t ↦ ground (arith, usage-swept_out ids j xs h)
  ]

  usage-remove_head :
      (j : String) (x : Event) (xs : List Event)
      → All (λ y. y.id ≢ x.id) xs
      → usage j (Table.remove (λ y. y.id) x.id (x ∷ xs)) + share j x ≡ usage j (x ∷ xs)
  unfolding usage
  usage-remove_head j x xs h = rw (eq_refl, remove_absent x.id xs h) (omega arith)

  usage-save_head :
      (j : String) (x r : Event) (xs : List Event)
      → r.id ≡ x.id
      → All (λ y. y.id ≢ x.id) xs
      → usage j (Table.save (λ y. y.id) r (x ∷ xs)) + share j x ≡ usage j (x ∷ xs) + share j r
  unfolding usage
  usage-save_head j x r xs k h =
      rw ((eq_iff x.id r.id).1 (sym k), save_absent x.id r xs k h) (omega arith)

  -- The total before a deletion is the total after it and the share of the event.
  pub usage-remove :
      (rid eid j : String) (e : Event) (es : List Event)
      → Distinct es
      → Table.find (is_event rt rid eid) es ≡ some e
      → usage j (Table.remove (λ x. x.id) e.id es) + share j e ≡ usage j es
  unfolding usage
  usage-remove rid eid j e [] d f = cc
  usage-remove rid eid j e (x ∷ xs) d f = elim (Bool-cases (is_event rt rid eid x)) [
    | inl t ↦
        let same : x ≡ e = ground arith in
        subst (λ q. usage j (Table.remove (λ y. y.id) q.id (x ∷ xs)) + share j q ≡ usage j (x ∷ xs))
          same (usage-remove_head j x xs d.0)
    | inr t ↦
        let found : Table.find (is_event rt rid eid) xs ≡ some e = rw t at f in
        let other : e.id ≢ x.id =
          Table.find-All (λ y. y.id ≢ x.id) (is_event rt rid eid) xs e found d.0 in
        ground (arith, eq_iff x.id e.id, usage-remove rid eid j e xs d.1 found)
  ]

  pub usage-save :
      (rid eid j : String) (e r : Event) (es : List Event)
      → Distinct es
      → r.id ≡ e.id
      → Table.find (is_event rt rid eid) es ≡ some e
      → usage j (Table.save (λ x. x.id) r es) + share j e ≡ usage j es + share j r
  unfolding usage
  usage-save rid eid j e r [] d k f = cc
  usage-save rid eid j e r (x ∷ xs) d k f = elim (Bool-cases (is_event rt rid eid x)) [
    | inl t ↦
        let same : x ≡ e = ground arith in
        let k' : r.id ≡ x.id = rw same k in
        subst
          (λ q.
            usage j (Table.save (λ y. y.id) r (x ∷ xs)) + share j q ≡ usage j (x ∷ xs) + share j r)
          same (usage-save_head j x r xs k' d.0)
    | inr t ↦
        let found : Table.find (is_event rt rid eid) xs ≡ some e = rw t at f in
        let other : e.id ≢ x.id =
          Table.find-All (λ y. y.id ≢ x.id) (is_event rt rid eid) xs e found d.0 in
        ground (arith, eq_iff x.id r.id, usage-save rid eid j e r xs d.1 k found)
  ]
