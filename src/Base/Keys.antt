-- ===== src/Base/Keys.antt =====
-- Tables with a primary key: no two rows share it, so a write by the key changes one row.
use Prim.Native.Nat.{ℕ, ◌+◌, ◌≤◌}
use Prim.Native.String.{String}
use mathlib.Core.Path.{◌≡◌, refl, sym, subst, ◌∙◌}
use mathlib.Core.Logic.{◌≢◌, inl, inr}
use mathlib.Core.Bool.{Bool}
use mathlib.Core.Option.{some}
use mathlib.Core.List.{List, [], ◌∷◌, ◌++◌}
use native.Mathlib.Omega.{arith}
use text.Mathlib.Text.{◌==◌}
use text.Mathlib.TextEquality.{eq_iff}
use the402machine.Base.Tests.{Bool-cases}
use the402machine.Base.Lists.{All, sum}
use the402machine.Base.Table.{find, save, find-All}
use the402machine.Base.Batch.{mem, update_in}

module _ {ℓ} {A : Type ℓ} (key : A → String) where
  abbrev pub Distinct : List A → Type 0
  Distinct [] = Unit
  Distinct (x ∷ xs) = All (λ y. key y ≢ key x) xs × Distinct xs

  -- `k` is the key of no row.
  abbrev pub IsNew : String → List A → Type 0
  IsNew k = All (λ y. key y ≢ k)

  save_new : (k : String) (r : A) (xs : List A) → key r ≡ k → IsNew k xs → save key r xs ≡ xs
  save_new k r [] e h = refl
  save_new k r (x ∷ xs) e h = ground (arith, eq_iff (key x) (key r), save_new k r xs e h.1)

  save-IsNew : (k : String) (r : A) (xs : List A) → IsNew k xs → IsNew k (save key r xs)
  save-IsNew k r [] h = tt
  save-IsNew k r (x ∷ xs) h = elim (Bool-cases (key x == key r)) [
    | inl t ↦ rw t (subst (λ j. j ≢ k) ((eq_iff (key x) (key r)).0 t) h.0, save-IsNew k r xs h.1)
    | inr t ↦ rw t (h.0, save-IsNew k r xs h.1)
  ]

  pub save-Distinct : (r : A) (xs : List A) → Distinct xs → Distinct (save key r xs)
  save-Distinct r [] d = tt
  save-Distinct r (x ∷ xs) d = elim (Bool-cases (key x == key r)) [
    | inl t ↦ rw t (
      save-IsNew (key r) r xs (subst (λ j. IsNew j xs) ((eq_iff (key x) (key r)).0 t) d.0),
      save-Distinct r xs d.1,
    )
    | inr t ↦ rw t (save-IsNew (key x) r xs d.0, save-Distinct r xs d.1)
  ]

  append-IsNew :
      (k : String) (r : A) (xs : List A) → key r ≢ k → IsNew k xs → IsNew k (xs ++ r ∷ [])
  append-IsNew k r [] n h = (n, tt)
  append-IsNew k r (x ∷ xs) n h = (h.0, append-IsNew k r xs n h.1)

  pub append-Distinct :
      (r : A) (xs : List A) → IsNew (key r) xs → Distinct xs → Distinct (xs ++ r ∷ [])
  append-Distinct r [] n d = (tt, tt)
  append-Distinct r (x ∷ xs) n d =
      (append-IsNew (key x) r xs (λ e. n.0 (sym e)) d.0, append-Distinct r xs n.1 d.1)

  module _ (f : A → A) (keeps : (x : A) → key (f x) ≡ key x) where
    update_in-IsNew :
        (k : String) (keys : List String) (xs : List A)
        → IsNew k xs
        → IsNew k (update_in key keys f xs)
    update_in-IsNew k keys [] h = tt
    update_in-IsNew k keys (x ∷ xs) h = elim (Bool-cases (mem (key x) keys)) [
      | inl t ↦ rw t (λ e. h.0 (sym (keeps x) ∙ e), update_in-IsNew k keys xs h.1)
      | inr t ↦ rw t (h.0, update_in-IsNew k keys xs h.1)
    ]

    pub update_in-Distinct :
        (keys : List String) (xs : List A) → Distinct xs → Distinct (update_in key keys f xs)
    update_in-Distinct keys [] d = tt
    update_in-Distinct keys (x ∷ xs) d = elim (Bool-cases (mem (key x) keys)) [
      | inl t ↦ rw t (
        update_in-IsNew (key (f x)) keys xs (subst (λ j. IsNew j xs) (sym (keeps x)) d.0),
        update_in-Distinct keys xs d.1,
      )
      | inr t ↦ rw t (update_in-IsNew (key x) keys xs d.0, update_in-Distinct keys xs d.1)
    ]

  module _ (f : A → ℕ) where
    sum-save_head :
        (x r : A) (xs : List A)
        → key r ≡ key x
        → IsNew (key x) xs
        → sum f (save key r (x ∷ xs)) + f x ≡ sum f (x ∷ xs) + f r
    sum-save_head x r xs k h =
        rw ((eq_iff (key x) (key r)).1 (sym k), save_new (key x) r xs k h) (omega arith)

    -- A write moves a total by what the written row's part of it changes.
    pub sum-save :
        (p : A → Bool) (old r : A) (xs : List A)
        → Distinct xs
        → key r ≡ key old
        → find p xs ≡ some old
        → sum f (save key r xs) + f old ≡ sum f xs + f r
    sum-save p old r [] d k e = cc
    sum-save p old r (x ∷ xs) d k e = elim (Bool-cases (p x)) [
      | inl t ↦
          let same : x ≡ old = ground arith in
          subst (λ q. sum f (save key r (x ∷ xs)) + f q ≡ sum f (x ∷ xs) + f r) same
            (sum-save_head x r xs (subst (λ q. key r ≡ key q) (sym same) k) d.0)
      | inr t ↦
          let found : find p xs ≡ some old = rw t at e in
          let other : key old ≢ key x = find-All (λ y. key y ≢ key x) p xs old found d.0 in
          ground (arith, eq_iff (key x) (key r), sum-save p old r xs d.1 k found)
    ]

    pub sum-update_in :
        (keys : List String) (g : A → A) (xs : List A)
        → ((x : A) → f (g x) ≤ f x)
        → sum f (update_in key keys g xs) ≤ sum f xs
    sum-update_in keys g [] h = omega arith
    sum-update_in keys g (x ∷ xs) h = ground (arith, h x, sum-update_in keys g xs h)
