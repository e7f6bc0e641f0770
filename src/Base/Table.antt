-- ===== src/Base/Table.antt =====
-- A database table as a list of rows: `select … where`, and the write of a locked row, which its
-- primary key names.
use Prim.Native.String.{String}
use mathlib.Core.Path.{◌≡◌, refl}
use mathlib.Core.Logic.{◌≢◌, inl, inr}
use mathlib.Core.Bool.{Bool, true}
use mathlib.Core.Option.{Option, none, some}
use mathlib.Core.List.{List, [], ◌∷◌}
use native.Mathlib.Omega.{arith}
use text.Mathlib.Text.{◌==◌}
use text.Mathlib.TextEquality.{eq_iff}
use the402machine.Base.Tests.{if◌then◌else◌, Bool-cases}
use the402machine.Base.Lists.{All, length}

module _ {ℓ} {A : Type ℓ} where
  -- The first row that satisfies the condition.
  abbrev pub find : (A → Bool) → List A → Option A
  find p [] = none
  find p (x ∷ xs) = if p x then some x else find p xs

  -- `update … where key = row.key`
  abbrev pub save : (A → String) → A → List A → List A
  save key r [] = []
  save key r (x ∷ xs) = (if key x == key r then r else x) ∷ save key r xs

  -- `delete … where key = k`
  abbrev pub remove : (A → String) → String → List A → List A
  remove key k [] = []
  remove key k (x ∷ xs) = if key x == k then remove key k xs else x ∷ remove key k xs

  pub find-true : (p : A → Bool) (xs : List A) (r : A) → find p xs ≡ some r → p r ≡ true
  find-true p [] r e = cc
  find-true p (x ∷ xs) r e = elim (Bool-cases (p x)) [
    | inl t ↦ ground arith
    | inr f ↦ find-true p xs r (ground arith)
  ]

  pub find-All {κ} :
      (P : A → Type κ) (p : A → Bool) (xs : List A) (r : A) → find p xs ≡ some r → All P xs → P r
  find-All P p [] r e h = cc
  find-All P p (x ∷ xs) r e h = elim (Bool-cases (p x)) [
    | inl t ↦ let q : x ≡ r = ground arith in rw (← q) h.0
    | inr f ↦ find-All P p xs r (ground arith) h.1
  ]

  pub save-All {κ} :
      (P : A → Type κ) (key : A → String) (r : A) (xs : List A)
      → P r
      → All P xs
      → All P (save key r xs)
  save-All P key r [] p h = tt
  save-All P key r (x ∷ xs) p h = elim (Bool-cases (key x == key r)) [
    | inl t ↦ rw t (p, save-All P key r xs p h.1)
    | inr f ↦ rw f (h.0, save-All P key r xs p h.1)
  ]

  -- The same where the condition changes too: the rows with other keys keep it.
  pub save-All_other {κ μ} :
      (P : A → Type κ) (Q : A → Type μ) (key : A → String) (r : A) (xs : List A)
      → Q r
      → ((x : A) → key x ≢ key r → P x → Q x)
      → All P xs
      → All Q (save key r xs)
  save-All_other P Q key r [] q k h = tt
  save-All_other P Q key r (x ∷ xs) q k h = elim (Bool-cases (key x == key r)) [
    | inl t ↦ rw t (q, save-All_other P Q key r xs q k h.1)
    | inr f ↦
        let other : key x ≢ key r = ground (arith, eq_iff (key x) (key r)) in
        rw f (k x other h.0, save-All_other P Q key r xs q k h.1)
  ]

  pub length-save : (key : A → String) (r : A) (xs : List A) → length (save key r xs) ≡ length xs
  length-save key r [] = refl
  length-save key r (x ∷ xs) = rw (length-save key r xs)

module _ {ℓ} {A : Type ℓ} (key : A → String) where
  -- What a lookup by the key finds after a write of that key.
  pub find-save_self :
      (k : String) (old r : A) (xs : List A)
      → key r ≡ k
      → find (λ x. key x == k) xs ≡ some old
      → find (λ x. key x == k) (save key r xs) ≡ some r
  find-save_self k old r [] e f = cc
  find-save_self k old r (x ∷ xs) e f = ground (
    arith,
    eq_iff (key x) (key r),
    eq_iff (key x) k,
    eq_iff (key r) k,
    find-save_self k old r xs e,
  )

  pub find-save_ne :
      (k : String) (r : A) (xs : List A)
      → key r ≢ k
      → find (λ x. key x == k) (save key r xs) ≡ find (λ x. key x == k) xs
  find-save_ne k r [] h = refl
  find-save_ne k r (x ∷ xs) h =
      ground
        (arith, eq_iff (key x) (key r), eq_iff (key x) k, eq_iff (key r) k, find-save_ne k r xs h)
