-- ===== src/Base/Due.antt =====
-- Which rows an expiry sweep changes: only due ones, where no two rows share a key.
use Prim.Native.Nat.{ℕ, zero, suc}
use Prim.Native.String.{String}
use mathlib.Core.Path.{◌≡◌, refl, sym, ◌∙◌}
use mathlib.Core.Logic.{inl, inr}
use mathlib.Core.Bool.{Bool, true, false}
use mathlib.Core.List.{List, [], ◌∷◌}
use native.Mathlib.Omega.{arith}
use text.Mathlib.Text.{◌==◌ as str_eq}
use text.Mathlib.TextEquality.{eq_iff}
use the402machine.Base.Tests.{Bool-cases}
use the402machine.Base.Lists.{All, any, take, filter}
use the402machine.Base.Batch.{mem, sort, due_keys, update_in, any-map, any-sort}
use the402machine.Base.Keys.{Distinct, IsNew}

module _ {ℓ} {A : Type ℓ} where
  any-take : (p : A → Bool) (n : ℕ) (xs : List A) → any p (take n xs) ≡ true → any p xs ≡ true
  any-take p zero xs h = cc
  any-take p (suc n) [] h = cc
  any-take p (suc n) (x ∷ xs) h = ground (arith, any-take p n xs)

  All-zip {κ μ ν} :
      {P : A → Type κ} {Q : A → Type μ} {R : A → Type ν} (xs : List A)
      → ((x : A) → P x → Q x → R x)
      → All P xs
      → All Q xs
      → All R xs
  All-zip [] f p q = tt
  All-zip (x ∷ xs) f p q = (f x p.0 q.0, All-zip xs f p.1 q.1)

module _ {ℓ} {A : Type ℓ} (key : A → String) (due : A → Bool) where
  -- The key is that of a due row.
  abbrev among : List A → String → Bool
  among rows k = any (λ x. str_eq (key x) k) (filter due rows)

  due_keys-among :
      (rank : A → ℕ) (limit : ℕ) (rows : List A) (k : String)
      → mem k (due_keys key rank due limit rows) ≡ true
      → among rows k ≡ true
  unfolding due_keys
  due_keys-among rank limit rows k h =
      let held : any same (take limit (sort rank (filter due rows))) ≡ true =
        sym (any-map key k (take limit (sort rank (filter due rows)))) ∙ h in
      sym (any-sort rank same (filter due rows))
      ∙ any-take same limit (sort rank (filter due rows)) held
    where
      same : A → Bool
      same x = str_eq (key x) k

  new-among : (k : String) (rows : List A) → IsNew key k rows → among rows k ≡ false
  new-among k [] n = refl
  new-among k (x ∷ xs) n = ground (arith, eq_iff (key x) k, new-among k xs n.1)

  -- With distinct keys, a row whose key is that of a due row is that row.
  among-due :
      (rows : List A) → Distinct key rows → All (λ x. among rows (key x) ≡ true → due x ≡ true) rows
  among-due [] d = tt
  among-due (x ∷ xs) d = (
    λ h. ground (arith, new-among (key x) xs d.0),
    All-zip xs (λ y n h e. h (ground (arith, eq_iff (key x) (key y)))) d.0 (among-due xs d.1),
  )

  changed-All {κ} :
      (P : A → Type κ) (f : A → A) (keys : List String) (rows : List A)
      → ((x : A) → due x ≡ true → P x → P (f x))
      → All (λ x. mem (key x) keys ≡ true → due x ≡ true) rows
      → All P rows
      → All P (update_in key keys f rows)
  changed-All P f keys [] k d h = tt
  changed-All P f keys (x ∷ xs) k d h = elim (Bool-cases (mem (key x) keys)) [
    | inl t ↦ rw t (k x (d.0 t) h.0, changed-All P f keys xs k d.1 h.1)
    | inr t ↦ rw t (h.0, changed-All P f keys xs k d.1 h.1)
  ]

  -- A sweep keeps what its update keeps of a due row.
  pub sweep-All {κ} :
      (P : A → Type κ) (f : A → A) (rank : A → ℕ) (limit : ℕ) (rows : List A)
      → ((x : A) → due x ≡ true → P x → P (f x))
      → Distinct key rows
      → All P rows
      → All P (update_in key (due_keys key rank due limit rows) f rows)
  sweep-All P f rank limit rows k d h =
      changed-All P f (due_keys key rank due limit rows) rows k
        (All-zip rows (λ x u n m. n (due_keys-among rank limit rows (key x) m)) h
          (among-due rows d))
        h
