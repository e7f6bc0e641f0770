-- ===== src/Base/Batch.antt =====
-- `select … where due order by expires_at limit n for update skip locked`, and the update of the
-- selected rows: what the three expiry sweeps share.
use the402machine.Base.Tests.{leb, if◌then◌else◌, Bool-cases}
use the402machine.Base.Lists.{length, take, filter, any, All, length-take}
use Prim.Native.Nat.{ℕ, zero, suc, ◌≤◌, ◌<◌, min, max}
use Prim.Native.String.{String}
use mathlib.Core.Path.{◌≡◌, refl}
use mathlib.Core.Logic.{inl, inr}
use mathlib.Core.Bool.{Bool, true, false, ◌||◌}
use mathlib.Core.List.{List, [], ◌∷◌, map}
use native.Mathlib.Omega.{arith}
use text.Mathlib.Text.{◌==◌ as str_eq}
use text.Mathlib.TextPositions.{eq_refl}

-- `Math.max(1, Math.min(1_000, requestedLimit))`
abbrev pub clamp_limit : ℕ → ℕ
clamp_limit requested = max 1 (min 1_000 requested)

abbrev pub mem : String → List String → Bool
mem k ks = any (λ j. str_eq j k) ks

module _ {ℓ} {A : Type ℓ} (rank : A → ℕ) where
  -- `order by rank`, by insertion.
  unfoldable pub insert : A → List A → List A
  insert x [] = x ∷ []
  insert x (y ∷ ys) = if leb (rank x) (rank y) then x ∷ y ∷ ys else y ∷ insert x ys

  unfoldable pub sort : List A → List A
  unfolding insert
  sort [] = []
  sort (x ∷ xs) = insert x (sort xs)

  any-insert : (p : A → Bool) (x : A) (ys : List A) → any p (insert x ys) ≡ p x || any p ys
  unfolding insert
  any-insert p x [] = refl
  any-insert p x (y ∷ ys) = ground (arith, any-insert p x ys)

  pub any-sort : (p : A → Bool) (xs : List A) → any p (sort xs) ≡ any p xs
  unfolding sort
  any-sort p [] = refl
  any-sort p (x ∷ xs) = rw (any-insert, any-sort p xs)

module _ {ℓ} {A : Type ℓ} where
  pub any-map :
      (key : A → String) (k : String) (xs : List A)
      → any (λ j. str_eq j k) (map key xs) ≡ any (λ x. str_eq (key x) k) xs
  any-map key k [] = refl
  any-map key k (x ∷ xs) = rw (any-map key k xs)

  take_short : (n : ℕ) (xs : List A) → length (take n xs) < n → take n xs ≡ xs
  take_short zero xs h = absurd (omega arith)
  take_short (suc n) [] h = refl
  take_short (suc n) (x ∷ xs) h = rw (take_short n xs (omega arith))

  -- The keys of the rows that one sweep takes.
  unfoldable pub due_keys : (A → String) → (A → ℕ) → (A → Bool) → ℕ → List A → List String
  unfolding sort
  due_keys key rank due limit rows = map key (take limit (sort rank (filter due rows)))

  -- `update … set … where key in keys`
  abbrev pub update_in : (A → String) → List String → (A → A) → List A → List A
  update_in key keys f [] = []
  update_in key keys f (x ∷ xs) = (if mem (key x) keys then f x else x) ∷ update_in key keys f xs

  length-map : (key : A → String) (xs : List A) → length (map key xs) ≡ length xs
  length-map key [] = refl
  length-map key (x ∷ xs) = omega (arith, length-map key xs)

  pub length-due_keys :
      (key : A → String) (rank : A → ℕ) (due : A → Bool) (limit : ℕ) (rows : List A)
      → length (due_keys key rank due limit rows) ≤ limit
  unfolding due_keys
  length-due_keys key rank due limit rows = omega (
    arith,
    length-map key (take limit (sort rank (filter due rows))),
    length-take limit (sort rank (filter due rows)),
  )

  all_taken :
      (key : A → String) (rank : A → ℕ) (due : A → Bool) (limit : ℕ) (rows : List A) (k : String)
      → length (due_keys key rank due limit rows) < limit
      → mem k (due_keys key rank due limit rows) ≡ any (λ x. str_eq (key x) k) (filter due rows)
  unfolding due_keys
  all_taken key rank due limit rows k h =
      let short : take limit (sort rank (filter due rows)) ≡ sort rank (filter due rows) =
        take_short limit _
          (omega (arith, length-map key (take limit (sort rank (filter due rows))))) in
      rw (any-map key k _, short) (any-sort rank (λ x. str_eq (key x) k) (filter due rows))

  pub update_in-All {κ} :
      (P : A → Type κ) (key : A → String) (keys : List String) (f : A → A) (rows : List A)
      → ((x : A) → P x → P (f x))
      → All P rows
      → All P (update_in key keys f rows)
  update_in-All P key keys f [] k h = tt
  update_in-All P key keys f (x ∷ xs) k h = elim (Bool-cases (mem (key x) keys)) [
    | inl t ↦ rw t (k x h.0, update_in-All P key keys f xs k h.1)
    | inr t ↦ rw t (h.0, update_in-All P key keys f xs k h.1)
  ]

  swept :
      (key : A → String) (due : A → Bool) (f : A → A) (keys : List String) (rows : List A)
      → ((x : A) → due (f x) ≡ false)
      → ((k : String) → any (λ x. str_eq (key x) k) (filter due rows) ≡ true → mem k keys ≡ true)
      → All (λ x. due x ≡ false) (update_in key keys f rows)
  swept key due f keys [] k h = tt
  swept key due f keys (x ∷ xs) k h = elim (Bool-cases (due x)) [
    | inl t ↦
        let hit : mem (key x) keys ≡ true = h (key x) (rw (t, eq_refl)) in
        rw hit (k x, swept key due f keys xs k (λ j e. h j (rw t (ground arith))))
    | inr t ↦ (
      elim (Bool-cases (mem (key x) keys)) [ inl u ↦ rw u (k x) | inr u ↦ rw u t ],
      swept key due f keys xs k (λ j e. h j (rw t e)),
    )
  ]

  -- A sweep that takes fewer rows than its limit leaves no due row.
  pub sweep_complete :
      (key : A → String) (rank : A → ℕ) (due : A → Bool) (f : A → A) (limit : ℕ) (rows : List A)
      → ((x : A) → due (f x) ≡ false)
      → length (due_keys key rank due limit rows) < limit
      → All (λ x. due x ≡ false) (update_in key (due_keys key rank due limit rows) f rows)
  sweep_complete key rank due f limit rows k h =
      swept key due f (due_keys key rank due limit rows) rows k
        (λ j e. rw (all_taken key rank due limit rows j h) e)
