-- ===== src/Base/Progress.antt =====
-- What one batch of a sweep takes off the number of due rows.
use Prim.Native.Nat.{ℕ, zero, suc, ◌+◌, ◌≤◌, ◌<◌}
use Prim.Native.String.{String}
use mathlib.Core.Path.{◌≡◌, refl}
use mathlib.Core.Logic.{inl, inr}
use mathlib.Core.Bool.{Bool, true, false, ◌&&◌}
use mathlib.Core.List.{List, [], ◌∷◌, map}
use native.Mathlib.Omega.{arith}
use text.Mathlib.TextPositions.{eq_refl}
use the402machine.Base.Tests.{if◌then◌else◌, Bool-cases}
use the402machine.Base.Lists.{length, take, filter, sum, All}
use the402machine.Base.Batch.{mem, insert, sort, due_keys, update_in, clamp_limit, sweep_complete}

module _ {ℓ} {A : Type ℓ} where
  -- How many rows satisfy the condition.
  abbrev pub count : (A → Bool) → List A → ℕ
  count p rows = sum (λ x. if p x then 1 else 0) rows

  count-insert :
      (rank : A → ℕ) (p : A → Bool) (x : A) (ys : List A)
      → count p (insert rank x ys) ≡ (if p x then 1 else 0) + count p ys
  unfolding insert
  count-insert rank p x [] = omega arith
  count-insert rank p x (y ∷ ys) = ground (arith, count-insert rank p x ys)

  count-sort : (rank : A → ℕ) (p : A → Bool) (xs : List A) → count p (sort rank xs) ≡ count p xs
  unfolding sort
  count-sort rank p [] = refl
  count-sort rank p (x ∷ xs) =
      omega (arith, count-insert rank p x (sort rank xs), count-sort rank p xs)

  count-filter : (p q : A → Bool) (xs : List A) → count p (filter q xs) ≡ count (λ x. q x && p x) xs
  count-filter p q [] = refl
  count-filter p q (x ∷ xs) = ground (arith, count-filter p q xs)

  -- The first `n` rows are among the rows that their keys name.
  taken-count :
      (key : A → String) (ks : List String) (n : ℕ) (xs : List A)
      → ((k : String) → mem k (map key (take n xs)) ≡ true → mem k ks ≡ true)
      → length (map key (take n xs)) ≤ count (λ x. mem (key x) ks) xs
  taken-count key ks zero xs h = omega arith
  taken-count key ks (suc n) [] h = omega arith
  taken-count key ks (suc n) (x ∷ xs) h =
      let hit : mem (key x) ks ≡ true = h (key x) (rw eq_refl refl) in
      rw hit (omega (arith, taken-count key ks n xs (λ k e. h k (rw e (ground arith)))))

  count-update_in :
      (key : A → String) (due : A → Bool) (f : A → A) (keys : List String) (rows : List A)
      → ((x : A) → due (f x) ≡ false)
      → count due (update_in key keys f rows) + count (λ x. due x && mem (key x) keys) rows
        ≡ count due rows
  count-update_in key due f keys [] k = omega arith
  count-update_in key due f keys (x ∷ xs) k = elim (Bool-cases (mem (key x) keys)) [
    | inl t ↦ rw (t, k x) (ground (arith, count-update_in key due f keys xs k))
    | inr t ↦ rw t (ground (arith, count-update_in key due f keys xs k))
  ]

  -- Each row that a batch takes is one due row less.
  pub sweep_progress :
      (key : A → String) (rank : A → ℕ) (due : A → Bool) (f : A → A) (limit : ℕ) (rows : List A)
      → ((x : A) → due (f x) ≡ false)
      → count due (update_in key (due_keys key rank due limit rows) f rows)
          + length (due_keys key rank due limit rows)
        ≤ count due rows
  unfolding due_keys
  sweep_progress key rank due f limit rows k =
      let ks = map key (take limit (sort rank (filter due rows))) in
      let here = taken-count key ks limit (sort rank (filter due rows)) (λ j e. e) in
      let sorted = count-sort rank (λ x. mem (key x) ks) (filter due rows) in
      let kept = count-filter (λ x. mem (key x) ks) due rows in
      omega (arith, here, sorted, kept, count-update_in key due f ks rows k)

  none_due : (due : A → Bool) (rows : List A) → All (λ x. due x ≡ false) rows → count due rows ≡ 0
  none_due due [] h = refl
  none_due due (x ∷ xs) h = rw h.0 (omega (arith, none_due due xs h.1))

  -- What one batch of a repository does to the number of due rows: the rows it reports are gone,
  -- and so are all when it reports fewer than its limit.
  pub sweep_batch :
      (key : A → String) (rank : A → ℕ) (due : A → Bool) (f : A → A) (limit : ℕ) (rows : List A)
      → ((x : A) → due (f x) ≡ false)
      → let ids = due_keys key rank due limit rows in
        (count due (update_in key ids f rows) + length ids ≤ count due rows)
        × (length ids < limit → count due (update_in key ids f rows) ≡ 0)
  sweep_batch key rank due f limit rows k = (
    sweep_progress key rank due f limit rows k,
    λ l. none_due due _ (sweep_complete key rank due f limit rows k l),
  )

-- The same for the repositories that clamp the limit that they are asked for.
pub sweep_clamped {ℓ} :
    {A : Type ℓ} (key : A → String) (rank : A → ℕ) (due : A → Bool) (f : A → A) (limit : ℕ)
    (rows : List A)
    → ((x : A) → due (f x) ≡ false)
    → 1 ≤ limit
    → limit ≤ 1_000
    → let ids = due_keys key rank due (clamp_limit limit) rows in
      (count due (update_in key ids f rows) + length ids ≤ count due rows)
      × (length ids < limit → count due (update_in key ids f rows) ≡ 0)
sweep_clamped key rank due f limit rows k lo hi =
    let b = sweep_batch key rank due f (clamp_limit limit) rows k in (b.0, λ l. b.1 (omega arith))
