-- ===== src/Base/Tests.antt =====
-- Boolean tests on the native numbers, the conditional, options and results.
use Prim.Native.Nat.{ℕ, compare, Ordering}
use mathlib.Core.Path.{◌≡◌, refl}
use mathlib.Core.Logic.{◌⊎◌, inl, inr}
use mathlib.Core.Bool.{Bool, true, false}
use mathlib.Core.Option.{Option, none, some}

abbrev pub ltb : ℕ → ℕ → Bool
ltb a b = elim (compare a b) [ Ordering.lt ↦ true | _ ↦ false ]

abbrev pub leb : ℕ → ℕ → Bool
leb a b = elim (compare a b) [ Ordering.gt ↦ false | _ ↦ true ]

infix 50 ◌==◌
abbrev pub ◌==◌ : ℕ → ℕ → Bool
a == b = elim (compare a b) [ Ordering.eq ↦ true | _ ↦ false ]

infix 1 if◌then◌else◌
abbrev pub if◌then◌else◌ {ℓ} : {A : Type ℓ} → Bool → A → A → A
if true then x else y = x
if false then x else y = y

pub Bool-cases : (b : Bool) → (b ≡ true) ⊎ (b ≡ false)
Bool-cases true = inl refl
Bool-cases false = inr refl

module _ {ℓ} {A : Type ℓ} where
  pub Option-cases : (o : Option A) → (o ≡ none) ⊎ ((a : A) × (o ≡ some a))
  Option-cases none = inl refl
  Option-cases (some a) = inr (a, refl)

  abbrev pub is_none : Option A → Bool
  is_none none = true
  is_none (some _) = false

  abbrev pub is_some : Option A → Bool
  is_some none = false
  is_some (some _) = true

  -- `a ?? b`
  abbrev pub get_or : Option A → A → A
  get_or none d = d
  get_or (some a) d = a

-- What a call returns, or the error that it throws. A transaction that throws is rolled back.
pub data Result {ℓ κ} (E : Type ℓ) (A : Type κ) : Type (ℓ ⊔ κ) where
  ok : A → Result E A
  err : E → Result E A

module _ {ℓ κ μ} {E : Type ℓ} {A : Type κ} {B : Type μ} where
  infixl 5 ◌>>=◌
  -- `const a = await m; …`
  abbrev pub ◌>>=◌ : Result E A → (A → Result E B) → Result E B
  err thrown >>= next = err thrown
  ok value >>= next = next value

infixl 5 ◌>>◌
-- `await m; …`, where nothing is kept of `m`.
abbrev pub ◌>>◌ {ℓ μ} :
    {E : Type ℓ} {B : Type μ} (m : Result E (Unit {0})) → Result E B → Result E B
first >> next = first >>= λ _. next

-- `if (test) throw e`
abbrev pub throw_if {ℓ} : {E : Type ℓ} → Bool → E → Result E (Unit {0})
throw_if false e = ok tt
throw_if true e = err e

abbrev pub or_throw {ℓ κ} : {E : Type ℓ} {A : Type κ} → Option A → E → Result E A
or_throw none e = err e
or_throw (some a) e = ok a

pub Result-cases {ℓ κ} :
    {E : Type ℓ} {A : Type κ} (r : Result E A) → ((a : A) × (r ≡ ok a)) ⊎ ((e : E) × (r ≡ err e))
Result-cases (ok a) = inl (a, refl)
Result-cases (err e) = inr (e, refl)

-- The state after a call: a transaction that throws is rolled back.
abbrev pub after {ℓ κ μ} : {E : Type ℓ} {A : Type κ} {S : Type μ} → S → Result E (A × S) → S
after s (ok r) = r.1
after s (err e) = s

-- `P` holds of the state that a call leaves, unless the call throws.
abbrev pub Leaves {ℓ κ μ ν} :
    {E : Type ℓ} {A : Type κ} {S : Type μ} → (S → Type ν) → Result E (A × S) → Type ν
Leaves P (ok r) = P r.1
Leaves P (err e) = Unit

pub Leaves-after {ℓ κ μ ν} :
    {E : Type ℓ} {A : Type κ} {S : Type μ} (P : S → Type ν) (s : S) (m : Result E (A × S))
    → P s
    → Leaves P m
    → P (after s m)
Leaves-after P s (ok r) p h = h
Leaves-after P s (err e) p h = p
