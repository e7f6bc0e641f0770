-- ===== src/Gate/LightningAddress/Blocks.antt =====
-- src/gate/lightning-address-adapter.ts, isPublicIpv4: the filter against the blocks of addresses
-- that are not public.
use the402machine.Base.{
  ℕ, ◌+◌, ◌*◌, ◌≤◌, ◌<◌, Bool, true, false, not, ◌&&◌, ◌||◌, List, [], ◌∷◌, ltb, leb, ◌==◌, any,
  ◌≡◌, refl, arith,
}
use the402machine.Gate.LightningAddress.{is_public_ipv4}

-- An IPv4 address as a number.
abbrev pub address : (a b c d : ℕ) → ℕ
address a b c d = a * 16_777_216 + b * 65_536 + c * 256 + d

-- The first address of each block, and the first one after it: 0/8, 10/8, 127/8, 224/3, 169.254/16,
-- 172.16/12, 192.0/16, 192.168/16, 198.18/15 and 100.64/10.
abbrev pub reserved : List (ℕ × ℕ)
reserved =
    (0, 16_777_216)
    ∷ (167_772_160, 184_549_376)
    ∷ (2_130_706_432, 2_147_483_648)
    ∷ (3_758_096_384, 4_294_967_296)
    ∷ (2_851_995_648, 2_852_061_184)
    ∷ (2_886_729_728, 2_887_778_304)
    ∷ (3_221_225_472, 3_221_291_008)
    ∷ (3_232_235_520, 3_232_301_056)
    ∷ (3_323_068_416, 3_323_199_488)
    ∷ (1_681_915_904, 1_686_110_208)
    ∷ []

abbrev pub inside : ℕ → ℕ × ℕ → Bool
inside n block = leb block.0 n && ltb n block.1

not-or : (x y : Bool) → not (x || y) ≡ (not x && not y)
not-or true y = refl
not-or false y = refl

and_assoc : (x y z : Bool) → ((x && y) && z) ≡ (x && (y && z))
and_assoc true y z = refl
and_assoc false y z = refl

and-or : (x y z : Bool) → (x && (y || z)) ≡ ((x && y) || (x && z))
and-or true y z = refl
and-or false y z = refl

and_true : (x : Bool) → (x && true) ≡ x
and_true true = refl
and_true false = refl

point : (x k : ℕ) → (leb k x && ltb x (k + 1)) ≡ (x == k)
point x k = ground arith

two : (x k : ℕ) → (leb k x && ltb x (k + 2)) ≡ ((x == k) || (x == k + 1))
two x k = ground arith

up_to : (x k : ℕ) → ltb x (k + 1) ≡ leb x k
up_to x k = ground arith

module _ (a b c d : ℕ) (ha : a < 256) (hb : b < 256) (hc : c < 256) (hd : d < 256) where
  first-inside :
      (lo hi : ℕ)
      → (leb lo a && ltb a hi) ≡ inside (address a b c d) (lo * 16_777_216, hi * 16_777_216)
  first-inside lo hi = ground arith

  second-inside :
      (k lo hi : ℕ)
      → hi ≤ 256
      → ((a == k) && (leb lo b && ltb b hi))
        ≡ inside (address a b c d) (k * 16_777_216 + lo * 65_536, k * 16_777_216 + hi * 65_536)
  second-inside k lo hi h = ground arith

  below : (leb 224 a && ltb a 256) ≡ leb 224 a
  below = ground arith

  -- The filter lets exactly the IPv4 addresses pass that lie in none of the reserved blocks.
  pub is_public_ipv4_iff : is_public_ipv4 a b ≡ not (any (inside (address a b c d)) reserved)
  unfolding is_public_ipv4
  is_public_ipv4_iff =
      rw
        (
          ← first-inside 0 1,
          ← first-inside 10 11,
          ← first-inside 127 128,
          ← first-inside 224 256,
          ← second-inside 169 254 255 (omega arith),
          ← second-inside 172 16 32 (omega arith),
          ← second-inside 192 0 1 (omega arith),
          ← second-inside 192 168 169 (omega arith),
          ← second-inside 198 18 20 (omega arith),
          ← second-inside 100 64 128 (omega arith),
        )
        (rw
          (
            point a 0,
            point a 10,
            point a 127,
            below,
            point b 254,
            up_to b 31,
            point b 0,
            point b 168,
            two b 18,
            up_to b 127,
          )
          (simp (not-or, and_assoc, and-or, and_true)))
