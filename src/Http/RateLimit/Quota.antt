-- ===== src/Http/RateLimit/Quota.antt =====
-- src/app.ts, consumeRateLimit: how many requests of a key pass in one window.
use the402machine.Base.{
  ℕ, ◌+◌, ◌≤◌, ◌<◌, String, Bool, false, ◌&&◌, Option, none, some, List, [], ◌∷◌, ◌++◌, leb,
  if◌then◌else◌, length, All, length-append, Bool-cases, Option-cases, inl, inr, subst, sym, ◌∙◌,
  eq_iff, eq_refl, ◌≢◌, str_eq, ◌≡◌, refl, arith,
}
use the402machine.Base.Table
use the402machine.Base.Table.{length-save, find-true, find-save_self, find-save_ne}
use the402machine.Http.RateLimit.{
  RateLimitBucket, max_rate_limit_buckets, bucket_of, set_bucket, make_room, opened, count_request,
  consume_rate_limit,
}

-- How many of the requests of `key` a history lets pass: each request has its time and its key.
unfoldable pub passed : String → ℕ → ℕ → List (ℕ × String) → List RateLimitBucket → ℕ
passed key limit window_ms [] buckets = 0
passed key limit window_ms ((now, k) ∷ rest) buckets =
    let next = consume_rate_limit now buckets k limit window_ms in
    (if str_eq k key && next.0 then 1 else 0) + passed key limit window_ms rest next.1

module _ {ℓ} {A : Type ℓ} where
  find-append :
      (p : A → Bool) (r : A) (xs : List A)
      → p r ≡ false
      → Table.find p (xs ++ r ∷ []) ≡ Table.find p xs
  find-append p r [] e = rw e
  find-append p r (x ∷ xs) e = ground (arith, find-append p r xs e)

-- What a request of `k` leaves of the bucket of `key`, which is `b` before it.
abbrev Keeps : String → ℕ → RateLimitBucket → String → Bool × List RateLimitBucket → Type 0
Keeps key limit b k next =
    (bucket : RateLimitBucket) × (bucket_of key next.1 ≡ some bucket)
    × (bucket.resets_at ≡ b.resets_at)
    × (bucket.count ≡ b.count + (if str_eq k key && next.0 then 1 else 0))
    × (bucket.count ≤ limit)

count_request-own :
    (now : ℕ) (key : String) (limit window_ms : ℕ) (buckets : List RateLimitBucket)
    (b : RateLimitBucket)
    → bucket_of key buckets ≡ some b
    → now < b.resets_at
    → b.count ≤ limit
    → Keeps key limit b key (count_request now key limit window_ms buckets (some b))
unfolding count_request
count_request-own now key limit window_ms buckets b e live h =
    elim (Bool-cases (leb limit b.count)) [
      | inl t ↦ rw (not_leb live, t) (b, e, refl, ground arith, h)
      | inr t ↦
          rw (not_leb live, t)
            (
              record b { count = b.count + 1 },
              find-save_self (λ x. x.name) key b (record b { count = b.count + 1 }) buckets
                  (found_name e) e,
              refl,
              rw eq_refl refl,
              ground arith,
            )
    ]
  where
    not_leb : now < b.resets_at → leb b.resets_at now ≡ false
    not_leb l = ground arith

    found_name : bucket_of key buckets ≡ some b → b.name ≡ key
    found_name f = (eq_iff b.name key).0 (find-true (λ x. str_eq x.name key) buckets b f)

find-set_bucket :
    (key : String) (r : RateLimitBucket) (buckets : List RateLimitBucket)
    → r.name ≢ key
    → bucket_of key (set_bucket r buckets) ≡ bucket_of key buckets
find-set_bucket key r buckets n = elim (Option-cases (bucket_of r.name buckets)) [
  | inl e ↦
      rw e (find-append (λ x. str_eq x.name key) r buckets (ground (arith, eq_iff r.name key)))
  | inr (old, e) ↦ rw e (find-save_ne (λ x. x.name) key r buckets n)
]

count_request-other :
    (now : ℕ) (key k : String) (limit window_ms : ℕ) (buckets : List RateLimitBucket)
    (o : Option RateLimitBucket)
    → bucket_of k buckets ≡ o
    → k ≢ key
    → bucket_of key (count_request now k limit window_ms buckets o).1 ≡ bucket_of key buckets
unfolding count_request
count_request-other now key k limit window_ms buckets none e n =
    find-set_bucket key (opened now k window_ms) buckets n
count_request-other now key k limit window_ms buckets (some c) e n =
    let named : c.name ≡ k = (eq_iff c.name k).0 (find-true (λ x. str_eq x.name k) buckets c e) in
    elim (Bool-cases (leb c.resets_at now)) [
      | inl t ↦ rw t (find-set_bucket key (opened now k window_ms) buckets n)
      | inr t ↦ elim (Bool-cases (leb limit c.count)) [
        | inl u ↦ rw (t, u) refl
        | inr u ↦
            rw (t, u)
              (find-save_ne (λ x. x.name) key (record c { count = c.count + 1 }) buckets
                (λ q. n (sym named ∙ q)))
      ]
    ]

length-set_one :
    (r : RateLimitBucket) (buckets : List RateLimitBucket)
    → length (set_bucket r buckets) ≤ length buckets + 1
length-set_one r buckets = elim (Option-cases (bucket_of r.name buckets)) [
  | inl e ↦ rw e (omega (arith, length-append buckets (r ∷ [])))
  | inr (old, e) ↦ rw e (
      subst (λ n. n ≤ length buckets + 1) (sym (length-save (λ x. x.name) r buckets)) (omega arith))
]

length-count_one :
    (now : ℕ) (k : String) (limit window_ms : ℕ) (buckets : List RateLimitBucket)
    (o : Option RateLimitBucket)
    → length (count_request now k limit window_ms buckets o).1 ≤ length buckets + 1
unfolding count_request
length-count_one now k limit window_ms buckets none =
    length-set_one (opened now k window_ms) buckets
length-count_one now k limit window_ms buckets (some c) = elim (Bool-cases (leb c.resets_at now)) [
  | inl t ↦ rw t (length-set_one (opened now k window_ms) buckets)
  | inr t ↦ elim (Bool-cases (leb limit c.count)) [
    | inl u ↦ rw (t, u) (omega arith)
    | inr u ↦
        rw (t, u)
          (subst (λ n. n ≤ length buckets + 1)
            (sym (length-save (λ x. x.name) (record c { count = c.count + 1 }) buckets))
            (omega arith))
  ]
]

-- While the map has room, every request keeps the bucket's window and counts itself.
request-Keeps :
    (now : ℕ) (key k : String) (limit window_ms : ℕ) (buckets : List RateLimitBucket)
    (b : RateLimitBucket)
    → length buckets < max_rate_limit_buckets
    → bucket_of key buckets ≡ some b
    → now < b.resets_at
    → b.count ≤ limit
    → Keeps key limit b k (consume_rate_limit now buckets k limit window_ms)
unfolding consume_rate_limit make_room
request-Keeps now key k limit window_ms buckets b room e live h =
    let roomy : leb max_rate_limit_buckets (length buckets) ≡ false = ground arith in
    elim (Bool-cases (str_eq k key)) [
      | inl t ↦
          let same : k ≡ key = (eq_iff k key).0 t in
          subst (λ j. Keeps key limit b j (consume_rate_limit now buckets j limit window_ms))
            (sym same)
            (rw (roomy, e) (count_request-own now key limit window_ms buckets b e live h))
      | inr t ↦ rw roomy (
        b,
        count_request-other now key k limit window_ms buckets (bucket_of k buckets) refl
              (λ q. ground (arith, eq_iff k key))
            ∙ e,
        refl,
        rw t (omega arith),
        h,
      )
    ]

length-request :
    (now : ℕ) (k : String) (limit window_ms : ℕ) (buckets : List RateLimitBucket)
    → length buckets < max_rate_limit_buckets
    → length (consume_rate_limit now buckets k limit window_ms).1 ≤ length buckets + 1
unfolding consume_rate_limit make_room
length-request now k limit window_ms buckets room =
    let roomy : leb max_rate_limit_buckets (length buckets) ≡ false = ground arith in
    rw roomy (length-count_one now k limit window_ms buckets (bucket_of k buckets))

-- In the window of a bucket at most its limit of the requests of its key pass, with those that it
-- has counted before, whatever the requests of other keys between them. The condition is that the
-- history cannot fill the map, since a full map may drop the bucket before its window ends.
pub passed-limited :
    (key : String) (limit window_ms : ℕ) (history : List (ℕ × String))
    (buckets : List RateLimitBucket) (b : RateLimitBucket)
    → bucket_of key buckets ≡ some b
    → b.count ≤ limit
    → All (λ request. request.0 < b.resets_at) history
    → length buckets + length history ≤ max_rate_limit_buckets
    → passed key limit window_ms history buckets + b.count ≤ limit
unfolding passed
passed-limited key limit window_ms [] buckets b e h live room = omega arith
passed-limited key limit window_ms ((now, k) ∷ rest) buckets b e h live room =
    let step = request-Keeps now key k limit window_ms buckets b (omega arith) e live.0 h in
    let next = (consume_rate_limit now buckets k limit window_ms).1 in
    let more =
      passed-limited key limit window_ms rest next step.0 step.1 step.4
        (subst (λ n. All (λ request. request.0 < n) rest) (sym step.2) live.1)
        (omega (arith, length-request now k limit window_ms buckets (omega arith))) in
    omega (arith, more, step.3)
