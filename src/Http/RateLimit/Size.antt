-- ===== src/Http/RateLimit/Size.antt =====
-- src/app.ts, consumeRateLimit: the size of the map of counters.
use the402machine.Base.{
  ℕ, ◌+◌, ◌-◌, ◌≤◌, ◌<◌, String, Option, none, some, List, [], ◌∷◌, ltb, leb, length, filter, drop,
  length-filter, length-append, Bool-cases, Option-cases, inl, inr, subst, sym, ◌≡◌, arith,
}
use the402machine.Base.Table.{length-save}
use the402machine.Http.RateLimit.{
  RateLimitBucket, max_rate_limit_buckets, bucket_of, set_bucket, evict, make_room, opened,
  count_request, consume_rate_limit,
}

module _ {ℓ} {A : Type ℓ} where
  length-drop_one : (xs : List A) → length (drop 1 xs) ≡ length xs - 1
  length-drop_one [] = omega arith
  length-drop_one (x ∷ xs) = omega arith

length-evict :
    (now : ℕ) (buckets : List RateLimitBucket)
    → length buckets ≤ max_rate_limit_buckets
    → length (evict now buckets) < max_rate_limit_buckets
unfolding evict
length-evict now buckets h = ground (
  arith,
  length-filter (λ b. ltb now b.resets_at) buckets,
  length-drop_one (filter (λ b. ltb now b.resets_at) buckets),
)

length-set_bucket :
    (b : RateLimitBucket) (buckets : List RateLimitBucket)
    → length buckets ≤ max_rate_limit_buckets
    → (bucket_of b.name buckets ≡ none → length buckets < max_rate_limit_buckets)
    → length (set_bucket b buckets) ≤ max_rate_limit_buckets
length-set_bucket b buckets h room = elim (Option-cases (bucket_of b.name buckets)) [
  | inl e ↦ rw e (omega (arith, room e, length-append buckets (b ∷ [])))
  | inr (old, e) ↦
      rw e (subst (λ n. n ≤ max_rate_limit_buckets) (sym (length-save (λ x. x.name) b buckets)) h)
]

length-make_room :
    (now : ℕ) (key : String) (buckets : List RateLimitBucket)
    → length buckets ≤ max_rate_limit_buckets
    → (length (make_room now key buckets) ≤ max_rate_limit_buckets)
      × (bucket_of key (make_room now key buckets) ≡ none
          → length (make_room now key buckets) < max_rate_limit_buckets)
unfolding make_room
length-make_room now key buckets h = elim (Option-cases (bucket_of key buckets)) [
  | inl e ↦ ground (arith, length-evict now buckets h)
  | inr (old, e) ↦ ground arith
]

length-count_request :
    (now : ℕ) (key : String) (limit window_ms : ℕ) (room : List RateLimitBucket)
    (o : Option RateLimitBucket)
    → length room ≤ max_rate_limit_buckets
    → (bucket_of key room ≡ none → length room < max_rate_limit_buckets)
    → length (count_request now key limit window_ms room o).1 ≤ max_rate_limit_buckets
unfolding count_request
length-count_request now key limit window_ms room none h g =
    length-set_bucket (opened now key window_ms) room h g
length-count_request now key limit window_ms room (some b) h g =
    elim (Bool-cases (leb b.resets_at now)) [
      | inl t ↦ rw t (length-set_bucket (opened now key window_ms) room h g)
      | inr t ↦ elim (Bool-cases (leb limit b.count)) [
        | inl u ↦ rw (t, u) h
        | inr u ↦
            rw (t, u)
              (subst (λ n. n ≤ max_rate_limit_buckets)
                (sym (length-save (λ x. x.name) (record b { count = b.count + 1 }) room)) h)
      ]
    ]

-- The counters of a route never exceed 10,000 entries, whatever the request, the clock, the limit
-- and the window.
pub consume_rate_limit-bounded :
    (now : ℕ) (buckets : List RateLimitBucket) (key : String) (limit window_ms : ℕ)
    → length buckets ≤ max_rate_limit_buckets
    → length (consume_rate_limit now buckets key limit window_ms).1 ≤ max_rate_limit_buckets
unfolding consume_rate_limit
consume_rate_limit-bounded now buckets key limit window_ms h =
    let room = length-make_room now key buckets h in
    length-count_request now key limit window_ms (make_room now key buckets) _ room.0 room.1
