-- ===== src/Http/RateLimit.antt =====
-- src/app.ts, consumeRateLimit: the request counters of one route. The `Map` is the list of its
-- entries in the order of their insertion, and the clock is in milliseconds.
pub mod Size
pub mod Quota
use the402machine.Base.{
  ℕ, ◌+◌, ◌-◌, ◌≤◌, ◌<◌, String, Bool, true, false, not, ◌&&◌, ◌||◌, Option, none, some, List, [],
  ◌∷◌, ◌++◌, ltb, leb, if◌then◌else◌, is_some, length, filter, drop, All, length-filter,
  length-append, Bool-cases, Option-cases, inl, inr, subst, sym, ◌∙◌, eq_iff, eq_refl, ◌≢◌, str_eq,
  ◌≡◌, refl, arith,
}
use the402machine.Base.Table

pub record RateLimitBucket : Type 0 where
  pub name : String
  pub count : ℕ
  pub resets_at : ℕ

abbrev pub max_rate_limit_buckets : ℕ
max_rate_limit_buckets = 10_000

-- `buckets.get(key)`
abbrev pub bucket_of : String → List RateLimitBucket → Option RateLimitBucket
bucket_of key buckets = Table.find (λ b. str_eq b.name key) buckets

-- `buckets.set(bucket.name, bucket)`: an entry that is there keeps its place.
abbrev pub set_bucket : RateLimitBucket → List RateLimitBucket → List RateLimitBucket
set_bucket bucket buckets =
    if is_some (bucket_of bucket.name buckets)
    then Table.save (λ b. b.name) bucket buckets
    else buckets ++ bucket ∷ []

-- The expired entries leave a full map, then the oldest one if it is still full.
unfoldable pub evict : ℕ → List RateLimitBucket → List RateLimitBucket
evict now buckets =
    let rest = filter (λ b. ltb now b.resets_at) buckets in
    if leb max_rate_limit_buckets (length rest) then drop 1 rest else rest

unfoldable pub make_room : ℕ → String → List RateLimitBucket → List RateLimitBucket
make_room now key buckets =
    if leb max_rate_limit_buckets (length buckets) && not (is_some (bucket_of key buckets))
    then evict now buckets
    else buckets

abbrev pub opened : ℕ → String → ℕ → RateLimitBucket
opened now key window_ms = record { name = key; count = 1; resets_at = now + window_ms }

unfoldable pub count_request :
    ℕ → String → ℕ → ℕ → List RateLimitBucket → Option RateLimitBucket → Bool × List RateLimitBucket
count_request now key limit window_ms buckets none =
    (true, set_bucket (opened now key window_ms) buckets)
count_request now key limit window_ms buckets (some current) =
    if leb current.resets_at now
    then (true, set_bucket (opened now key window_ms) buckets)
    else if leb limit current.count
    then (false, buckets)
    else (true, Table.save (λ b. b.name) (record current { count = current.count + 1 }) buckets)

unfoldable pub consume_rate_limit :
    ℕ → List RateLimitBucket → String → ℕ → ℕ → Bool × List RateLimitBucket
unfolding make_room count_request
consume_rate_limit now buckets key limit window_ms =
    let room = make_room now key buckets in
    count_request now key limit window_ms room (bucket_of key room)
