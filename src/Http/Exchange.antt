-- ===== src/Http/Exchange.antt =====
-- src/app.ts: the requests and the replies of the routes, and the tests that they share. The
-- platform's texts are parameters: `lower` is `toLowerCase` and `trim` is `trim`.
use the402machine.Base.{
  ℕ, String, Bool, true, false, ◌&&◌, Option, none, some, List, if◌then◌else◌, ◌==◌, codes, length,
  str_eq, Result, ok, err, inl, inr, Bool-cases, ◌⊎◌, ◌≡◌, refl,
}
use Prim.Native.String.{len, slice, find}
use text.Mathlib.Text.{starts_with}
use the402machine.Tokens.{TokenError, timing_safe_equal}
use the402machine.Http.RateLimit.{RateLimitBucket, consume_rate_limit}

pub record Request : Type 0 where
  pub ip : String
  pub method : String
  pub authorization : Option String
  pub content_type : Option String
  pub content_encoding : Option String
  pub headers : List (String × String)
  pub body : Option (List ℕ)

-- An answer with a body, with none, or with an error's text. A handler that throws is answered by
-- the framework.
pub data Reply (A : Type 0) : Type 0 where
  sent : (code : ℕ) → A → Reply A
  no_content : Reply A
  refused : (code : ℕ) (error : String) → Reply A
  thrown : Reply A

module _ {A : Type 0} where
  abbrev pub unauthorized : Reply A
  unauthorized = refused 401 "unauthorized"

  abbrev pub not_found : Reply A
  not_found = refused 404 "not found"

  abbrev pub rate_limited : Reply A
  rate_limited = refused 429 "too many requests"

abbrev bearer : String
bearer = "Bearer "

abbrev pub non_empty : String → Option String
non_empty token = if len token == 0 then none else some token

-- `bearerToken`, of the header `authorization`.
unfoldable pub bearer_token : Option String → Option String
bearer_token none = none
bearer_token (some authorization) =
    if starts_with authorization bearer
    then non_empty (slice authorization (len bearer) (len authorization))
    else none

-- `safeSecretMatches`: the bytes of the texts, as those of their characters.
unfoldable pub safe_secret_matches : Option String → String → Bool
unfolding timing_safe_equal
safe_secret_matches none expected = false
safe_secret_matches (some actual) expected =
    (length (codes actual) == length (codes expected))
    && timing_safe_equal (codes actual) (codes expected)

-- `normalizedContentType`: what stands before the first `;`.
unfoldable pub normalized_content_type :
    (trim lower : String → String) → Option String → Option String
normalized_content_type trim lower none = none
normalized_content_type trim lower (some value) =
    some (lower (trim (slice value 0 (find value ";"))))

unfoldable pub identity_encoding : (lower : String → String) → Option String → Bool
identity_encoding lower none = true
identity_encoding lower (some value) = str_eq (lower value) "identity"

abbrev pub is_refusal : {A : Type 0} → Reply A → Bool
is_refusal (refused code error) = true
is_refusal thrown = true
is_refusal _ = false

-- The state of a handler: the counters of its route, and the tables.
pub record Served (S : Type 0) : Type 0 where
  pub rate_limits : List RateLimitBucket
  pub tables : S

module _ {S A : Type 0} where
  -- `if (!consumeRateLimit(…)) return rateLimited(reply); …`
  unfoldable pub limited :
      (now : ℕ) (key : String) (limit : ℕ) → (S → Reply A × S) → Served S → Reply A × Served S
  unfolding consume_rate_limit
  limited now key limit handler s =
      let counted = consume_rate_limit now s.rate_limits key limit 60_000 in
      let out = if counted.0 then handler s.tables else (rate_limited, s.tables) in
      (out.0, record { rate_limits = counted.1; tables = out.1 })

  -- What follows `if (!await authorizeOwner(request, options)) return unauthorized(reply); …`
  unfoldable pub when_authorized : (S → Reply A × S) → Result TokenError Bool × S → Reply A × S
  when_authorized action (err e, s) = (thrown, s)
  when_authorized action (ok false, s) = (unauthorized, s)
  when_authorized action (ok true, s) = action s

  -- The reply, and the tables that a handler leaves.
  abbrev pub outcome : Reply A × Served S → Reply A × S
  outcome (reply, s) = (reply, s.tables)

  -- What holds of a refusal that changes no table, and of the handler, holds of the route.
  pub limited-outcome {κ} :
      (P : Reply A × S → Type κ) (now : ℕ) (key : String) (limit : ℕ) (handler : S → Reply A × S)
      (s : Served S)
      → P (rate_limited, s.tables)
      → P (handler s.tables)
      → P (outcome (limited now key limit handler s))
  unfolding limited
  limited-outcome P now key limit handler s refusal h =
      elim (Bool-cases (consume_rate_limit now s.rate_limits key limit 60_000).0) [
        | inl t ↦ rw t h
        | inr t ↦ rw t refusal
      ]

  -- The request is the owner's, or it was refused and left the tables as they were at the start, or
  -- as the look-up of the credentials left them.
  abbrev pub OwnerOnly : (Owns : Type 0) (start looked_up : S) → Reply A × S → Type 0
  OwnerOnly Owns start looked_up out =
      Owns ⊎ ((is_refusal out.0 ≡ true) × ((out.1 ≡ looked_up) ⊎ (out.1 ≡ start)))

  when_authorized-OwnerOnly :
      {Owns : Type 0} (start : S) (action : S → Reply A × S) (checked : Result TokenError Bool × S)
      → (checked.0 ≡ ok true → Owns)
      → OwnerOnly Owns start checked.1 (when_authorized action checked)
  unfolding when_authorized
  when_authorized-OwnerOnly start action (err e, s) owns = inr (refl, inl refl)
  when_authorized-OwnerOnly start action (ok false, s) owns = inr (refl, inl refl)
  when_authorized-OwnerOnly start action (ok true, s) owns = inl (owns refl)

  -- A route that is limited, then asks for the owner's token.
  unfoldable pub owner_route :
      (now : ℕ)
      → Request
      → (S → Result TokenError Bool × S)
      → (S → Reply A × S)
      → Served S
      → Reply A × Served S
  unfolding limited when_authorized
  owner_route now request authorize action s =
      limited now request.ip 30 (λ t. when_authorized action (authorize t)) s

  pub owner_route-OwnerOnly :
      {Owns : Type 0} (now : ℕ) (request : Request) (authorize : S → Result TokenError Bool × S)
      (action : S → Reply A × S) (s : Served S)
      → ((authorize s.tables).0 ≡ ok true → Owns)
      → OwnerOnly Owns s.tables
          (authorize s.tables).1
          (outcome (owner_route now request authorize action s))
  unfolding owner_route
  owner_route-OwnerOnly {Owns} now request authorize action s owns =
      limited-outcome (OwnerOnly Owns s.tables (authorize s.tables).1) now request.ip 30
        (λ t. when_authorized action (authorize t)) s (inr (refl, inr refl))
        (when_authorized-OwnerOnly s.tables action (authorize s.tables) owns)
