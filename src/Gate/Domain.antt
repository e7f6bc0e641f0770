-- ===== src/Gate/Domain.antt =====
-- src/gate/gate-domain.ts: the packs of credits, and the checks of a route and of a request. The
-- platform's upper-casing, the match of the route key and SHA-256 are parameters.
use the402machine.Base.{
  ℕ, ◌+◌, ◌*◌, String, Bool, true, false, not, ◌&&◌, ◌||◌, Option, List, [], ◌∷◌, leb, ltb, ◌==◌,
  if◌then◌else◌, str_eq, any, codes, Result, ok, err, ◌>>=◌, ◌>>◌, throw_if, or_throw,
}
use Prim.Native.String.{◌++◌ as ◌<>◌, len}
use the402machine.Domain.Plans.{PlanId}

pub data GateMethod : Type 0 where
  get post put patch delete head : GateMethod

abbrev pub same_method : GateMethod → GateMethod → Bool
same_method get get = true
same_method post post = true
same_method put put = true
same_method patch patch = true
same_method delete delete = true
same_method head head = true
same_method _ _ = false

pub record GatePack : Type 0 where
  pub authorizations : ℕ
  pub price_sats : ℕ

abbrev pub gate_packs : PlanId → GatePack
gate_packs PlanId.spark = record { authorizations = 420; price_sats = 42 }
gate_packs PlanId.standard = record { authorizations = 4_200; price_sats = 402 }
gate_packs PlanId.long = record { authorizations = 42_000; price_sats = 4_002 }

pub data GateInputError : Type 0 where
  invalid_date invalid_key invalid_method invalid_path invalid_price : GateInputError

unfoldable pub calculate_gate_grant_expiry : Option ℕ → Result GateInputError ℕ
calculate_gate_grant_expiry purchased_at = do
  at ← or_throw purchased_at invalid_date
  ok (at + 402 * 24 * 60 * 60 * 1_000)

unfoldable pub normalize_gate_method :
    (upper : String → String) → String → Result GateInputError GateMethod
normalize_gate_method upper value =
    if str_eq (upper value) "GET"
    then ok get
    else if str_eq (upper value) "POST"
    then ok post
    else if str_eq (upper value) "PUT"
    then ok put
    else if str_eq (upper value) "PATCH"
    then ok patch
    else if str_eq (upper value) "DELETE"
    then ok delete
    else if str_eq (upper value) "HEAD"
    then ok head
    else err invalid_method

-- `codes` are those of `/`, `?` and `#`.
abbrev is_slash : ℕ → Bool
is_slash c = c == 47

abbrev starts_with_slash : List ℕ → Bool
starts_with_slash [] = false
starts_with_slash (c ∷ cs) = is_slash c

abbrev starts_with_two : List ℕ → Bool
starts_with_two [] = false
starts_with_two (c ∷ cs) = is_slash c && starts_with_slash cs

-- `containsControlCharacter`, of one character.
abbrev is_control : ℕ → Bool
is_control c = leb c 31 || (c == 127)

abbrev pub is_gate_path : List ℕ → Bool
is_gate_path cs =
    starts_with_slash cs
    && not (starts_with_two cs)
    && not (any (λ c. c == 63) cs)
    && not (any (λ c. c == 35) cs)
    && not (any is_control cs)

-- `size` is the platform's length of a text, in UTF-16 units.
unfoldable pub validate_gate_path : (size : String → ℕ) → String → Result GateInputError String
validate_gate_path size value =
    throw_if (size value == 0 || ltb 512 (size value) || not (is_gate_path (codes value)))
      invalid_path
    >> ok value

pub record GateRouteInput : Type 0 where
  pub key : String
  pub method : String
  pub path : String
  pub price_sats : ℕ

pub record GateRoute : Type 0 where
  pub key : String
  pub method : GateMethod
  pub path : String
  pub price_sats : ℕ

unfoldable pub validate_gate_route :
    (upper : String → String)
    → (size : String → ℕ) → (is_route_key : String → Bool) → GateRouteInput
    → Result GateInputError GateRoute
unfolding normalize_gate_method validate_gate_path
validate_gate_route upper size is_route_key input = do
  throw_if (not (is_route_key input.key)) invalid_key
  method ← normalize_gate_method upper input.method
  path ← validate_gate_path size input.path
  throw_if (ltb input.price_sats 1 || ltb 1_000_000 input.price_sats) invalid_price
  ok (record { key = input.key; method = method; path = path; price_sats = input.price_sats })

pub record GateRequestBinding : Type 0 where
  pub method : GateMethod
  pub path : String
  pub body_digest : String

unfoldable pub validate_gate_request_binding :
    (upper : String → String)
    → (size : String → ℕ) → (digest : List ℕ → String) → (method path : String) → List ℕ
    → Result GateInputError GateRequestBinding
unfolding normalize_gate_method validate_gate_path
validate_gate_request_binding upper size digest method path body = do
  m ← normalize_gate_method upper method
  p ← validate_gate_path size path
  ok (record { method = m; path = p; body_digest = digest body })

-- `gateMonthKey`, of the UTC year as a text and the month that `getUTCMonth` numbers from 0. A
-- number's text is not empty, so that `padStart` puts at most one digit before it.
unfoldable pub gate_month_key :
    (show_number : ℕ → String) → (utc_year : String) → (utc_month : ℕ) → String
gate_month_key show_number utc_year utc_month =
    let month = show_number (utc_month + 1) in
    utc_year <> ("-" <> (if len month == 1 then "0" <> month else month))
