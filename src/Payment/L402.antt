-- ===== src/Payment/L402.antt =====
-- src/payment/l402-protocol.ts: the macaroon of a challenge, and the credential that answers it.
-- The macaroon library, SHA-256 and the platform's texts are parameters. The header's text is left
-- out.
pub mod Verified
use the402machine.Base.{
  ℕ, ◌+◌, ◌-◌, ◌*◌, ◌/◌, String, Bool, true, false, not, ◌&&◌, ◌||◌, Option, none, some, List, [],
  ◌∷◌, ◌++◌, leb, ◌==◌, if◌then◌else◌, length, take, drop, all, any, get_or, codes, str_eq, Result,
  ok, err, ◌>>=◌, ◌>>◌, throw_if,
}
use the402machine.Base.Table
use the402machine.Base.Batch.{mem}
use Prim.Native.String.{◌++◌ as ◌<>◌, len, slice}
use text.Mathlib.Text.{starts_with}
use the402machine.Domain.Plans.{PlanId, Product}
use the402machine.Tokens.{from_hex, is_sha256_hex}

pub data L402Failure : Type 0 where
  malformed_credential invalid_macaroon invalid_preimage invalid_caveat expired : L402Failure

pub data L402Error : Type 0 where
  invalid_payment_hash invalid_root_key invalid_token_id : L402Error

pub data Verification : Type 0 where
  valid : (preimage payment_hash : String) → Verification
  invalid : L402Failure → Verification

-- A macaroon of the library, with its caveats as texts.
pub record Macaroon : Type 0 where
  pub identifier : List ℕ
  pub caveats : List String

pub record Platform : Type 0 where
  -- The serialized macaroon, and the reading of one.
  pub seal : (identifier : List ℕ) (location : String) (root_key : List ℕ) → List String → String
  pub import_macaroon : String → Option Macaroon
  -- Whether the signature is the one of the root key and every caveat is satisfied.
  pub verify : Macaroon → (root_key : List ℕ) → (satisfied : String → Bool) → Bool
  pub sha256_hex : List ℕ → String
  pub to_hex : List ℕ → String
  pub upper : String → String
  pub show_number : ℕ → String
  pub last_colon : String → Option ℕ

-- What a challenge is bound to.
pub record L402CaveatContext : Type 0 where
  pub product : Product
  pub plan_id : PlanId
  pub method : String
  pub path : String
  pub body : List ℕ

pub record ChallengeInput : Type 0 where
  pub payment_hash : String
  pub root_key : List ℕ
  pub token_id : List ℕ
  pub location : String
  pub context : L402CaveatContext
  pub expires_at : ℕ

pub record AuthorizationInput : Type 0 where
  pub authorization : Option String
  pub root_key : List ℕ
  pub expected_payment_hash : String
  pub context : L402CaveatContext
  pub now : ℕ

pub record L402Credential : Type 0 where
  pub macaroon : String
  pub preimage : String

abbrev product_name : Product → String
product_name Product.catch = "catch"
product_name Product.whisper = "whisper"
product_name Product.pulse = "pulse"

abbrev plan_name : PlanId → String
plan_name PlanId.spark = "spark"
plan_name PlanId.standard = "standard"
plan_name PlanId.long = "long"

abbrev is_digit : ℕ → Bool
is_digit c = leb 48 c && leb c 57

-- `^\d+$`
abbrev pub is_number : String → Bool
is_number text = not (length (codes text) == 0) && all is_digit (codes text)

number_from : ℕ → List ℕ → ℕ
number_from n [] = n
number_from n (c ∷ cs) = number_from (n * 10 + (c - 48)) cs

-- `Number(text)`, of digits.
unfoldable pub number_of : String → ℕ
unfolding number_from
number_of text = number_from 0 (codes text)

abbrev pub after : String → String → String
after prefix text = slice text (len prefix) (len text)

abbrev pub until : String
until = "valid_until="

-- `[A-Za-z0-9_-]+`
abbrev is_macaroon_character : ℕ → Bool
is_macaroon_character c =
    (leb 65 c && leb c 90) || (leb 97 c && leb c 122) || is_digit c || (c == 95) || (c == 45)

abbrev is_macaroon_text : String → Bool
is_macaroon_text text = not (length (codes text) == 0) && all is_macaroon_character (codes text)

module _ (pf : Platform) where
  abbrev body_caveat : List ℕ → String
  body_caveat body = "body_sha256=" <> pf.sha256_hex body

  -- The caveats that bind a challenge to a request, before the one of its expiry.
  unfoldable pub request_caveats : L402CaveatContext → List String
  request_caveats c =
      "services=the402machine:0"
      ∷ "the402machine_capabilities=provision"
      ∷ ("product=" <> product_name c.product)
      ∷ ("plan=" <> plan_name c.plan_id)
      ∷ ("method=" <> pf.upper c.method)
      ∷ ("path=" <> c.path)
      ∷ body_caveat c.body
      ∷ []

  -- `expectedCaveats`, of the expiry in seconds.
  unfoldable pub expected_caveats : L402CaveatContext → (seconds : ℕ) → List String
  unfolding request_caveats
  expected_caveats c seconds = request_caveats c ++ (until <> pf.show_number seconds) ∷ []

  -- `caveatSatisfied`
  unfoldable pub caveat_satisfied : L402CaveatContext → String → Bool
  caveat_satisfied c condition =
      str_eq condition "services=the402machine:0"
      || str_eq condition "the402machine_capabilities=provision"
      || str_eq condition ("product=" <> product_name c.product)
      || str_eq condition ("plan=" <> plan_name c.plan_id)
      || str_eq condition ("method=" <> pf.upper c.method)
      || str_eq condition ("path=" <> c.path)
      || str_eq condition (body_caveat c.body)
      || (starts_with condition until && is_number (after until condition))

  -- The version, the payment hash and the token's id.
  abbrev identifier_of : (payment_hash : String) → (token_id : List ℕ) → List ℕ
  identifier_of payment_hash token_id = 0 ∷ 0 ∷ (from_hex (codes payment_hash) ++ token_id)

  -- `createL402Challenge`, of which the header is another text.
  unfoldable pub create_l402_challenge : ChallengeInput → Result L402Error String
  unfolding expected_caveats from_hex
  create_l402_challenge input =
      throw_if (not (is_sha256_hex input.payment_hash)) invalid_payment_hash
      >> throw_if (not (length input.root_key == 32)) invalid_root_key
      >> throw_if (not (length input.token_id == 32)) invalid_token_id
      >> ok (
          pf.seal (identifier_of input.payment_hash input.token_id) input.location input.root_key
            (expected_caveats input.context (input.expires_at / 1_000)))

  credential_at : String → Option ℕ → Option L402Credential
  credential_at credential none = none
  credential_at credential (some at) =
      let macaroon = slice credential 0 at in
      let preimage = slice credential (at + 1) (len credential) in
      if (at == 0) || not (is_macaroon_text macaroon) || not (is_sha256_hex preimage)
      then none
      else some (record { macaroon = macaroon; preimage = preimage })

  unfoldable pub parse_l402_authorization : Option String → Option L402Credential
  unfolding credential_at
  parse_l402_authorization none = none
  parse_l402_authorization (some value) =
      let credential = after "L402 " value in
      if starts_with value "L402 "
      then credential_at credential (pf.last_colon credential)
      else none

  -- `readUInt16BE(0)`
  abbrev version_of : List ℕ → ℕ
  version_of (a ∷ b ∷ rest) = a * 256 + b
  version_of _ = 0

  abbrev pub hash_in : List ℕ → String
  hash_in identifier = pf.to_hex (take 32 (drop 2 identifier))

  abbrev pub preimage_hash : String → String
  preimage_hash preimage = pf.sha256_hex (from_hex (codes preimage))

  unfoldable pub check_preimage : String → L402Credential → Verification
  unfolding from_hex
  check_preimage payment_hash c =
      if str_eq (preimage_hash c.preimage) payment_hash
      then valid c.preimage payment_hash
      else invalid invalid_preimage

  abbrev pub has_all : (required caveats : List String) → Bool
  has_all required caveats = all (λ caveat. mem caveat caveats) required

  -- The text of the expiry in the first caveat that has one.
  unfoldable pub check_expiry :
      AuthorizationInput → L402Credential → Macaroon → Option String → Verification
  unfolding expected_caveats check_preimage number_of
  check_expiry input c m none = invalid invalid_caveat
  check_expiry input c m (some caveat) =
      let expiry = after until caveat in
      if not (is_number expiry)
      then invalid invalid_caveat
      else if leb (number_of expiry * 1_000) input.now
      then invalid expired
      else if has_all (expected_caveats input.context (number_of expiry)) m.caveats
      then check_preimage (hash_in m.identifier) c
      else invalid invalid_caveat

  abbrev pub is_ours : AuthorizationInput → Macaroon → Bool
  is_ours input m =
      (length m.identifier == 66)
      && (version_of m.identifier == 0)
      && str_eq (hash_in m.identifier) input.expected_payment_hash
      && pf.verify m input.root_key (caveat_satisfied input.context)

  unfoldable pub check_macaroon :
      AuthorizationInput → L402Credential → Option Macaroon → Verification
  unfolding check_expiry caveat_satisfied
  check_macaroon input c none = invalid invalid_macaroon
  check_macaroon input c (some m) =
      if is_ours input m
      then check_expiry input c m (Table.find (λ caveat. starts_with caveat until) m.caveats)
      else invalid invalid_macaroon

  unfoldable pub check_credential : AuthorizationInput → Option L402Credential → Verification
  unfolding check_macaroon
  check_credential input none = invalid malformed_credential
  check_credential input (some c) = check_macaroon input c (pf.import_macaroon c.macaroon)

  -- `verifyL402Authorization`
  unfoldable pub verify_l402_authorization : AuthorizationInput → Verification
  unfolding check_credential parse_l402_authorization
  verify_l402_authorization input =
      check_credential input (parse_l402_authorization input.authorization)
