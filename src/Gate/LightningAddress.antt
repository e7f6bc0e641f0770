-- ===== src/Gate/LightningAddress.antt =====
-- src/gate/lightning-address-adapter.ts: the test of a payment at the recipient's provider, and the
-- filter of the addresses that the server may contact. The URL parser, the resolver, the HTTP
-- client, the JSON parser and `isIP` are the platform's. Timeouts are failures of the client.
pub mod Blocks
pub mod Settled
use the402machine.Base.{
  ℕ, ◌+◌, ◌-◌, ◌/◌, ◌%◌, String, Bool, true, false, not, ◌&&◌, ◌||◌, Option, none, some, List, [],
  ◌∷◌, ltb, leb, ◌==◌, if◌then◌else◌, length, any, codes, str_eq, is_none, Result, ok, err, ◌>>=◌,
  ◌>>◌, throw_if, or_throw,
}
use Prim.Native.String.{len, slice}
use text.Mathlib.Text.{starts_with}
use the402machine.Tokens.{from_hex}
use the402machine.Payment.Bolt11.{Decoded, ValidatedBolt11, Validation, validate_bolt11}

pub record Url : Type 0 where
  pub protocol : String
  pub username : String
  pub password : String
  pub port : String
  pub hostname : String

pub record Response : Type 0 where
  pub status : ℕ
  pub content_length : Option ℕ
  pub text : String

-- The members that `parseVerificationResponse` reads of a parsed answer: `none` where the member
-- has another type, and `preimage` is `none` for `null` and for an absent member.
pub record Answer : Type 0 where
  pub settled : Option Bool
  pub pr : Option String
  pub preimage : Option String

pub data AdapterError : Type 0 where
  not_public invalid_url no_answer redirect_not_allowed http_error too_large : AdapterError
  invalid_json invalid_verification invalid_preimage invoice_mismatch : AdapterError
  invalid_invoice no_proof preimage_mismatch : AdapterError

pub record Platform : Type 0 where
  pub parse_url : String → Option Url
  pub resolve_hostname : String → List String
  pub fetch : Url → (address : String) → Option Response
  pub read_answer : String → Option Answer
  pub lower : String → String
  pub byte_length : String → ℕ
  -- `isIP`: 4, 6 or 0.
  pub ip_version : String → ℕ
  -- The first two numbers of an IPv4 address.
  pub octets : String → ℕ × ℕ
  -- The hexadecimal groups of a text, `none` where a group is no number.
  pub groups : String → List (Option ℕ)
  pub sha256_hex : List ℕ → String
  pub decode : String → Option Decoded
  pub digest : String → String

pub data Verification : Type 0 where
  url : String → Verification
  payer_preimage : Verification

pub record VerifyInput : Type 0 where
  pub bolt11 : String
  pub payment_hash : String
  pub amount_sats : ℕ
  pub verification : Verification

pub data Settlement : Type 0 where
  unsettled : Settlement
  settled : (preimage : String) → Settlement

pub record VerificationResponse : Type 0 where
  pub is_settled : Bool
  pub invoice : String
  pub proof : Option String

-- `isPublicIpv4`, of the first two numbers.
unfoldable pub is_public_ipv4 : (first second : ℕ) → Bool
is_public_ipv4 first second =
    not ((first == 0) || (first == 10) || (first == 127) || leb 224 first)
    && not ((first == 169) && (second == 254))
    && not ((first == 172) && leb 16 second && leb second 31)
    && not ((first == 192) && ((second == 0) || (second == 168)))
    && not ((first == 198) && ((second == 18) || (second == 19)))
    && not ((first == 100) && leb 64 second && leb second 127)

module _ (pf : Platform) where
  -- The IPv4 address in the last two groups of a mapped one.
  abbrev mapped : List (Option ℕ) → Bool
  mapped (some first ∷ some second ∷ []) = is_public_ipv4 (first / 256) (first % 256)
  mapped _ = false

  abbrev after : String → String → String
  after prefix text = slice text (len prefix) (len text)

  unfoldable pub is_public_ipv6 : String → Bool
  unfolding is_public_ipv4
  is_public_ipv6 address =
      let normalized = pf.lower address in
      let tail = after "::ffff:" normalized in
      if starts_with normalized "::ffff:"
      then (if pf.ip_version tail == 4
          then is_public_ipv4 (pf.octets tail).0 (pf.octets tail).1
          else mapped (pf.groups tail))
      else not (
          str_eq normalized "::"
          || str_eq normalized "::1"
          || starts_with normalized "fe8"
          || starts_with normalized "fe9"
          || starts_with normalized "fea"
          || starts_with normalized "feb"
          || starts_with normalized "fc"
          || starts_with normalized "fd"
          || starts_with normalized "2001:db8:")

  unfoldable pub is_public_ip : String → Bool
  unfolding is_public_ipv6
  is_public_ip address =
      if pf.ip_version address == 4
      then is_public_ipv4 (pf.octets address).0 (pf.octets address).1
      else if pf.ip_version address == 6
      then is_public_ipv6 address
      else false

  abbrev pub ends_with : String → String → Bool
  ends_with text suffix = str_eq (slice text (len text - len suffix) (len text)) suffix

  unfoldable pub ip_literal : String → Option String
  ip_literal hostname =
      if not (pf.ip_version hostname == 0)
      then some hostname
      else if starts_with hostname "[" && ends_with hostname "]"
      then some (slice hostname 1 (len hostname - 1))
      else none

  abbrev addresses_of : String → Option String → List String
  addresses_of hostname none = pf.resolve_hostname hostname
  addresses_of hostname (some literal) = literal ∷ []

  -- `#publicAddresses`
  unfoldable pub public_addresses : Url → Result AdapterError (List String)
  unfolding ip_literal is_public_ip
  public_addresses u =
      let hostname = pf.lower u.hostname in
      let addresses = addresses_of hostname (ip_literal hostname) in
      throw_if
        (not (str_eq u.protocol "https:")
          || not (str_eq u.username "")
          || not (str_eq u.password "")
          || not (str_eq u.port ""))
        not_public
      >> throw_if (str_eq hostname "localhost" || ends_with hostname ".localhost") not_public
      >> throw_if ((length addresses == 0) || any (λ a. not (is_public_ip a)) addresses) not_public
      >> ok addresses

  -- `#validatedPublicUrl`
  unfoldable pub validated_public_url : String → Result AdapterError Url
  unfolding public_addresses
  validated_public_url value = do
    u ← or_throw (pf.parse_url value) invalid_url
    public_addresses u >>= λ addresses. ok u

  abbrev first_of : List String → Option String
  first_of [] = none
  first_of (a ∷ rest) = some a

  abbrev longer : Option ℕ → Bool
  longer none = false
  longer (some n) = ltb 65_536 n

  -- The text of an answer that may be read.
  unfoldable pub body_of : Response → Result AdapterError String
  body_of r =
      throw_if (leb 300 r.status && ltb r.status 400) redirect_not_allowed
      >> throw_if (ltb r.status 200 || leb 300 r.status) http_error
      >> throw_if (longer r.content_length) too_large
      >> throw_if (ltb 65_536 (pf.byte_length r.text)) too_large
      >> ok r.text

  -- `#fetchJson`: the connection goes to the first of the addresses that were tested.
  unfoldable pub fetch_json : Url → Result AdapterError Answer
  unfolding public_addresses body_of
  fetch_json u = do
    addresses ← public_addresses u
    pinned ← or_throw (first_of addresses) not_public
    response ← or_throw (pf.fetch u pinned) no_answer
    body ← body_of response
    or_throw (pf.read_answer body) invalid_json

  -- `[a-fA-F0-9]{64}`
  abbrev pub is_hash : String → Bool
  is_hash text =
      (length (codes text) == 64)
      && not (
          any
            (λ c. not ((leb 97 c && leb c 102) || (leb 65 c && leb c 70) || (leb 48 c && leb c 57)))
            (codes text))

  abbrev read_preimage : Option String → Result AdapterError (Option String)
  read_preimage none = ok none
  read_preimage (some p) = throw_if (not (is_hash p)) invalid_preimage >> ok (some (pf.lower p))

  unfoldable pub parse_verification_response : Answer → Result AdapterError VerificationResponse
  parse_verification_response a = do
    is_settled ← or_throw a.settled invalid_verification
    invoice ← or_throw a.pr invalid_verification
    proof ← read_preimage a.preimage
    ok (record { is_settled = is_settled; invoice = invoice; proof = proof })

  unfoldable pub valid_invoice :
      (now : ℕ) → VerifyInput → String → Result AdapterError ValidatedBolt11
  unfolding validate_bolt11
  valid_invoice now input invoice =
      elim (validate_bolt11 pf.decode pf.digest starts_with now (record {
        bolt11 = invoice;
        expected_payment_hash = input.payment_hash;
        expected_amount_sats = input.amount_sats;
        expected_description_hash = none;
      })) [ ok v ↦ ok v | err e ↦ err invalid_invoice ]

  abbrev pub preimage_hash : String → String
  preimage_hash preimage = pf.sha256_hex (from_hex (codes preimage))

  unfoldable pub check_proof : VerifyInput → Option String → Result AdapterError Settlement
  unfolding from_hex
  check_proof input none = err no_proof
  check_proof input (some preimage) =
      throw_if (not (str_eq (preimage_hash preimage) input.payment_hash)) preimage_mismatch
      >> ok (settled preimage)

  unfoldable pub check_response :
      (now : ℕ) → VerifyInput → VerificationResponse → Result AdapterError Settlement
  unfolding check_proof valid_invoice
  check_response now input r =
      throw_if (not (str_eq r.invoice input.bolt11)) invoice_mismatch
      >> valid_invoice now input r.invoice
      >>= λ v. if r.is_settled then check_proof input r.proof else ok unsettled

  unfoldable pub ask_provider :
      (now : ℕ) → VerifyInput → Verification → Result AdapterError Settlement
  unfolding validated_public_url fetch_json parse_verification_response check_response
  ask_provider now input payer_preimage = ok unsettled
  ask_provider now input (url value) = do
    u ← validated_public_url value
    answer ← fetch_json u
    response ← parse_verification_response answer
    check_response now input response

  -- `verifyInvoice`
  unfoldable pub verify_invoice : (now : ℕ) → VerifyInput → Result AdapterError Settlement
  unfolding ask_provider
  verify_invoice now input = ask_provider now input input.verification
