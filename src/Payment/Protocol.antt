-- ===== src/Payment/Protocol.antt =====
-- src/payment/payment-protocol.ts: the challenge that a quote carries, and the credential that
-- answers it. Its types and its encoding are those of src/gate/gate-payment-auth.ts, word for word,
-- and are modelled once, in Gate/Credential. The header's text is left out.
use the402machine.Base.{
  ℕ, String, Bool, ◌&&◌, Option, none, some, get_or, List, if◌then◌else◌, str_eq,
}
use Prim.Native.String.{◌++◌ as ◌<>◌}
use the402machine.Domain.Plans.{PlanId, Product}
use the402machine.Tokens.{from_hex}
use the402machine.Json.{Json, string, object, empty, member, canonical_json}
use the402machine.Gate.Credential.{
  Platform, GatePaymentChallenge, Credential, challenge_id, content_digest, encode_canonical_json,
  parse_gate_payment_authorization, decode_payment_hash, preimage_hash, has_expired,
}
use the402machine.Payment.Bolt11.{Network, mainnet, regtest, signet}
use the402machine.Payment.Service.{PaymentQuote}

pub data PaymentCredentialFailure : Type 0 where
  malformed_credential invalid_challenge invalid_preimage expired_invoice : PaymentCredentialFailure

pub data Verification : Type 0 where
  valid : (payment_hash : String) → Verification
  invalid : PaymentCredentialFailure → Verification

pub record ChallengeInput : Type 0 where
  pub quote : PaymentQuote
  pub realm : String
  pub method : String
  pub path : String
  pub body : List ℕ
  pub expires_at : ℕ
  pub secret : List ℕ

pub record CredentialInput : Type 0 where
  pub authorization : Option String
  pub expected : GatePaymentChallenge
  pub body : List ℕ
  pub secret : List ℕ
  pub now : ℕ

abbrev product_title : Product → String
product_title Product.catch = "CATCH"
product_title Product.whisper = "WHISPER"
product_title Product.pulse = "PULSE"

abbrev plan_title : PlanId → String
plan_title PlanId.spark = "Spark"
plan_title PlanId.standard = "Standard"
plan_title PlanId.long = "Long"

abbrev network_text : Network → String
network_text mainnet = "mainnet"
network_text regtest = "regtest"
network_text signet = "signet"

module _ (pf : Platform) where
  unfoldable pub request_of : PaymentQuote → Json
  request_of quote = object (
      member "amount" (string (pf.show_number quote.amount_sats)) (
        member "currency" (string "sat") (
          member "description"
            (string (
              "The402Machine "
              <> (product_title quote.product <> (" " <> plan_title quote.plan_id))))
            (member "externalId" (string quote.order_id) (
              member "methodDetails"
                (object (
                  member "invoice" (string quote.bolt11) (
                    member "network" (string (network_text (get_or quote.network mainnet)))
                      (member "paymentHash" (string quote.payment_hash) empty))))
                empty)))))

  unfoldable pub opaque_of : ChallengeInput → Json
  opaque_of input = object (
      member "method" (string (pf.upper input.method))
        (member "orderId" (string input.quote.order_id) (member "path" (string input.path) empty)))

  -- `createPaymentChallenge`, of which the header is another text.
  unfoldable pub create_payment_challenge : ChallengeInput → GatePaymentChallenge
  unfolding encode_canonical_json request_of opaque_of content_digest challenge_id
  create_payment_challenge input =
      let unsigned : GatePaymentChallenge = record {
        id = "";
        realm = input.realm;
        request = encode_canonical_json pf (request_of input.quote);
        expires = pf.iso_date input.expires_at;
        digest = content_digest pf input.body;
        opaque = encode_canonical_json pf (opaque_of input);
      } in
      record unsigned { id = challenge_id pf unsigned input.secret }

  -- The parameters as the JSON that is compared and hashed.
  unfoldable pub parameters_json : GatePaymentChallenge → Json
  parameters_json c = object (
      member "id" (string c.id) (
        member "realm" (string c.realm) (
          member "method" (string "lightning") (
            member "intent" (string "charge") (
              member "request" (string c.request) (
                member "digest" (string c.digest) (
                  member "expires" (string c.expires)
                    (member "opaque" (string c.opaque) empty))))))))

  abbrev pub canonical : GatePaymentChallenge → String
  canonical c = canonical_json pf.quote pf.precedes (parameters_json c)

  -- `safeParametersEqual`
  unfoldable pub parameters_equal : GatePaymentChallenge → GatePaymentChallenge → Bool
  unfolding canonical_json parameters_json
  parameters_equal left right = str_eq (canonical left) (canonical right)

  -- `bytes` gives the bytes of a text: the fingerprint is the hash of the canonical text.
  unfoldable pub payment_challenge_fingerprint :
      (bytes : String → List ℕ) → GatePaymentChallenge → String
  unfolding canonical_json parameters_json
  payment_challenge_fingerprint bytes c = pf.sha256_hex (bytes (canonical c))

  unfoldable pub check_preimage : Credential → Option String → Verification
  unfolding from_hex
  check_preimage c none = invalid invalid_challenge
  check_preimage c (some payment_hash) =
      if str_eq (preimage_hash pf c.preimage) payment_hash
      then valid (preimage_hash pf c.preimage)
      else invalid invalid_preimage

  abbrev pub is_expected : CredentialInput → Credential → Bool
  is_expected input c =
      parameters_equal c.challenge input.expected
      && str_eq input.expected.id (challenge_id pf input.expected input.secret)
      && str_eq input.expected.digest (content_digest pf input.body)

  unfoldable pub check_credential : CredentialInput → Option Credential → Verification
  unfolding check_preimage decode_payment_hash parameters_equal challenge_id content_digest
  check_credential input none = invalid malformed_credential
  check_credential input (some c) =
      if has_expired pf input.now (pf.parse_date input.expected.expires)
      then invalid expired_invoice
      else if is_expected input c
      then check_preimage c (decode_payment_hash pf input.expected.request)
      else invalid invalid_challenge

  unfoldable pub verify_payment_credential : CredentialInput → Verification
  unfolding check_credential parse_gate_payment_authorization
  verify_payment_credential input =
      check_credential input (parse_gate_payment_authorization pf input.authorization)
