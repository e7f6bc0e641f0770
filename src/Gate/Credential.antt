-- ===== src/Gate/Credential.antt =====
-- src/gate/gate-payment-auth.ts: the challenge that a GATE quote carries, and the credential that
-- answers it. The hashes, the HMAC, base64url, the JSON parser and the texts of dates are the
-- platform's. The header's text is left out.
pub mod Verified
use the402machine.Base.{
  ℕ, String, Bool, true, false, not, ◌&&◌, ◌||◌, Option, none, some, List, [], ◌∷◌, leb,
  if◌then◌else◌, all, codes, length, ◌==◌, str_eq,
}
use Prim.Native.String.{◌++◌ as ◌<>◌, len, slice}
use text.Mathlib.Text.{starts_with}
use the402machine.Tokens.{from_hex, is_sha256_hex}
use the402machine.Json.{
  Json, Members, string, object, empty, member, get, then_get, text_of, hash_of, canonical_json,
}

-- The platform that challenges and credentials use.
pub record Platform : Type 0 where
  pub hmac_base64url : (secret : List ℕ) → String → String
  pub sha256_hex : List ℕ → String
  pub sha256_base64 : List ℕ → String
  pub to_base64url : String → String
  pub from_base64url : String → String
  pub parse_json : String → Option Json
  pub quote : String → String
  pub precedes : String → String → Bool
  pub upper : String → String
  pub show_number : ℕ → String
  pub iso_date : ℕ → String
  pub parse_date : String → Option ℕ

-- `method` is always `lightning` and `intent` always `charge`.
pub record GatePaymentChallenge : Type 0 where
  pub id : String
  pub realm : String
  pub request : String
  pub expires : String
  pub digest : String
  pub opaque : String

pub data GatePaymentFailure : Type 0 where
  malformed_credential invalid_challenge invalid_preimage expired_invoice : GatePaymentFailure

pub data Verification : Type 0 where
  valid : (preimage payment_hash : String) → Verification
  invalid : GatePaymentFailure → Verification

pub record ChallengeInput : Type 0 where
  pub intent_id : String
  pub amount_sats : ℕ
  pub bolt11 : String
  pub payment_hash : String
  pub realm : String
  pub target_method : String
  pub target_path : String
  pub target_body : List ℕ
  pub expires_at : ℕ
  pub secret : List ℕ

pub record CredentialInput : Type 0 where
  pub authorization : Option String
  pub intent_id : String
  pub target_method : String
  pub target_path : String
  pub target_body : List ℕ
  pub secret : List ℕ
  pub now : ℕ

pub record Opaque : Type 0 where
  pub intent_id : String
  pub method : String
  pub path : String
  pub body_sha256 : String

pub record Credential : Type 0 where
  pub challenge : GatePaymentChallenge
  pub preimage : String

-- `[A-Za-z0-9_-]+`
abbrev pub is_base64url_character : ℕ → Bool
is_base64url_character c =
    (leb 65 c && leb c 90)
    || (leb 97 c && leb c 122)
    || (leb 48 c && leb c 57)
    || (c == 95)
    || (c == 45)

abbrev pub is_base64url : String → Bool
is_base64url token = not (length (codes token) == 0) && all is_base64url_character (codes token)

abbrev is_text : String → Option String → Bool
is_text expected none = false
is_text expected (some s) = str_eq s expected

module _ (pf : Platform) where
  unfoldable pub challenge_id : GatePaymentChallenge → (secret : List ℕ) → String
  challenge_id c secret = pf.hmac_base64url secret (
      c.realm
      <> ("|lightning|charge|"
          <> (c.request <> ("|" <> (c.expires <> ("|" <> (c.digest <> ("|" <> c.opaque))))))))

  unfoldable pub content_digest : List ℕ → String
  content_digest body = "sha-256=:" <> (pf.sha256_base64 body <> ":")

  unfoldable pub encode_canonical_json : Json → String
  unfolding canonical_json
  encode_canonical_json value = pf.to_base64url (canonical_json pf.quote pf.precedes value)

  unfoldable pub request_of : ChallengeInput → Json
  request_of input = object (
      member "amount" (string (pf.show_number input.amount_sats)) (
        member "currency" (string "sat") (
          member "description" (string "The402Machine GATE authorization") (
            member "externalId" (string input.intent_id) (
              member "methodDetails"
                (object (
                  member "invoice" (string input.bolt11) (
                    member "network" (string "mainnet")
                      (member "paymentHash" (string input.payment_hash) empty))))
                empty)))))

  unfoldable pub opaque_of : ChallengeInput → Json
  opaque_of input = object (
      member "bodySha256" (string (pf.sha256_hex input.target_body)) (
        member "intentId" (string input.intent_id) (
          member "method" (string (pf.upper input.target_method))
            (member "path" (string input.target_path) empty))))

  -- `createGatePaymentChallenge`, of which the header is another text.
  unfoldable pub create_gate_payment_challenge : ChallengeInput → GatePaymentChallenge
  unfolding encode_canonical_json request_of opaque_of content_digest challenge_id
  create_gate_payment_challenge input =
      let unsigned : GatePaymentChallenge = record {
        id = "";
        realm = input.realm;
        request = encode_canonical_json (request_of input);
        expires = pf.iso_date input.expires_at;
        digest = content_digest input.target_body;
        opaque = encode_canonical_json (opaque_of input);
      } in
      record unsigned { id = challenge_id unsigned input.secret }

  -- `isChallenge`, with the members read.
  challenge_of : Json → Option GatePaymentChallenge
  challenge_of j =
      if is_text "lightning" (text_of (get "method" j))
        && is_text "charge" (text_of (get "intent" j))
      then texts (text_of (get "id" j)) (text_of (get "realm" j)) (text_of (get "request" j))
          (text_of (get "expires" j)) (text_of (get "digest" j)) (text_of (get "opaque" j))
      else none
    where
      texts : (id realm request expires digest opaque : Option String) → Option GatePaymentChallenge
      texts (some i) (some r) (some q) (some e) (some d) (some o) =
          some (record { id = i; realm = r; request = q; expires = e; digest = d; opaque = o })
      texts _ _ _ _ _ _ = none

  both : Option GatePaymentChallenge → Option String → Option Credential
  both (some c) (some p) = some (record { challenge = c; preimage = p })
  both _ _ = none

  abbrev challenge_in : Option Json → Option GatePaymentChallenge
  challenge_in none = none
  challenge_in (some j) = challenge_of j

  credential_of : Option Json → Option Credential
  unfolding challenge_of both
  credential_of parsed =
      both (challenge_in (then_get parsed "challenge"))
        (hash_of (text_of (then_get (then_get parsed "payload") "preimage")))

  abbrev payment_scheme : String
  payment_scheme = "Payment "

  unfoldable pub parse_gate_payment_authorization : Option String → Option Credential
  unfolding credential_of
  parse_gate_payment_authorization none = none
  parse_gate_payment_authorization (some value) =
      let token = slice value (len payment_scheme) (len value) in
      if not (starts_with value payment_scheme) || not (is_base64url token)
      then none
      else credential_of (pf.parse_json (pf.from_base64url token))

  opaque_texts : (intent_id method path body_sha256 : Option String) → Option Opaque
  opaque_texts (some i) (some m) (some p) (some b) =
      some (record { intent_id = i; method = m; path = p; body_sha256 = b })
  opaque_texts _ _ _ _ = none

  unfoldable pub decode_opaque : String → Option Opaque
  unfolding opaque_texts
  decode_opaque value =
      let parsed = pf.parse_json (pf.from_base64url value) in
      opaque_texts (text_of (then_get parsed "intentId")) (text_of (then_get parsed "method"))
        (text_of (then_get parsed "path")) (text_of (then_get parsed "bodySha256"))

  unfoldable pub decode_payment_hash : String → Option String
  decode_payment_hash value = hash_of (
      text_of (
        then_get (then_get (pf.parse_json (pf.from_base64url value)) "methodDetails")
          "paymentHash"))

  abbrev pub preimage_hash : String → String
  preimage_hash preimage = pf.sha256_hex (from_hex (codes preimage))

  unfoldable pub check_preimage : Credential → Option String → Verification
  unfolding from_hex
  check_preimage c none = invalid invalid_challenge
  check_preimage c (some payment_hash) =
      if str_eq (preimage_hash c.preimage) payment_hash
      then valid c.preimage payment_hash
      else invalid invalid_preimage

  -- Whether the challenge is for this request.
  abbrev pub is_bound : CredentialInput → Opaque → Bool
  is_bound input o =
      str_eq o.intent_id input.intent_id
      && str_eq o.method (pf.upper input.target_method)
      && str_eq o.path input.target_path
      && str_eq o.body_sha256 (pf.sha256_hex input.target_body)

  unfoldable pub check_binding : CredentialInput → Credential → Option Opaque → Verification
  unfolding check_preimage decode_payment_hash
  check_binding input c none = invalid invalid_challenge
  check_binding input c (some o) =
      if is_bound input o
      then check_preimage c (decode_payment_hash c.challenge.request)
      else invalid invalid_challenge

  -- `now >= Date.parse(…)`, which does not hold of a text that is no date.
  abbrev pub has_expired : ℕ → Option ℕ → Bool
  has_expired now none = false
  has_expired now (some at) = leb at now

  abbrev pub is_signed : CredentialInput → GatePaymentChallenge → Bool
  is_signed input c =
      str_eq c.id (challenge_id c input.secret)
      && str_eq c.digest (content_digest input.target_body)

  unfoldable pub check_credential : CredentialInput → Option Credential → Verification
  unfolding check_binding decode_opaque
  check_credential input none = invalid malformed_credential
  check_credential input (some c) =
      if has_expired input.now (pf.parse_date c.challenge.expires)
      then invalid expired_invoice
      else if is_signed input c.challenge
      then check_binding input c (decode_opaque c.challenge.opaque)
      else invalid invalid_challenge

  unfoldable pub verify_gate_payment_credential : CredentialInput → Verification
  unfolding check_credential parse_gate_payment_authorization
  verify_gate_payment_credential input =
      check_credential input (parse_gate_payment_authorization input.authorization)
