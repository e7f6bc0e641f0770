-- ===== src/Gate/CredentialTests.antt =====
-- Payment credentials at concrete inputs, on a platform whose texts are easy to read.
use the402machine.Base.{String, true, some, [], ◌∷◌, if◌then◌else◌, str_eq, ◌≡◌, refl, arith}
use text.Mathlib.Text.{starts_with}
use the402machine.Json.{Json, string, object, empty, member, get, canonical_json}
use the402machine.Gate.Credential.{
  Platform, valid, ChallengeInput, encode_canonical_json, request_of, opaque_of,
  create_gate_payment_challenge, parse_gate_payment_authorization, verify_gate_payment_credential,
  content_digest, challenge_id,
}
use the402machine.Gate.Credential.Verified.{
  Verified, answer, verify_gate_payment_credential-Verified, verify-create,
}

abbrev digest : String
digest = "aaaaaaaaaaaaaaaaaaaaaaaaaaaaaaaaaaaaaaaaaaaaaaaaaaaaaaaaaaaaaaaa"

abbrev request_json : Json
request_json = object (
    member "amount" (string "402") (
      member "currency" (string "sat") (
        member "description" (string "The402Machine GATE authorization") (
          member "externalId" (string "i") (
            member "methodDetails"
              (object (
                member "invoice" (string "lnbc1") (
                  member "network" (string "mainnet")
                    (member "paymentHash" (string digest) empty))))
              empty)))))

abbrev opaque_json : Json
opaque_json = object (
    member "bodySha256" (string digest) (
      member "intentId" (string "i")
        (member "method" (string "POST") (member "path" (string "/a") empty))))

abbrev credential_json : Json
credential_json = object (
    member "challenge"
      (object (
        member "id" (string "signature") (
          member "realm" (string "gate") (
            member "method" (string "lightning") (
              member "intent" (string "charge") (
                member "request" (string "{request}") (
                  member "expires" (string "2030") (
                    member "digest" (string "sha-256=:digest:")
                      (member "opaque" (string "{opaque}") empty)))))))))
      (member "payload" (object (member "preimage" (string digest) empty)) empty))

abbrev platform : Platform
platform = record {
  hmac_base64url = λ secret t. "signature";
  sha256_hex = λ body. digest;
  sha256_base64 = λ body. "digest";
  to_base64url = λ t. if starts_with t "{amount" then "{request}" else "{opaque}";
  from_base64url = λ t. t;
  parse_json = λ t.
      if str_eq t "token"
      then some credential_json
      else if str_eq t "{request}"
      then some request_json
      else some opaque_json;
  quote = λ t. t;
  precedes = λ a b. true;
  upper = λ t. "POST";
  show_number = λ n. "402";
  iso_date = λ at. "2030";
  parse_date = λ t. some 1_000;
}

abbrev made : ChallengeInput
made = record {
  intent_id = "i";
  amount_sats = 402;
  bolt11 = "lnbc1";
  payment_hash = digest;
  realm = "gate";
  target_method = "post";
  target_path = "/a";
  target_body = 1 ∷ [];
  expires_at = 1_000;
  secret = [];
}

verify-create_example :
    verify_gate_payment_credential platform (answer platform made (some "Payment token") 500)
    ≡ valid digest digest
unfolding create_gate_payment_challenge parse_gate_payment_authorization encode_canonical_json
    request_of opaque_of get canonical_json content_digest challenge_id
verify-create_example =
    verify-create platform made digest (some "Payment token") 500 refl refl refl refl refl refl
      (omega arith)

verify_gate_payment_credential-Verified_example :
    Verified platform
      (answer platform made (some "Payment token") 500)
      (verify_gate_payment_credential platform (answer platform made (some "Payment token") 500))
verify_gate_payment_credential-Verified_example =
    verify_gate_payment_credential-Verified platform
      (answer platform made (some "Payment token") 500)
