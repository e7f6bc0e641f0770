-- ===== src/Gate/ReceiptTests.antt =====
-- A receipt at concrete values, on a platform whose texts are easy to read.
use the402machine.Base.{String, true, some, [], if◌then◌else◌, str_eq, ok, ◌≡◌, refl}
use the402machine.Json.{Json, string, raw, object, empty, member, get}
use the402machine.Gate.Receipt.{
  GateReceiptBinding, Platform, private_key, public_key, VerifyInput, valid, claims_of_input,
  create_gate_receipt, verify_gate_receipt,
}
use the402machine.Gate.Receipt.Bound.{Accepted, verify_gate_receipt-Accepted}

abbrev digest : String
digest = "aaaaaaaaaaaaaaaaaaaaaaaaaaaaaaaaaaaaaaaaaaaaaaaaaaaaaaaaaaaaaaaa"

abbrev header : Json
header = object (
    member "alg" (string "EdDSA")
      (member "kid" (string "key") (member "typ" (string "gate+jwt") empty)))

abbrev claims : Json
claims = object (
    member "iss" (string "issuer") (
      member "aud" (string "project") (
        member "route" (string "route") (
          member "method" (string "POST") (
            member "path" (string "/a") (
              member "body_sha256" (string digest) (
                member "amount_sats" (raw "402") (
                  member "payment_hash" (string digest) (
                    member "jti" (string "id")
                      (member "iat" (raw "5") (member "exp" (raw "100") empty)))))))))))

abbrev platform : Platform
platform = record {
  to_base64url = λ t. t;
  from_base64url = λ t. t;
  bytes_base64url = λ bytes. "signature";
  base64url_bytes = λ t. [];
  parse_json = λ t. if str_eq t "header" then some header else some claims;
  stringify = λ j. "text";
  show_number = λ n. "402";
  safe_integer =
      λ t. if str_eq t "402" then some 402 else if str_eq t "5" then some 5 else some 100;
  upper = λ t. "POST";
  sign = λ t key. [];
  verify = λ t key signature. str_eq t "header.claims";
}

abbrev binding : GateReceiptBinding
binding = record {
  project_id = "project";
  route_id = "route";
  method = "post";
  path = "/a";
  body_digest = digest;
  amount_sats = 402;
  payment_hash = digest;
  jti = "id";
}

abbrev input : VerifyInput
input = record {
  receipt = "header.claims.signature";
  public_key = record { type = public_key; is_ed25519 = true; material = [] };
  issuer = "issuer";
  key_id = some "key";
  expected = binding;
  now = 50_999;
}

created :
    create_gate_receipt platform (record {
      binding = binding;
      issuer = "issuer";
      private_key = record { type = private_key; is_ed25519 = true; material = [] };
      key_id = "key";
      now = 5_000;
      expires_at = 100_000;
    })
    ≡ ok "text.text.signature"
unfolding create_gate_receipt
created = refl

accepted :
    verify_gate_receipt platform input
    ≡ valid (
        claims_of_input platform (record {
          binding = binding;
          issuer = "issuer";
          private_key = record { type = private_key; is_ed25519 = true; material = [] };
          key_id = "key";
          now = 5_000;
          expires_at = 100_000;
        }))
unfolding verify_gate_receipt claims_of_input get
accepted = refl

verify_gate_receipt-Accepted_example : Accepted platform input (verify_gate_receipt platform input)
verify_gate_receipt-Accepted_example = verify_gate_receipt-Accepted platform input
