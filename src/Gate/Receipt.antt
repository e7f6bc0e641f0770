-- ===== src/Gate/Receipt.antt =====
-- src/gate/gate-receipt.ts: the signed receipt of an authorization. The signature, base64url, the
-- parser and the printer of JSON and the texts of numbers are parameters.
pub mod Bound
use the402machine.Base.{
  ℕ, ◌+◌, ◌*◌, ◌/◌, String, Bool, true, false, not, ◌&&◌, Option, none, some, List, [], ◌∷◌, leb,
  ltb, ◌==◌, if◌then◌else◌, codes, str_eq, Result, ok, err, ◌>>=◌, ◌>>◌, throw_if,
}
use Prim.Native.Char.{code}
use Prim.Native.String.{◌++◌ as ◌<>◌}
use Prim.Native.String
use the402machine.Tokens.{is_sha256_hex}
use the402machine.Json.{Json, string, raw, object, empty, member, get, text_of, hash_of, then_get}
use the402machine.Gate.Credential.{is_base64url}

pub record GateReceiptBinding : Type 0 where
  pub project_id : String
  pub route_id : String
  pub method : String
  pub path : String
  pub body_digest : String
  pub amount_sats : ℕ
  pub payment_hash : String
  pub jti : String

pub record GateReceiptClaims : Type 0 where
  pub iss : String
  pub aud : String
  pub route : String
  pub method : String
  pub path : String
  pub body_sha256 : String
  pub amount_sats : ℕ
  pub payment_hash : String
  pub jti : String
  pub iat : ℕ
  pub exp : ℕ

pub data ReceiptError : Type 0 where
  invalid_key invalid_expiry : ReceiptError

pub data Verification : Type 0 where
  valid : GateReceiptClaims → Verification
  invalid : Verification

pub data KeyType : Type 0 where
  private_key public_key : KeyType

-- `type` and whether `asymmetricKeyType` is `ed25519`, with the key itself.
pub record KeyObject : Type 0 where
  pub type : KeyType
  pub is_ed25519 : Bool
  pub material : List ℕ

-- `safe_integer` reads the text of a number that is a safe integer and not negative: the clock is
-- later than five minutes past 1970, and then the comparisons refuse a negative number as well.
pub record Platform : Type 0 where
  pub to_base64url : String → String
  pub from_base64url : String → String
  pub bytes_base64url : List ℕ → String
  pub base64url_bytes : String → List ℕ
  pub parse_json : String → Option Json
  pub stringify : Json → String
  pub show_number : ℕ → String
  pub safe_integer : String → Option ℕ
  pub upper : String → String
  pub sign : (text : String) → KeyObject → List ℕ
  pub verify : (text : String) → KeyObject → (signature : List ℕ) → Bool

pub record CreateInput : Type 0 where
  pub binding : GateReceiptBinding
  pub issuer : String
  pub private_key : KeyObject
  pub key_id : String
  pub now : ℕ
  pub expires_at : ℕ

pub record VerifyInput : Type 0 where
  pub receipt : String
  pub public_key : KeyObject
  pub issuer : String
  pub key_id : Option String
  pub expected : GateReceiptBinding
  pub now : ℕ

abbrev is_private : KeyType → Bool
is_private private_key = true
is_private public_key = false

abbrev pub is_public : KeyType → Bool
is_public private_key = false
is_public public_key = true

-- `Math.floor(date.getTime() / 1_000)`
abbrev pub seconds : ℕ → ℕ
seconds at = at / 1_000

prepend : String → List String → List String
prepend c [] = c ∷ []
prepend c (s ∷ rest) = (c <> s) ∷ rest

-- `text.split(".")`
unfoldable pub split_dots : String → List String
unfolding prepend
split_dots String.[] = "" ∷ []
split_dots (String.◌∷◌ c s) =
    let rest = split_dots s in if code c == 46 then "" ∷ rest else prepend (String.◌∷◌ c "") rest

module _ (pf : Platform) where
  unfoldable pub encode_json : Json → String
  encode_json value = pf.to_base64url (pf.stringify value)

  header_json : (key_id : String) → Json
  header_json key_id = object (
      member "alg" (string "EdDSA")
        (member "kid" (string key_id) (member "typ" (string "gate+jwt") empty)))

  unfoldable pub claims_of_input : CreateInput → GateReceiptClaims
  claims_of_input input = record {
    iss = input.issuer;
    aud = input.binding.project_id;
    route = input.binding.route_id;
    method = pf.upper input.binding.method;
    path = input.binding.path;
    body_sha256 = input.binding.body_digest;
    amount_sats = input.binding.amount_sats;
    payment_hash = input.binding.payment_hash;
    jti = input.binding.jti;
    iat = seconds input.now;
    exp = seconds input.expires_at;
  }

  claims_json : GateReceiptClaims → Json
  claims_json c = object (
      member "iss" (string c.iss) (
        member "aud" (string c.aud) (
          member "route" (string c.route) (
            member "method" (string c.method) (
              member "path" (string c.path) (
                member "body_sha256" (string c.body_sha256) (
                  member "amount_sats" (raw (pf.show_number c.amount_sats)) (
                    member "payment_hash" (string c.payment_hash) (
                      member "jti" (string c.jti) (
                        member "iat" (raw (pf.show_number c.iat))
                          (member "exp" (raw (pf.show_number c.exp)) empty)))))))))))

  unfoldable pub create_gate_receipt : CreateInput → Result ReceiptError String
  unfolding encode_json header_json claims_json claims_of_input
  create_gate_receipt input = do
    throw_if (not (is_private input.private_key.type && input.private_key.is_ed25519)) invalid_key
    throw_if (leb input.expires_at input.now) invalid_expiry
    let signing_input : String =
        encode_json (header_json input.key_id)
        <> ("." <> encode_json (claims_json (claims_of_input input)))
    ok (signing_input <> ("." <> pf.bytes_base64url (pf.sign signing_input input.private_key)))

  abbrev is_text : String → Option String → Bool
  is_text expected none = false
  is_text expected (some s) = str_eq s expected

  abbrev number_of : Option Json → Option ℕ
  number_of (some (raw t)) = pf.safe_integer t
  number_of _ = none

  -- `isHeader`, with the key's id.
  unfoldable pub header_of : Option Json → Option String
  header_of parsed =
      if is_text "EdDSA" (text_of (then_get parsed "alg"))
        && is_text "gate+jwt" (text_of (then_get parsed "typ"))
      then text_of (then_get parsed "kid")
      else none

  all_claims :
      (iss aud route method path body payment_hash jti : Option String) (amount iat exp : Option ℕ)
      → Option GateReceiptClaims
  all_claims (some i) (some a) (some r) (some m) (some p) (some b) (some h) (some j) (some n)
        (some s) (some e) =
      some (record {
        iss = i;
        aud = a;
        route = r;
        method = m;
        path = p;
        body_sha256 = b;
        amount_sats = n;
        payment_hash = h;
        jti = j;
        iat = s;
        exp = e;
      })
  all_claims _ _ _ _ _ _ _ _ _ _ _ = none

  -- `isClaims`, with the members read.
  unfoldable pub claims_of : Option Json → Option GateReceiptClaims
  unfolding all_claims
  claims_of parsed =
      all_claims (text_of (then_get parsed "iss")) (text_of (then_get parsed "aud"))
        (text_of (then_get parsed "route")) (text_of (then_get parsed "method"))
        (text_of (then_get parsed "path")) (hash_of (text_of (then_get parsed "body_sha256")))
        (hash_of (text_of (then_get parsed "payment_hash"))) (text_of (then_get parsed "jti"))
        (number_of (then_get parsed "amount_sats")) (number_of (then_get parsed "iat"))
        (number_of (then_get parsed "exp"))

  abbrev pub has_key_id : Option String → String → Bool
  has_key_id none kid = true
  has_key_id (some key_id) kid = str_eq kid key_id

  abbrev pub is_timely : ℕ → GateReceiptClaims → Bool
  is_timely now c =
      ltb (seconds now) c.exp
      && leb c.iat (seconds now + 30)
      && ltb c.iat c.exp
      && leb c.exp (c.iat + 5 * 60)

  abbrev pub matches : VerifyInput → GateReceiptClaims → Bool
  matches input c =
      str_eq c.iss input.issuer
      && str_eq c.aud input.expected.project_id
      && str_eq c.route input.expected.route_id
      && str_eq c.method (pf.upper input.expected.method)
      && str_eq c.path input.expected.path
      && str_eq c.body_sha256 input.expected.body_digest
      && str_eq c.payment_hash input.expected.payment_hash
      && str_eq c.jti input.expected.jti
      && (c.amount_sats == input.expected.amount_sats)

  unfoldable pub check_claims :
      VerifyInput
      → (header claims signature : String) → Option String
      → Option GateReceiptClaims
      → Verification
  check_claims input h c s (some kid) (some claims) =
      if has_key_id input.key_id kid
      then if pf.verify (h <> ("." <> c)) input.public_key (pf.base64url_bytes s)
        then if is_timely input.now claims
          then if matches input claims then valid claims else invalid
          else invalid
        else invalid
      else invalid
  check_claims input h c s _ _ = invalid

  unfoldable pub check_segments : VerifyInput → List String → Verification
  unfolding check_claims header_of claims_of
  check_segments input (h ∷ c ∷ s ∷ []) =
      if is_base64url h && is_base64url c && is_base64url s
      then check_claims input h c s (header_of (pf.parse_json (pf.from_base64url h)))
          (claims_of (pf.parse_json (pf.from_base64url c)))
      else invalid
  check_segments input _ = invalid

  unfoldable pub verify_gate_receipt : VerifyInput → Verification
  unfolding check_segments split_dots
  verify_gate_receipt input =
      if is_public input.public_key.type && input.public_key.is_ed25519
      then check_segments input (split_dots input.receipt)
      else invalid
