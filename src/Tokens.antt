-- ===== src/Tokens.antt =====
-- src/security/tokens.ts and src/security/pulse-tokens.ts: the bearer tokens. The HMAC, in
-- hexadecimal, and the base64url text of the random bytes are parameters.
pub mod RoundTrip
mod Tests
use the402machine.Base.{
  ℕ, ◌+◌, ◌-◌, ◌*◌, String, Bool, true, false, not, ◌&&◌, ◌||◌, List, [], ◌∷◌, leb, if◌then◌else◌,
  ◌==◌, length, all, codes, str_eq, Result, ok, err, ◌>>=◌, ◌>>◌, throw_if, ◌≡◌, ◌≢◌, refl, arith,
  Bool-cases, inl, inr,
}
use Prim.Native.String.{◌++◌ as ◌<>◌, len, slice}
use text.Mathlib.Text.{starts_with}

pub data TokenError : Type 0 where
  empty_pepper : TokenError

pub data CatchTokenRole : Type 0 where
  ingest owner : CatchTokenRole

abbrev pub token_prefix : CatchTokenRole → String
token_prefix ingest = "catch_ing_"
token_prefix owner = "catch_own_"

abbrev between : ℕ → ℕ → ℕ → Bool
between lo hi c = leb lo c && leb c hi

-- `[a-f0-9]`
abbrev is_hex_digit : ℕ → Bool
is_hex_digit c = between 97 102 c || between 48 57 c

-- `[A-Za-z0-9_-]`
abbrev is_token_character : ℕ → Bool
is_token_character c =
    between 65 90 c || between 97 122 c || between 48 57 c || (c == 95) || (c == 45)

-- `SHA256_HEX_PATTERN` and `HASH`
abbrev pub is_sha256_hex : String → Bool
is_sha256_hex text = length (codes text) == 64 && all is_hex_digit (codes text)

-- `TOKEN_PAYLOAD_PATTERN` and `PAYLOAD`
abbrev pub is_token_payload : String → Bool
is_token_payload text = length (codes text) == 43 && all is_token_character (codes text)

-- `text.slice(prefix.length)` of a text that starts with the prefix.
abbrev pub after_prefix : String → String → String
after_prefix prefix text = slice text (len prefix) (len text)

abbrev digit_value : ℕ → ℕ
digit_value c = if leb 97 c then c - 87 else c - 48

-- `Buffer.from(text, "hex")`, of digits.
unfoldable pub from_hex : List ℕ → List ℕ
from_hex [] = []
from_hex (a ∷ []) = []
from_hex (a ∷ b ∷ rest) = (digit_value a * 16 + digit_value b) ∷ from_hex rest

-- `timingSafeEqual`, of two buffers of one length.
unfoldable pub timing_safe_equal : List ℕ → List ℕ → Bool
timing_safe_equal [] [] = true
timing_safe_equal (a ∷ xs) (b ∷ ys) = (a == b) && timing_safe_equal xs ys
timing_safe_equal _ _ = false

abbrev pub role_name : CatchTokenRole → String
role_name ingest = "ingest"
role_name owner = "owner"

-- `payload` is the base64url text of the 32 random bytes.
unfoldable pub generate_token : CatchTokenRole → (payload : String) → String
generate_token role payload = token_prefix role <> payload

abbrev pub require_pepper : String → Result TokenError (Unit {0})
require_pepper pepper = throw_if (len pepper == 0) empty_pepper

module _ (hmac_hex : (pepper message : String) → String) where
  unfoldable pub hash_token : CatchTokenRole → (token pepper : String) → Result TokenError String
  hash_token role token pepper =
      require_pepper pepper >> ok (hmac_hex pepper (role_name role <> ("\0" <> token)))

  unfoldable pub verify_token :
      CatchTokenRole → (token expected_hash pepper : String) → Result TokenError Bool
  unfolding hash_token timing_safe_equal from_hex
  verify_token role token expected_hash pepper =
      require_pepper pepper
      >> (if not (starts_with token (token_prefix role))
            || not (is_token_payload (after_prefix (token_prefix role) token))
          then ok false
          else if not (is_sha256_hex expected_hash)
          then ok false
          else hash_token role token pepper >>= λ actual.
              ok (timing_safe_equal (from_hex (codes actual)) (from_hex (codes expected_hash))))

pub data PulseTokenRole : Type 0 where
  owner ping : PulseTokenRole

abbrev pub pulse_prefix : PulseTokenRole → String
pulse_prefix PulseTokenRole.owner = "pulse_own_"
pulse_prefix ping = "pulse_ping_"

abbrev pulse_role_name : PulseTokenRole → String
pulse_role_name PulseTokenRole.owner = "owner"
pulse_role_name ping = "ping"

unfoldable pub generate_pulse_token : PulseTokenRole → (payload : String) → String
generate_pulse_token role payload = pulse_prefix role <> payload

module _ (hmac_hex : (pepper message : String) → String) where
  unfoldable pub hash_pulse_token :
      PulseTokenRole → (token pepper : String) → Result TokenError String
  hash_pulse_token role token pepper =
      require_pepper pepper
      >> ok (hmac_hex pepper ("pulse:" <> (pulse_role_name role <> ("\0" <> token))))

  -- The pepper is only looked at when the token and the hash have the right form.
  unfoldable pub verify_pulse_token :
      PulseTokenRole → (token expected_hash pepper : String) → Result TokenError Bool
  unfolding hash_pulse_token timing_safe_equal from_hex
  verify_pulse_token role token expected_hash pepper =
      if not (starts_with token (pulse_prefix role))
        || not (is_token_payload (after_prefix (pulse_prefix role) token))
        || not (is_sha256_hex expected_hash)
      then ok false
      else hash_pulse_token role token pepper >>= λ actual.
          ok (timing_safe_equal (from_hex (codes actual)) (from_hex (codes expected_hash)))
