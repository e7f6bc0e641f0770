-- ===== src/Tokens/Tests.antt =====
-- Tokens at concrete inputs.
use the402machine.Base.{String, true, false, ◌≡◌, refl, arith, ok, ◌>>=◌}
use the402machine.Tokens.{ingest, owner, generate_token, hash_token, verify_token}
use the402machine.Tokens.RoundTrip.{verify_token-hash_token, verify_token-other}

abbrev hmac_hex : String → String → String
hmac_hex pepper message = "0123456789abcdef0123456789abcdef0123456789abcdef0123456789abcdef"

abbrev payload : String
payload = "abcdefghijklmnopqrstuvwxyzABCDEFGHIJKLMNO-_"

-- A cut payload, and one with a character that base64url does not have.
too_short : verify_token hmac_hex owner "catch_own_abc" (hmac_hex "" "") "pepper" ≡ ok false
unfolding verify_token
too_short = refl

verify_token-hash_token_example :
    (hash_token hmac_hex owner (generate_token owner payload) "pepper" >>= λ hash.
    verify_token hmac_hex owner (generate_token owner payload) hash "pepper")
    ≡ ok true
verify_token-hash_token_example =
    verify_token-hash_token hmac_hex owner payload "pepper" (λ e. omega arith) refl (λ m. refl)

verify_token-other_example :
    verify_token hmac_hex ingest (generate_token owner payload) (hmac_hex "" "") "pepper" ≡ ok false
verify_token-other_example =
    verify_token-other hmac_hex owner ingest payload (hmac_hex "" "") "pepper" (λ e. cc)
      (λ e. omega arith)
