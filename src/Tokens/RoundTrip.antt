-- ===== src/Tokens/RoundTrip.antt =====
-- src/security/tokens.ts and src/security/pulse-tokens.ts: which tokens are accepted.
use the402machine.Base.{
  ℕ, String, true, false, List, [], ◌∷◌, ◌==◌, ok, ◌>>=◌, ◌≡◌, ◌≢◌, refl, ◌∙◌, ap, arith,
}
use Prim.Native.String.{◌++◌ as ◌<>◌, len, slice}
use text.Mathlib.Text.{starts_with}
use text.Mathlib.TextPositions.{
  starts_with_of_prefix, slice-append_right, slice-append_left, len-append,
}
use the402machine.Tokens.{
  CatchTokenRole, ingest, owner, token_prefix, is_sha256_hex, is_token_payload, after_prefix,
  timing_safe_equal, generate_token, hash_token, verify_token,
}

timing_safe_equal_refl : (xs : List ℕ) → timing_safe_equal xs xs ≡ true
unfolding timing_safe_equal
timing_safe_equal_refl [] = refl
timing_safe_equal_refl (x ∷ xs) = ground (arith, timing_safe_equal_refl xs)

after_prefix-append : (prefix payload : String) → after_prefix prefix (prefix <> payload) ≡ payload
after_prefix-append prefix payload =
    ap (slice (prefix <> payload) (len prefix)) (len-append prefix payload)
    ∙ slice-append_right prefix payload

starts-append : (prefix payload : String) → starts_with (prefix <> payload) prefix ≡ true
starts-append prefix payload = starts_with_of_prefix prefix (prefix <> payload) (payload, refl)

module _ (hmac_hex : (pepper message : String) → String) where
  -- A generated token of either role is accepted against its own hash, when the pepper is not
  -- empty, the random payload is 43 base64url characters and the HMAC is 64 hexadecimal digits.
  pub verify_token-hash_token :
      (role : CatchTokenRole) (payload pepper : String)
      → len pepper ≢ 0
      → is_token_payload payload ≡ true
      → ((message : String) → is_sha256_hex (hmac_hex pepper message) ≡ true)
      → (hash_token hmac_hex role (generate_token role payload) pepper >>= λ hash.
          verify_token hmac_hex role (generate_token role payload) hash pepper)
        ≡ ok true
  unfolding verify_token hash_token generate_token
  verify_token-hash_token role payload pepper some_pepper form digits =
      let peppered : (len pepper == 0) ≡ false = ground arith in
      rw
        (
          peppered,
          starts-append (token_prefix role) payload,
          after_prefix-append (token_prefix role) payload,
          form,
          digits,
          timing_safe_equal_refl,
        )
        refl

  -- No token of one role is ever accepted for the other, whatever hash it is checked against.
  pub verify_token-other :
      (role other : CatchTokenRole) (payload expected_hash pepper : String)
      → role ≢ other
      → len pepper ≢ 0
      → verify_token hmac_hex other (generate_token role payload) expected_hash pepper ≡ ok false
  unfolding verify_token generate_token
  verify_token-other ingest ingest payload expected_hash pepper n h = absurd (n refl)
  verify_token-other owner owner payload expected_hash pepper n h = absurd (n refl)
  verify_token-other ingest owner payload expected_hash pepper n h =
      let peppered : (len pepper == 0) ≡ false = ground arith in
      rw (peppered, slice-append_left "catch_ing_" payload) refl
  verify_token-other owner ingest payload expected_hash pepper n h =
      let peppered : (len pepper == 0) ≡ false = ground arith in
      rw (peppered, slice-append_left "catch_own_" payload) refl
