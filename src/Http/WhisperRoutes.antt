-- ===== src/Http/WhisperRoutes.antt =====
-- src/app.ts, registerWhisperRoutes: the reading of a handoff. `now` gives the clock at each call of
-- the handler, and `others` what other requests do to the table before that call.
pub mod Safety
use the402machine.Base.{
  ℕ, ◌+◌, ◌-◌, ◌/◌, max, String, Bool, true, false, not, Option, none, some, List, [], ◌∷◌,
  if◌then◌else◌, get_or, Result, ok, err,
}
use Prim.Native.String.{◌++◌ as ◌<>◌}
use the402machine.Tokens.{TokenError, CatchTokenRole, verify_token}
use the402machine.Whisper.{Whisper, Availability, get_credential_hash, get_availability, consume}
use the402machine.Http.Exchange.{
  Request, Reply, Served, sent, refused, thrown, not_found, bearer_token, limited,
}

-- The body of an answer: the ciphertext, or when to come back.
pub data WhisperBody : Type 0 where
  ciphertext : List ℕ → WhisperBody
  not_revealed : (reveal_at retry_after_seconds : ℕ) → WhisperBody

-- `credentialHash !== null && verifyToken("owner", bearerToken(request) ?? "", …)`
unfoldable pub holds_token :
    (hmac_hex : (pepper message : String) → String) (pepper : String)
    → Request
    → Option String
    → Result TokenError Bool
holds_token hmac_hex pepper request none = ok false
holds_token hmac_hex pepper request (some credential_hash) =
    verify_token hmac_hex CatchTokenRole.owner (get_or (bearer_token request.authorization) "")
      credential_hash pepper

module _ (hmac_hex : (pepper message : String) → String) (pepper : String) (now : ℕ → ℕ)
    (others : ℕ → List Whisper → List Whisper) where
  abbrev pub deliver : Option (List ℕ) × List Whisper → Reply WhisperBody × List Whisper
  deliver (none, rows) = (not_found, rows)
  deliver (some bytes, rows) = (sent 200 (ciphertext bytes), rows)

  -- `Math.max(1, Math.ceil((revealAt - now) / 1_000))`
  abbrev retry_after : (reveal_at at : ℕ) → ℕ
  retry_after reveal_at at = max 1 ((reveal_at - at + 999) / 1_000)

  unfoldable pub reveal :
      String → Option Availability → List Whisper → Reply WhisperBody × List Whisper
  unfolding consume
  reveal public_id none rows = (not_found, rows)
  reveal public_id (some a) rows =
      if a.is_available
      then deliver (consume (now 4) public_id (others 4 rows))
      else (sent 425 (not_revealed a.reveal_at (retry_after a.reveal_at (now 3))), rows)

  unfoldable pub read_whisper :
      String → Result TokenError Bool → List Whisper → Reply WhisperBody × List Whisper
  unfolding reveal get_availability
  read_whisper public_id (err e) rows = (thrown, rows)
  read_whisper public_id (ok false) rows = (not_found, rows)
  read_whisper public_id (ok true) rows =
      let seen = others 2 rows in reveal public_id (get_availability (now 2) public_id seen) seen

  -- The handler of `GET /w/:publicId` behind its limit.
  unfoldable pub handle_read : Request → String → List Whisper → Reply WhisperBody × List Whisper
  unfolding read_whisper holds_token get_credential_hash
  handle_read request public_id rows =
      let seen = others 1 rows in
      read_whisper public_id
        (holds_token hmac_hex pepper request (get_credential_hash (now 1) public_id seen)) seen

  -- `GET /w/:publicId`
  unfoldable pub get_whisper :
      Request → String → Served (List Whisper) → Reply WhisperBody × Served (List Whisper)
  unfolding limited
  get_whisper request public_id s =
      limited (now 0) (request.ip <> (":" <> public_id)) 30 (handle_read request public_id) s
