-- ===== src/Http/PulseRoutes.antt =====
-- src/app.ts, registerPulseRoutes: the heartbeats, the public status and the owner's calls. `now`
-- gives the clock at each call of a handler, and `others` what other requests do to the table
-- before that call.
pub mod Safety
use the402machine.Base.{
  ℕ, String, Bool, true, false, not, ◌||◌, Option, none, some, List, [], ◌∷◌, if◌then◌else◌, leb,
  get_or, Result, ok, err,
}
use Prim.Native.String.{◌++◌ as ◌<>◌}
use the402machine.Tokens.{TokenError, PulseTokenRole, verify_pulse_token}
use the402machine.Pulse.{
  Pulse, PulseCredentials, PulseSettings, PulseError, AcceptPulseResult, accepted, rejected,
  get_resource, get_public_resource, get_credential_hashes, accept_heartbeat, update_settings,
  destroy,
}
use the402machine.Pulse.Status.{
  SettingsBody, PublicPulseStatus, OwnerPulseStatus, public_pulse_status, owner_pulse_status,
  parse_pulse_settings, has_ended,
}
use the402machine.Http.Exchange.{
  Request, Reply, Served, sent, no_content, refused, thrown, not_found, bearer_token, limited,
  owner_route,
}

abbrev pub owner_hash : Option PulseCredentials → Option String
owner_hash none = none
owner_hash (some c) = c.owner_token_hash

abbrev pub ping_hash : Option PulseCredentials → Option String
ping_hash none = none
ping_hash (some c) = c.ping_token_hash

module _ (hmac_hex : (pepper message : String) → String) (pepper : String) (now : ℕ → ℕ)
    (others : ℕ → List Pulse → List Pulse) where
  -- The test of the bearer token against a hash, where there is one.
  unfoldable pub verified : PulseTokenRole → Request → Option String → Result TokenError Bool
  verified role request none = ok false
  verified role request (some hash) =
      verify_pulse_token hmac_hex role (get_or (bearer_token request.authorization) "") hash pepper

  abbrev pub answer_heartbeat : AcceptPulseResult × List Pulse → Reply (Unit {0}) × List Pulse
  answer_heartbeat (accepted heartbeats at exhausted, rows) = (no_content, rows)
  answer_heartbeat (rejected reason, rows) = (not_found, rows)

  unfoldable pub count_heartbeat :
      String → Result TokenError Bool → List Pulse → Reply (Unit {0}) × List Pulse
  unfolding accept_heartbeat
  count_heartbeat public_id (err e) rows = (thrown, rows)
  count_heartbeat public_id (ok false) rows = (not_found, rows)
  count_heartbeat public_id (ok true) rows =
      answer_heartbeat (accept_heartbeat (now 2) public_id (others 2 rows))

  -- The handler of `POST /p/:publicId` behind its limit.
  unfoldable pub handle_heartbeat : Request → String → List Pulse → Reply (Unit {0}) × List Pulse
  unfolding count_heartbeat verified get_credential_hashes
  handle_heartbeat request public_id rows =
      let found = get_credential_hashes (now 1) public_id (others 1 rows) in
      count_heartbeat public_id (verified PulseTokenRole.ping request (ping_hash found.0)) found.1

  -- `POST /p/:publicId`
  unfoldable pub post_heartbeat :
      Request → String → Served (List Pulse) → Reply (Unit {0}) × Served (List Pulse)
  unfolding limited
  post_heartbeat request public_id s =
      limited (now 0) (request.ip <> (":" <> public_id)) 120 (handle_heartbeat request public_id) s

  show_public : Option Pulse → Reply PublicPulseStatus
  show_public none = not_found
  show_public (some r) =
      if not r.public_status_enabled || leb r.expires_at (now 2) || has_ended r.status
      then not_found
      else sent 200 (public_pulse_status r (now 3))

  -- `GET /api/pulse/public/:publicStatusId`
  unfoldable pub get_public_status :
      (is_status_id : String → Bool) → String → List Pulse → Reply PublicPulseStatus × List Pulse
  unfolding show_public get_public_resource
  get_public_status is_status_id public_status_id rows =
      let found = get_public_resource is_status_id (now 1) public_status_id (others 1 rows) in
      (show_public found.0, found.1)

  unfoldable pub authorize_pulse_owner :
      Request → String → List Pulse → Result TokenError Bool × List Pulse
  unfolding verified get_credential_hashes
  authorize_pulse_owner request public_id rows =
      let found = get_credential_hashes (now 1) public_id (others 1 rows) in
      (verified PulseTokenRole.owner request (owner_hash found.0), found.1)

  show_owner : ℕ → Option Pulse → Reply OwnerPulseStatus
  show_owner at none = not_found
  show_owner at (some r) = sent 200 (owner_pulse_status r at)

  unfoldable pub handle_get : String → List Pulse → Reply OwnerPulseStatus × List Pulse
  unfolding show_owner get_resource
  handle_get public_id rows =
      let found = get_resource (now 2) public_id (others 2 rows) in
      (show_owner (now 3) found.0, found.1)

  -- `GET /api/pulse/:publicId`
  unfoldable pub get_pulse :
      Request → String → Served (List Pulse) → Reply OwnerPulseStatus × Served (List Pulse)
  unfolding owner_route handle_get authorize_pulse_owner
  get_pulse request public_id s =
      owner_route (now 0) request (authorize_pulse_owner request public_id) (handle_get public_id) s

  answer_update :
      List Pulse
      → Result PulseError (Option Pulse × List Pulse)
      → Reply OwnerPulseStatus × List Pulse
  unfolding show_owner
  answer_update rows (err e) = (thrown, rows)
  answer_update rows (ok (updated, left)) = (show_owner (now 4) updated, left)

  unfoldable pub store_settings :
      String → Option PulseSettings → List Pulse → Reply OwnerPulseStatus × List Pulse
  unfolding answer_update update_settings
  store_settings public_id none rows = (refused 400 "invalid settings", rows)
  store_settings public_id (some settings) rows =
      answer_update (others 3 rows) (update_settings (now 3) public_id settings (others 3 rows))

  unfoldable pub change_settings :
      (trim : String → String)
      → (size : String → ℕ) → SettingsBody
      → String
      → Option Pulse × List Pulse
      → Reply OwnerPulseStatus × List Pulse
  unfolding store_settings parse_pulse_settings
  change_settings trim size body public_id (none, rows) = (not_found, rows)
  change_settings trim size body public_id (some current, rows) =
      store_settings public_id (parse_pulse_settings trim size body current) rows

  unfoldable pub handle_patch :
      (trim : String → String)
      → (size : String → ℕ) → SettingsBody
      → String
      → List Pulse
      → Reply OwnerPulseStatus × List Pulse
  unfolding change_settings get_resource
  handle_patch trim size body public_id rows =
      change_settings trim size body public_id (get_resource (now 2) public_id (others 2 rows))

  -- `PATCH /api/pulse/:publicId`, of a parsed body.
  unfoldable pub patch_pulse :
      (trim : String → String)
      → (size : String → ℕ) → SettingsBody
      → Request
      → String
      → Served (List Pulse)
      → Reply OwnerPulseStatus × Served (List Pulse)
  unfolding owner_route handle_patch authorize_pulse_owner
  patch_pulse trim size body request public_id s =
      owner_route (now 0) request (authorize_pulse_owner request public_id)
        (handle_patch trim size body public_id) s

  unfoldable pub handle_delete : String → List Pulse → Reply (Unit {0}) × List Pulse
  unfolding destroy
  handle_delete public_id rows =
      let destroyed = destroy (now 2) public_id (others 2 rows) in
      (if destroyed.0 then no_content else not_found, destroyed.1)

  -- `DELETE /api/pulse/:publicId`
  unfoldable pub delete_pulse :
      Request → String → Served (List Pulse) → Reply (Unit {0}) × Served (List Pulse)
  unfolding owner_route handle_delete authorize_pulse_owner
  delete_pulse request public_id s =
      owner_route (now 0) request (authorize_pulse_owner request public_id)
        (handle_delete public_id) s
