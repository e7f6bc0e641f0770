-- ===== src/Http/Tests.antt =====
-- The routes at concrete inputs.
use the402machine.Base.{
  ℕ, ◌+◌, ◌≤◌, String, true, none, some, List, [], ◌∷◌, length, ◌≡◌, refl, arith,
}
use the402machine.Domain.Plans.{PlanId}
use the402machine.Tokens.{verify_token, verify_pulse_token}
use the402machine.Whisper
use the402machine.Whisper.Reads.{AllSound}
use the402machine.Pulse
use the402machine.Pulse.Counts.{AllConsistent}
use the402machine.Pulse.Status.{SettingsBody}
use the402machine.Http.RateLimit.{
  RateLimitBucket, max_rate_limit_buckets, consume_rate_limit, evict, make_room, count_request,
}
use the402machine.Http.RateLimit.Size.{consume_rate_limit-bounded}
use the402machine.Http.RateLimit.Quota.{passed, passed-limited}
use the402machine.Http.Exchange.{Request, Served, sent, no_content, bearer_token, outcome}
use the402machine.Http.WhisperRoutes.{ciphertext, get_whisper, handle_read}
use the402machine.Http.WhisperRoutes.Safety.{
  Delivers, Spared, alone, get_whisper-Delivers, get_whisper-Spared,
}
use the402machine.Http.PulseRoutes.{
  get_pulse, patch_pulse, delete_pulse, handle_heartbeat, post_heartbeat,
}
use the402machine.Http.PulseRoutes.Safety.{Beats, OwnedPulse, owner-OwnerOnly, post_heartbeat-Beats}

abbrev opened : RateLimitBucket
opened = record { name = "1.2.3.4"; count = 1; resets_at = 60_000 }

abbrev history : List (ℕ × String)
history =
    (10, "1.2.3.4") ∷ (20, "5.6.7.8") ∷ (30, "1.2.3.4") ∷ (40, "1.2.3.4") ∷ (50, "1.2.3.4") ∷ []

-- Of four more requests two pass, since the limit is 3.
two_pass : passed "1.2.3.4" 3 60_000 history (opened ∷ []) ≡ 2
unfolding passed consume_rate_limit make_room evict count_request
two_pass = refl

consume_rate_limit-bounded_example :
    length (consume_rate_limit 10 (opened ∷ []) "5.6.7.8" 3 60_000).1 ≤ max_rate_limit_buckets
consume_rate_limit-bounded_example =
    consume_rate_limit-bounded 10 (opened ∷ []) "5.6.7.8" 3 60_000 (omega arith)

passed-limited_example : passed "1.2.3.4" 3 60_000 history (opened ∷ []) + 1 ≤ 3
passed-limited_example =
    passed-limited "1.2.3.4" 3 60_000 history (opened ∷ []) opened refl (omega arith)
      (omega arith, (omega arith, (omega arith, (omega arith, (omega arith, tt))))) (omega arith)

abbrev digest : String
digest = "aaaaaaaaaaaaaaaaaaaaaaaaaaaaaaaaaaaaaaaaaaaaaaaaaaaaaaaaaaaaaaaa"

abbrev hmac_hex : String → String → String
hmac_hex pepper message = digest

abbrev request : String → Request
request token = record {
  ip = "1.2.3.4";
  method = "GET";
  authorization = some token;
  content_type = none;
  content_encoding = none;
  headers = [];
  body = none;
}

abbrev reader : Request
reader = request "Bearer catch_own_bbbbbbbbbbbbbbbbbbbbbbbbbbbbbbbbbbbbbbbbbbb"

abbrev clock : ℕ → ℕ
clock n = 200 + n

abbrev handoff : Whisper.CreateWhisperInput
handoff = record {
  public_id = "whisper_a";
  plan_id = PlanId.standard;
  read_token_hash = digest;
  ciphertext = 1 ∷ 2 ∷ 3 ∷ [];
  read_limit = 2;
  reveal_at = 100;
  expires_at = 1_000;
}

abbrev handoffs : Served (List Whisper.Whisper)
handoffs = record { rate_limits = []; tables = Whisper.new_whisper 50 "id-a" handoff ∷ [] }

sound : AllSound handoffs.tables
unfolding Whisper.new_whisper
sound = (record { held = refl; guarded = refl; room = λ e. omega arith; within = omega arith }, tt)

delivered :
    (get_whisper hmac_hex "pepper" clock alone reader "whisper_a" handoffs).0
    ≡ sent 200 (ciphertext (1 ∷ 2 ∷ 3 ∷ []))
unfolding get_whisper handle_read Whisper.new_whisper verify_token bearer_token
    Whisper.consume_locked
delivered = refl

get_whisper-Delivers_example :
    Delivers hmac_hex "pepper" clock alone reader "whisper_a" handoffs.tables
      (outcome (get_whisper hmac_hex "pepper" clock alone reader "whisper_a" handoffs))
get_whisper-Delivers_example =
    get_whisper-Delivers hmac_hex "pepper" clock alone (λ n rows d. d) (λ n rows h. h) reader
      "whisper_a" handoffs (tt, tt) sound

get_whisper-Spared_example :
    Spared handoffs.tables (
      outcome (get_whisper hmac_hex "pepper" clock alone (request "Bearer x") "whisper_a" handoffs))
get_whisper-Spared_example =
    get_whisper-Spared hmac_hex "pepper" clock (request "Bearer x") "whisper_a" handoffs (tt, tt)
      sound

abbrev monitor : Pulse.CreatePulseInput
monitor = record {
  public_id = "pulse_a";
  public_status_id = "pulse_status_a";
  plan_id = PlanId.spark;
  owner_token_hash = digest;
  ping_token_hash = digest;
  heartbeat_limit = 2;
  expected_interval_seconds = 300;
  grace_seconds = 600;
  expires_at = 10_000_000;
}

abbrev monitors : Served (List Pulse.Pulse)
monitors = record { rate_limits = []; tables = Pulse.new_pulse 50 "id-a" monitor ∷ [] }

consistent : AllConsistent monitors.tables
unfolding Pulse.new_pulse
consistent = (
  record {
    within = omega arith;
    room = λ e. omega arith;
    full = λ e. cc;
    owner_held = refl;
    ping_held = refl;
    allowed = refl;
  },
  tt,
)

abbrev pinger : Request
pinger = request "Bearer pulse_ping_bbbbbbbbbbbbbbbbbbbbbbbbbbbbbbbbbbbbbbbbbbb"

abbrev undisturbed : ℕ → List Pulse.Pulse → List Pulse.Pulse
undisturbed n rows = rows

pinged :
    (post_heartbeat hmac_hex "pepper" clock undisturbed pinger "pulse_a" monitors).0 ≡ no_content
unfolding post_heartbeat handle_heartbeat Pulse.get_resource Pulse.new_pulse verify_pulse_token
    bearer_token
pinged = refl

post_heartbeat-Beats_example :
    Beats hmac_hex "pepper" clock undisturbed pinger "pulse_a" monitors.tables
      (outcome (post_heartbeat hmac_hex "pepper" clock undisturbed pinger "pulse_a" monitors))
post_heartbeat-Beats_example =
    post_heartbeat-Beats hmac_hex "pepper" clock undisturbed (λ n rows d. d) (λ n rows h. h) pinger
      "pulse_a" monitors (tt, tt) consistent

abbrev body : SettingsBody
body = record {
  name = some "Backup";
  description = none;
  expected_interval_seconds = some 3_600;
  grace_seconds = none;
  public_status_enabled = some true;
}

abbrev same : String → String
same s = s

abbrev six : String → ℕ
six s = 6

abbrev owner_request : Request
owner_request = request "Bearer pulse_own_bbbbbbbbbbbbbbbbbbbbbbbbbbbbbbbbbbbbbbbbbbb"

owner-OwnerOnly_example :
    OwnedPulse hmac_hex "pepper" clock undisturbed owner_request "pulse_a" monitors.tables
      (outcome (get_pulse hmac_hex "pepper" clock undisturbed owner_request "pulse_a" monitors))
    × OwnedPulse hmac_hex "pepper" clock undisturbed owner_request "pulse_a" monitors.tables (
        outcome (
          patch_pulse hmac_hex "pepper" clock undisturbed same six body owner_request "pulse_a"
            monitors))
    × OwnedPulse hmac_hex "pepper" clock undisturbed owner_request "pulse_a" monitors.tables (
        outcome (delete_pulse hmac_hex "pepper" clock undisturbed owner_request "pulse_a" monitors))
owner-OwnerOnly_example =
    owner-OwnerOnly hmac_hex "pepper" clock undisturbed same six body owner_request "pulse_a"
      monitors
