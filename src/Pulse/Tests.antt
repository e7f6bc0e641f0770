-- ===== src/Pulse/Tests.antt =====
-- Monitors at concrete inputs.
use the402machine.Base.{
  ℕ, ◌<◌, String, Bool, true, false, none, some, List, [], ◌∷◌, All, ◌≡◌, refl, arith,
}
use the402machine.Base.Batch.{clamp_limit, due_keys}
use the402machine.Domain.Plans.{PlanId, valid_pulse_schedule}
use the402machine.Pulse.{
  Pulse, CreatePulseInput, PulseSettings, accepted, new_pulse, accept_heartbeat, beaten_row, is_due,
  expire_due,
}
use the402machine.Pulse.Counts.{
  AllConsistent, Call, creates, beats, destroys, run, IsAllowedCall, run-AllConsistent,
}
use the402machine.Pulse.Heartbeats.{Counted, accept_heartbeat-Counted, expire_due_complete}
use the402machine.Pulse.Status.{
  pulse_state, late, SettingsBody, parse_pulse_settings, WithinBounds, parse_pulse_settings-bounds,
}

abbrev input : CreatePulseInput
input = record {
  public_id = "pulse_a";
  public_status_id = "pulse_status_a";
  plan_id = PlanId.spark;
  owner_token_hash = "owner";
  ping_token_hash = "ping";
  heartbeat_limit = 2;
  expected_interval_seconds = 300;
  grace_seconds = 600;
  expires_at = 10_000_000;
}

abbrev rows : List Pulse
rows = new_pulse 50 "id-a" input ∷ []

calls : List Call
calls =
    creates 50 "id-a" input
    ∷ beats 60 "pulse_a"
    ∷ beats 70 "pulse_a"
    ∷ beats 80 "pulse_a"
    ∷ destroys 90 "pulse_a"
    ∷ []

limits : All IsAllowedCall calls
unfolding calls new_pulse
limits = (refl, (tt, (tt, (tt, (tt, tt)))))

consistent : AllConsistent rows
unfolding new_pulse
consistent = (
  record {
    within = omega arith;
    room = λ e. omega arith;
    full = λ e. cc;
    owner_held = refl;
    ping_held = refl;
    allowed = refl;
  },
  tt,
)

first_beat : (accept_heartbeat 60 "pulse_a" rows).0 ≡ accepted 1 60 false
unfolding accept_heartbeat new_pulse
first_beat = refl

run-AllConsistent_example : AllConsistent (run [] calls)
run-AllConsistent_example = run-AllConsistent calls [] limits tt

accept_heartbeat-Counted_example : Counted 60 "pulse_a" rows (accept_heartbeat 60 "pulse_a" rows)
accept_heartbeat-Counted_example = accept_heartbeat-Counted 60 "pulse_a" rows (tt, tt) consistent

abbrev unlocked : String → Bool
unlocked id = false

few : (expire_due 20_000_000 unlocked 100 rows).0 < clamp_limit 100
unfolding expire_due new_pulse due_keys
few = omega arith

expire_due_complete_example :
    All (λ r. is_due 20_000_000 unlocked r ≡ false) (expire_due 20_000_000 unlocked 100 rows).1
expire_due_complete_example = expire_due_complete 20_000_000 unlocked 100 rows few

abbrev pinged : Pulse
pinged = beaten_row 60 (new_pulse 50 "id-a" input)

shown_late : pulse_state pinged 1_000_000 ≡ late
unfolding pulse_state beaten_row new_pulse
shown_late = refl

abbrev body : SettingsBody
body = record {
  name = some "Backup";
  description = none;
  expected_interval_seconds = some 3_600;
  grace_seconds = none;
  public_status_enabled = some true;
}

abbrev settings : PulseSettings
settings = record {
  name = "Backup";
  description = "";
  expected_interval_seconds = 3_600;
  grace_seconds = 600;
  public_status_enabled = true;
}

abbrev same : String → String
same s = s

abbrev six : String → ℕ
six s = 6

parsed : parse_pulse_settings same six body pinged ≡ some settings
unfolding parse_pulse_settings beaten_row new_pulse valid_pulse_schedule
parsed = refl

parse_pulse_settings-bounds_example : WithinBounds six settings
parse_pulse_settings-bounds_example =
    parse_pulse_settings-bounds same six body pinged settings parsed
