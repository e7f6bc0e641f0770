-- ===== src/Pulse/Status.antt =====
-- src/pulse/pulse-contract.ts: what a monitor shows, and the settings that its owner may store.
use the402machine.Base.{
  ℕ, ◌+◌, ◌-◌, ◌*◌, ◌≤◌, String, Bool, true, false, ◌||◌, not, Option, none, some, leb, ltb,
  if◌then◌else◌, get_or, ◌≡◌, inl, inr, subst, Bool-cases, arith,
}
use the402machine.Domain.Plans.{PlanId, valid_pulse_schedule}
use the402machine.Pulse

pub data DisplayState : Type 0 where
  waiting operational late exhausted expired : DisplayState

-- `expired` and `manually_destroyed` rows have ended.
abbrev pub has_ended : Pulse.PulseStatus → Bool
has_ended Pulse.expired = true
has_ended Pulse.manually_destroyed = true
has_ended _ = false

abbrev pub state_since : ℕ → ℕ → Option ℕ → DisplayState
state_since window now none = waiting
state_since window now (some at) = if ltb (at + window) now then late else operational

unfoldable pub pulse_state : Pulse.Pulse → ℕ → DisplayState
pulse_state r now =
    if has_ended r.status || leb r.expires_at now
    then expired
    else if Pulse.is_exhausted r.status
    then exhausted
    else state_since ((r.expected_interval_seconds + r.grace_seconds) * 1_000) now r.last_ping_at

pub record PublicPulseStatus : Type 0 where
  pub name : String
  pub description : String
  pub state : DisplayState
  pub last_ping_at : Option ℕ

unfoldable pub public_pulse_status : Pulse.Pulse → ℕ → PublicPulseStatus
public_pulse_status r now = record {
  name = r.name;
  description = r.description;
  state = pulse_state r now;
  last_ping_at = r.last_ping_at;
}

-- The body of a settings request, once parsed: a member that is absent is `none`.
pub record SettingsBody : Type 0 where
  pub name : Option String
  pub description : Option String
  pub expected_interval_seconds : Option ℕ
  pub grace_seconds : Option ℕ
  pub public_status_enabled : Option Bool

-- The settings, if they are within the bounds.
abbrev checked : (size : String → ℕ) → PlanId → Pulse.PulseSettings → Option Pulse.PulseSettings
checked size plan s =
    if ltb (size s.name) 1
      || ltb 80 (size s.name)
      || ltb 240 (size s.description)
      || not (valid_pulse_schedule plan s.expected_interval_seconds s.grace_seconds)
    then none
    else some s

-- `trim` and `size` are the platform's string functions.
unfoldable pub parse_pulse_settings :
    (trim : String → String)
    → (size : String → ℕ) → SettingsBody
    → Pulse.Pulse
    → Option Pulse.PulseSettings
parse_pulse_settings trim size body current = checked size current.plan_id (record {
  name = trim (get_or body.name current.name);
  description = trim (get_or body.description current.description);
  expected_interval_seconds =
      get_or body.expected_interval_seconds current.expected_interval_seconds;
  grace_seconds = get_or body.grace_seconds current.grace_seconds;
  public_status_enabled = get_or body.public_status_enabled current.public_status_enabled;
})

schedule_bounds :
    (p : PlanId) (interval grace : ℕ)
    → valid_pulse_schedule p interval grace ≡ true
    → (20 ≤ interval) × (interval ≤ 604_800) × (60 ≤ grace) × (grace ≤ 604_800)
unfolding valid_pulse_schedule
schedule_bounds PlanId.spark interval grace h = ground arith
schedule_bounds PlanId.standard interval grace h = ground arith
schedule_bounds PlanId.long interval grace h = ground arith

abbrev pub WithinBounds : (size : String → ℕ) → Pulse.PulseSettings → Type 0
WithinBounds size s =
    (1 ≤ size s.name)
    × (size s.name ≤ 80)
    × (size s.description ≤ 240)
    × (20 ≤ s.expected_interval_seconds)
    × (s.expected_interval_seconds ≤ 604_800)
    × (60 ≤ s.grace_seconds)
    × (s.grace_seconds ≤ 604_800)

checked_bounds :
    (size : String → ℕ) (plan : PlanId) (s out : Pulse.PulseSettings)
    → checked size plan s ≡ some out
    → WithinBounds size out
checked_bounds size plan s out h =
    elim (Bool-cases (valid_pulse_schedule plan s.expected_interval_seconds s.grace_seconds)) [
      | inl t ↦
          let b = schedule_bounds plan s.expected_interval_seconds s.grace_seconds t in
          let same : (s ≡ out)
              × (1 ≤ size s.name)
              × (size s.name ≤ 80)
              × (size s.description ≤ 240) =
            ground arith in
          subst (WithinBounds size) same.0 (same.1, same.2, same.3, b.0, b.1, b.2, b.3)
      | inr t ↦ absurd (ground arith)
    ]

-- Stored settings keep the migration's bounds: a name of 1 to 80 characters, a description of at
-- most 240, an interval of 20 seconds to 7 days and a grace period of 1 minute to 7 days.
pub parse_pulse_settings-bounds :
    (trim : String → String) (size : String → ℕ) (body : SettingsBody) (current : Pulse.Pulse)
    (settings : Pulse.PulseSettings)
    → parse_pulse_settings trim size body current ≡ some settings
    → WithinBounds size settings
unfolding parse_pulse_settings
parse_pulse_settings-bounds trim size body current settings h =
    checked_bounds size current.plan_id _ settings h

pub record OwnerPulseStatus : Type 0 where
  pub shown : PublicPulseStatus
  pub public_id : String
  pub public_status_id : String
  pub plan_id : PlanId
  pub status : Pulse.PulseStatus
  pub heartbeat_limit : ℕ
  pub heartbeat_count : ℕ
  pub heartbeats_remaining : ℕ
  pub expected_interval_seconds : ℕ
  pub grace_seconds : ℕ
  pub public_status_enabled : Bool
  pub created_at : ℕ
  pub expires_at : ℕ

-- `Math.max(0, limit - count)` is the subtraction on the natural numbers.
unfoldable pub owner_pulse_status : Pulse.Pulse → ℕ → OwnerPulseStatus
owner_pulse_status r now = record {
  shown = public_pulse_status r now;
  public_id = r.public_id;
  public_status_id = r.public_status_id;
  plan_id = r.plan_id;
  status = r.status;
  heartbeat_limit = r.heartbeat_limit;
  heartbeat_count = r.heartbeat_count;
  heartbeats_remaining = r.heartbeat_limit - r.heartbeat_count;
  expected_interval_seconds = r.expected_interval_seconds;
  grace_seconds = r.grace_seconds;
  public_status_enabled = r.public_status_enabled;
  created_at = r.created_at;
  expires_at = r.expires_at;
}
