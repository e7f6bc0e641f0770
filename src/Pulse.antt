-- ===== src/Pulse.antt =====
-- src/pulse/pulse-repository.ts: the heartbeat monitors, as one table. A timestamp is its
-- milliseconds since 1970. Each operation is one transaction and takes its clock reading.
pub mod Status
pub mod Counts
mod Tests
pub mod Heartbeats
use the402machine.Base.{
  ℕ, ◌+◌, String, Bool, true, false, not, ◌&&◌, Option, none, some, List, [], ◌∷◌, ◌++◌, leb,
  if◌then◌else◌, get_or, length, codes, ltb, str_eq, Result, ok, err,
}
use the402machine.Base.Table
use the402machine.Base.Batch.{clamp_limit, due_keys, update_in}
use the402machine.Domain.Plans.{PlanId}

pub data PulseStatus : Type 0 where
  active exhausted expired manually_destroyed : PulseStatus

pub record Pulse : Type 0 where
  pub id : String
  pub public_id : String
  pub public_status_id : String
  pub plan_id : PlanId
  pub status : PulseStatus
  pub owner_token_hash : Option String
  pub ping_token_hash : Option String
  pub heartbeat_limit : ℕ
  pub heartbeat_count : ℕ
  pub expected_interval_seconds : ℕ
  pub grace_seconds : ℕ
  pub name : String
  pub description : String
  pub public_status_enabled : Bool
  pub last_ping_at : Option ℕ
  pub created_at : ℕ
  pub expires_at : ℕ
  pub exhausted_at : Option ℕ
  pub expired_at : Option ℕ
  pub destroyed_at : Option ℕ
  pub updated_at : ℕ

pub record CreatePulseInput : Type 0 where
  pub public_id : String
  pub public_status_id : String
  pub plan_id : PlanId
  pub owner_token_hash : String
  pub ping_token_hash : String
  pub heartbeat_limit : ℕ
  pub expected_interval_seconds : ℕ
  pub grace_seconds : ℕ
  pub expires_at : ℕ

pub record PulseSettings : Type 0 where
  pub name : String
  pub description : String
  pub expected_interval_seconds : ℕ
  pub grace_seconds : ℕ
  pub public_status_enabled : Bool

pub data PulseReason : Type 0 where
  not_found has_expired is_used_up : PulseReason

pub data AcceptPulseResult : Type 0 where
  accepted : (heartbeat_count last_ping_at : ℕ) (exhausted : Bool) → AcceptPulseResult
  rejected : PulseReason → AcceptPulseResult

pub data PulseError : Type 0 where
  check_violation : PulseError

abbrev between : ℕ → ℕ → ℕ → Bool
between lo hi n = leb lo n && leb n hi

-- The CHECK constraints of migrations/0012_pulse.sql on the columns that a plan or an owner sets;
-- PostgreSQL's `length` counts characters.
abbrev pub is_allowed : Pulse → Bool
is_allowed r =
    leb 1 r.heartbeat_limit
    && between 20 604_800 r.expected_interval_seconds
    && between 60 604_800 r.grace_seconds
    && between 1 80 (length (codes r.name))
    && leb (length (codes r.description)) 240
    && ltb r.created_at r.expires_at

abbrev pub is_active : PulseStatus → Bool
is_active active = true
is_active _ = false

abbrev pub is_exhausted : PulseStatus → Bool
is_exhausted exhausted = true
is_exhausted _ = false

-- `isExpirable`
abbrev pub is_expirable : PulseStatus → Bool
is_expirable active = true
is_expirable exhausted = true
is_expirable _ = false

-- The columns that the insert does not name have the defaults of migrations/0012_pulse.sql.
unfoldable pub new_pulse : ℕ → String → CreatePulseInput → Pulse
new_pulse now id input = record {
  id = id;
  public_id = input.public_id;
  public_status_id = input.public_status_id;
  plan_id = input.plan_id;
  status = active;
  owner_token_hash = some input.owner_token_hash;
  ping_token_hash = some input.ping_token_hash;
  heartbeat_limit = input.heartbeat_limit;
  heartbeat_count = 0;
  expected_interval_seconds = input.expected_interval_seconds;
  grace_seconds = input.grace_seconds;
  name = "Untitled monitor";
  description = "";
  public_status_enabled = false;
  last_ping_at = none;
  created_at = now;
  expires_at = input.expires_at;
  exhausted_at = none;
  expired_at = none;
  destroyed_at = none;
  updated_at = now;
}

unfoldable pub create : ℕ → String → CreatePulseInput → List Pulse → Pulse × List Pulse
create now id input rows = (new_pulse now id input, rows ++ new_pulse now id input ∷ [])

abbrev pub store : Pulse → List Pulse → List Pulse
store = Table.save (λ x. x.id)

-- `lockResource`
abbrev pub lock_resource : String → List Pulse → Option Pulse
lock_resource public_id rows = Table.find (λ r. str_eq r.public_id public_id) rows

unfoldable pub expired_row : ℕ → Pulse → Pulse
expired_row now r = record r {
  status = expired;
  owner_token_hash = none;
  ping_token_hash = none;
  name = "Expired monitor";
  description = "";
  public_status_enabled = false;
  last_ping_at = none;
  expired_at = some (get_or r.expired_at now);
  updated_at = now;
}

-- `expireLockedResource`, called for a row of which `isExpirable` holds.
abbrev pub expire_locked : ℕ → Pulse → List Pulse → List Pulse
expire_locked now r rows = store (expired_row now r) rows

-- `row.is_expired && isExpirable(row.status)`
abbrev pub is_over : ℕ → Pulse → Bool
is_over now r = leb r.expires_at now && is_expirable r.status

read_locked : ℕ → List Pulse → Option Pulse → Option Pulse × List Pulse
read_locked now rows none = (none, rows)
read_locked now rows (some r) =
    if is_over now r then (none, expire_locked now r rows) else (some r, rows)

unfoldable pub get_resource : ℕ → String → List Pulse → Option Pulse × List Pulse
unfolding read_locked
get_resource now public_id rows = read_locked now rows (lock_resource public_id rows)

-- The row with this status id, else, if it is no status id, the row with this public id.
abbrev pub public_row : Bool → String → List Pulse → Option Pulse → Option Pulse
public_row is_status_id key rows (some r) = some r
public_row is_status_id key rows none = if is_status_id then none else lock_resource key rows

-- `starts_with` is the match of `^pulse_status_` on the key.
unfoldable pub get_public_resource :
    (String → Bool) → ℕ → String → List Pulse → Option Pulse × List Pulse
unfolding read_locked
get_public_resource starts_with now key rows =
    read_locked now rows
      (public_row (starts_with key) key rows (Table.find (λ r. str_eq r.public_status_id key) rows))

pub record PulseCredentials : Type 0 where
  pub owner_token_hash : Option String
  pub ping_token_hash : Option String

credentials_of : Option Pulse → Option PulseCredentials
credentials_of none = none
credentials_of (some r) =
    some (record { owner_token_hash = r.owner_token_hash; ping_token_hash = r.ping_token_hash })

unfoldable pub get_credential_hashes :
    ℕ → String → List Pulse → Option PulseCredentials × List Pulse
unfolding credentials_of
get_credential_hashes now public_id rows =
    (credentials_of (get_resource now public_id rows).0, (get_resource now public_id rows).1)

-- The row after a heartbeat.
unfoldable pub beaten_row : ℕ → Pulse → Pulse
beaten_row now r =
    if leb r.heartbeat_limit (r.heartbeat_count + 1)
    then record r {
      heartbeat_count = r.heartbeat_count + 1;
      last_ping_at = some now;
      status = exhausted;
      ping_token_hash = none;
      exhausted_at = some now;
      updated_at = now;
    }
    else record r {
      heartbeat_count = r.heartbeat_count + 1;
      last_ping_at = some now;
      updated_at = now;
    }

refusal : PulseStatus → PulseReason
refusal exhausted = is_used_up
refusal _ = not_found

accept_locked : ℕ → List Pulse → Option Pulse → AcceptPulseResult × List Pulse
unfolding refusal
accept_locked now rows none = (rejected not_found, rows)
accept_locked now rows (some r) =
    if is_over now r
    then (rejected has_expired, expire_locked now r rows)
    else if is_active r.status
    then (
      accepted (r.heartbeat_count + 1) now (leb r.heartbeat_limit (r.heartbeat_count + 1)),
      store (beaten_row now r) rows,
    )
    else (rejected (refusal r.status), rows)

unfoldable pub accept_heartbeat : ℕ → String → List Pulse → AcceptPulseResult × List Pulse
unfolding accept_locked
accept_heartbeat now public_id rows = accept_locked now rows (lock_resource public_id rows)

unfoldable pub settled_row : ℕ → PulseSettings → Pulse → Pulse
settled_row now settings r = record r {
  name = settings.name;
  description = settings.description;
  expected_interval_seconds = settings.expected_interval_seconds;
  grace_seconds = settings.grace_seconds;
  public_status_enabled = settings.public_status_enabled;
  updated_at = now;
}

-- The database refuses a row that breaks a CHECK.
abbrev pub save_checked : Pulse → List Pulse → Result PulseError (Option Pulse × List Pulse)
save_checked r rows = if is_allowed r then ok (some r, store r rows) else err check_violation

update_locked :
    ℕ → PulseSettings → List Pulse → Option Pulse → Result PulseError (Option Pulse × List Pulse)
update_locked now settings rows none = ok (none, rows)
update_locked now settings rows (some r) =
    if is_over now r
    then ok (none, expire_locked now r rows)
    else if is_expirable r.status
    then save_checked (settled_row now settings r) rows
    else ok (none, rows)

unfoldable pub update_settings :
    ℕ → String → PulseSettings → List Pulse → Result PulseError (Option Pulse × List Pulse)
unfolding update_locked
update_settings now public_id settings rows =
    update_locked now settings rows (lock_resource public_id rows)

unfoldable pub destroyed_row : ℕ → Pulse → Pulse
destroyed_row now r = record r {
  status = manually_destroyed;
  owner_token_hash = none;
  ping_token_hash = none;
  destroyed_at = some now;
  updated_at = now;
}

destroy_locked : ℕ → List Pulse → Option Pulse → Bool × List Pulse
destroy_locked now rows none = (false, rows)
destroy_locked now rows (some r) =
    if is_over now r
    then (false, expire_locked now r rows)
    else if is_expirable r.status
    then (true, store (destroyed_row now r) rows)
    else (false, rows)

unfoldable pub destroy : ℕ → String → List Pulse → Bool × List Pulse
unfolding destroy_locked
destroy now public_id rows = destroy_locked now rows (lock_resource public_id rows)

abbrev pub is_due : ℕ → (String → Bool) → Pulse → Bool
is_due now locked r = is_expirable r.status && leb r.expires_at now && not (locked r.id)

-- The columns that the sweep sets: unlike a locked expiry, it overwrites `expired_at`.
unfoldable pub swept_row : ℕ → Pulse → Pulse
unfolding expired_row
swept_row now r = record (expired_row now r) { expired_at = some now }

unfoldable pub expire_due : ℕ → (String → Bool) → ℕ → List Pulse → ℕ × List Pulse
expire_due now locked requested rows =
    let ids =
      due_keys (λ r. r.id) (λ r. r.expires_at) (is_due now locked) (clamp_limit requested) rows in
    (length ids, update_in (λ r. r.id) ids (swept_row now) rows)
