-- ===== src/Domain/Plans.antt =====
-- src/domain/catch-plans.ts, whisper-plans.ts, pulse-plans.ts and the prices of
-- src/payment/payment-domain.ts. A date is its milliseconds since 1970, `none` the invalid date.
use the402machine.Base.{
  ℕ, ◌+◌, ◌*◌, Bool, true, false, ◌&&◌, Option, none, some, ltb, leb, if◌then◌else◌, Result, ok,
  ◌>>=◌, ◌>>◌, throw_if, or_throw,
}

pub data PlanId : Type 0 where
  spark standard long : PlanId

pub data DateError : Type 0 where
  invalid_date reveal_too_early reveal_too_late : DateError

pub data CatchPlanDuration : Type 0 where
  fixed : (seconds : ℕ) → CatchPlanDuration
  calendar : (months days : ℕ) → CatchPlanDuration

pub record CatchPlan : Type 0 where
  pub duration : CatchPlanDuration
  pub request_limit : ℕ
  pub storage_limit_bytes : ℕ
  pub max_bytes_per_request : ℕ
  pub available : Bool

abbrev pub catch_plans : PlanId → CatchPlan
catch_plans spark = record {
  duration = fixed 14_520;
  request_limit = 402;
  storage_limit_bytes = 2 * 1_024 * 1_024;
  max_bytes_per_request = 64 * 1_024;
  available = true;
}
catch_plans standard = record {
  duration = fixed 3_463_200;
  request_limit = 4_020;
  storage_limit_bytes = 20 * 1_024 * 1_024;
  max_bytes_per_request = 256 * 1_024;
  available = true;
}
catch_plans long = record {
  duration = calendar 4 2;
  request_limit = 40_200;
  storage_limit_bytes = 200 * 1_024 * 1_024;
  max_bytes_per_request = 1_024 * 1_024;
  available = true;
}

pub record WhisperPlan : Type 0 where
  pub duration_seconds : ℕ
  pub read_limit : ℕ
  pub max_ciphertext_bytes : ℕ
  pub available : Bool

abbrev pub max_whisper_ciphertext_bytes : ℕ
max_whisper_ciphertext_bytes = 4_215_276

abbrev whisper_plan : ℕ → ℕ → WhisperPlan
whisper_plan days reads = record {
  duration_seconds = days * 24 * 60 * 60;
  read_limit = reads;
  max_ciphertext_bytes = max_whisper_ciphertext_bytes;
  available = true;
}

abbrev pub whisper_plans : PlanId → WhisperPlan
whisper_plans spark = whisper_plan 7 1
whisper_plans standard = whisper_plan 42 42
whisper_plans long = whisper_plan 402 402

-- A number is a natural number here: `Number.isInteger` and the lower bound refuse all others.
abbrev pub is_whisper_read_limit : PlanId → ℕ → Bool
is_whisper_read_limit p value = leb 1 value && leb value (whisper_plans p).read_limit

unfoldable pub calculate_whisper_expiry : PlanId → Option ℕ → Result DateError ℕ
calculate_whisper_expiry p activated_at = do
  at ← or_throw activated_at invalid_date
  ok (at + (whisper_plans p).duration_seconds * 1_000)

pub record Schedule : Type 0 where
  pub reveal_at : ℕ
  pub expires_at : ℕ

-- The requested date is absent (`none`), or a date that may be invalid.
abbrev requested : ℕ → Option (Option ℕ) → Option ℕ
requested purchased none = some purchased
requested purchased (some d) = d

-- `revealAt < purchasedAt - 60 s`, with the minute on the other side.
abbrev too_early : ℕ → Option (Option ℕ) → ℕ → Bool
too_early purchased none reveal = false
too_early purchased (some _) reveal = ltb (reveal + 60 * 1_000) purchased

-- `expiresAt - revealAt < 1 h`, where the difference may be negative.
unfoldable pub calculate_whisper_schedule :
    PlanId → Option ℕ → Option (Option ℕ) → Result DateError Schedule
unfolding calculate_whisper_expiry
calculate_whisper_schedule p purchased_at requested_reveal_at = do
  purchased ← or_throw purchased_at invalid_date
  expires ← calculate_whisper_expiry p purchased_at
  reveal ← or_throw (requested purchased requested_reveal_at) invalid_date
  throw_if (too_early purchased requested_reveal_at reveal) reveal_too_early
  let shown = if ltb reveal purchased then purchased else reveal
  throw_if (ltb expires (shown + 60 * 60 * 1_000)) reveal_too_late
  ok (record { reveal_at = shown; expires_at = expires })

pub record PulsePlan : Type 0 where
  pub duration_seconds : ℕ
  pub heartbeat_limit : ℕ
  pub suggested_cadence_seconds : ℕ
  pub minimum_grace_seconds : ℕ
  pub available : Bool

abbrev pub pulse_plans : PlanId → PulsePlan
pulse_plans spark = record {
  duration_seconds = 4 * 24 * 60 * 60 + 2 * 60 * 60;
  heartbeat_limit = 1_202;
  suggested_cadence_seconds = 5 * 60;
  minimum_grace_seconds = 10 * 60;
  available = true;
}
pulse_plans standard = record {
  duration_seconds = 42 * 24 * 60 * 60;
  heartbeat_limit = 61_402;
  suggested_cadence_seconds = 60;
  minimum_grace_seconds = 2 * 60;
  available = true;
}
pulse_plans long = record {
  duration_seconds = 402 * 24 * 60 * 60;
  heartbeat_limit = 1_740_402;
  suggested_cadence_seconds = 20;
  minimum_grace_seconds = 60;
  available = true;
}

unfoldable pub calculate_pulse_expiry : PlanId → Option ℕ → Result DateError ℕ
calculate_pulse_expiry p activated_at = do
  at ← or_throw activated_at invalid_date
  ok (at + (pulse_plans p).duration_seconds * 1_000)

unfoldable pub valid_pulse_schedule : PlanId → ℕ → ℕ → Bool
valid_pulse_schedule p interval grace =
    leb plan.suggested_cadence_seconds interval
    && leb interval (7 * 24 * 60 * 60)
    && leb plan.minimum_grace_seconds grace
    && leb grace (7 * 24 * 60 * 60)
  where
    plan : PulsePlan
    plan = pulse_plans p

-- `priceForProduct`: every product has the prices of CATCH.
pub data Product : Type 0 where
  catch whisper pulse : Product

abbrev pub catch_prices_sats : PlanId → ℕ
catch_prices_sats spark = 42
catch_prices_sats standard = 402
catch_prices_sats long = 4_002

unfoldable pub price_for_product : Product → PlanId → ℕ
price_for_product product p = catch_prices_sats p
