-- ===== src/Payment/Bolt11.antt =====
-- src/payment/bolt11-validation.ts: what is accepted of a decoded Lightning invoice. The decoder and
-- SHA-256 are parameters; a decoded expiry is in seconds.
use the402machine.Base.{
  ℕ, ◌*◌, String, Bool, true, false, not, Option, none, some, leb, ◌==◌, if◌then◌else◌, Result, ok,
  ◌>>=◌, ◌>>◌, throw_if, or_throw,
}
use the402machine.Payment.Order.{same_text}

pub data Network : Type 0 where
  mainnet regtest signet : Network

pub data Bolt11Error : Type 0 where
  not_bolt11 hash_mismatch amount_mismatch description_mismatch : Bolt11Error
  unsupported_network missing_expiry already_expired : Bolt11Error

pub record Decoded : Type 0 where
  pub payment_hash : Option String
  pub satoshis : Option ℕ
  pub purpose_commit_hash : Option String
  pub prefix : String
  pub time_expire_date : Option ℕ

pub record ValidatedBolt11 : Type 0 where
  pub payment_hash : String
  pub amount_sats : ℕ
  pub network : Network
  pub expires_at : ℕ

pub record Validation : Type 0 where
  pub bolt11 : String
  pub expected_payment_hash : String
  pub expected_amount_sats : ℕ
  pub expected_description_hash : Option String

-- `starts_with text prefix` is `text.startsWith(prefix)`.
unfoldable pub network_name : (starts_with : String → String → Bool) → String → Option Network
network_name starts_with prefix =
    if starts_with prefix "lnbcrt"
    then some regtest
    else if starts_with prefix "lntbs"
    then some signet
    else if starts_with prefix "lnbc"
    then some mainnet
    else none

abbrev same_amount : Option ℕ → ℕ → Bool
same_amount none n = false
same_amount (some m) n = m == n

abbrev describes : (digest : String → String) → Option String → Option String → Bool
describes digest none found = true
describes digest (some text) found = same_text found (some (digest text))

unfoldable pub validate_bolt11 :
    (decode : String → Option Decoded)
    → (digest : String → String) → (starts_with : String → String → Bool) → (now : ℕ) → Validation
    → Result Bolt11Error ValidatedBolt11
validate_bolt11 decode digest starts_with now input = do
  invoice ← or_throw (decode input.bolt11) not_bolt11
  throw_if (not (same_text invoice.payment_hash (some input.expected_payment_hash))) hash_mismatch
  throw_if (not (same_amount invoice.satoshis input.expected_amount_sats)) amount_mismatch
  throw_if (not (describes digest input.expected_description_hash invoice.purpose_commit_hash))
      description_mismatch
  network ← or_throw (network_name starts_with invoice.prefix) unsupported_network
  seconds ← or_throw invoice.time_expire_date missing_expiry
  throw_if (leb (seconds * 1_000) now) already_expired
  ok (record {
    payment_hash = input.expected_payment_hash;
    amount_sats = input.expected_amount_sats;
    network = network;
    expires_at = seconds * 1_000;
  })
