-- ===== src/Whisper.antt =====
-- src/whisper/whisper-repository.ts: the encrypted handoffs, as one table. A timestamp is its
-- milliseconds since 1970, and a ciphertext its bytes.
pub mod Reads
mod Tests
use the402machine.Base.{
  ℕ, ◌+◌, String, Bool, true, false, not, ◌&&◌, Option, none, some, List, [], ◌∷◌, ◌++◌, leb,
  if◌then◌else◌, length, str_eq,
}
use the402machine.Base.Table
use the402machine.Base.Batch.{clamp_limit, due_keys, update_in}
use the402machine.Domain.Plans.{PlanId}

pub data WhisperStatus : Type 0 where
  active consumed expired : WhisperStatus

pub record Whisper : Type 0 where
  pub id : String
  pub public_id : String
  pub plan_id : PlanId
  pub status : WhisperStatus
  pub read_token_hash : Option String
  pub ciphertext : Option (List ℕ)
  pub read_limit : ℕ
  pub read_count : ℕ
  pub whisper_reveal_at : ℕ
  pub created_at : ℕ
  pub expires_at : ℕ
  pub consumed_at : Option ℕ
  pub expired_at : Option ℕ
  pub updated_at : ℕ

pub record CreateWhisperInput : Type 0 where
  pub public_id : String
  pub plan_id : PlanId
  pub read_token_hash : String
  pub ciphertext : List ℕ
  pub read_limit : ℕ
  pub reveal_at : ℕ
  pub expires_at : ℕ

abbrev pub is_active : WhisperStatus → Bool
is_active active = true
is_active _ = false

unfoldable pub new_whisper : ℕ → String → CreateWhisperInput → Whisper
new_whisper now id input = record {
  id = id;
  public_id = input.public_id;
  plan_id = input.plan_id;
  status = active;
  read_token_hash = some input.read_token_hash;
  ciphertext = some input.ciphertext;
  read_limit = input.read_limit;
  read_count = 0;
  whisper_reveal_at = input.reveal_at;
  created_at = now;
  expires_at = input.expires_at;
  consumed_at = none;
  expired_at = none;
  updated_at = now;
}

-- Returns the id and the public id of the new row.
unfoldable pub create :
    ℕ → String → CreateWhisperInput → List Whisper → (String × String) × List Whisper
create now id input rows = ((id, input.public_id), rows ++ new_whisper now id input ∷ [])

-- `where public_id = … and status = 'active' and clock_timestamp() < expires_at`
abbrev open_at : ℕ → String → Whisper → Bool
open_at now public_id r =
    str_eq r.public_id public_id && is_active r.status && not (leb r.expires_at now)

hash_of : Option Whisper → Option String
hash_of none = none
hash_of (some r) = r.read_token_hash

unfoldable pub get_credential_hash : ℕ → String → List Whisper → Option String
unfolding hash_of
get_credential_hash now public_id rows = hash_of (Table.find (open_at now public_id) rows)

pub record Availability : Type 0 where
  pub is_available : Bool
  pub reveal_at : ℕ
  pub read_count : ℕ
  pub read_limit : ℕ

availability_of : ℕ → Option Whisper → Option Availability
availability_of now none = none
availability_of now (some r) = some (record {
  is_available = leb r.whisper_reveal_at now;
  reveal_at = r.whisper_reveal_at;
  read_count = r.read_count;
  read_limit = r.read_limit;
})

unfoldable pub get_availability : ℕ → String → List Whisper → Option Availability
unfolding availability_of
get_availability now public_id rows = availability_of now (Table.find (open_at now public_id) rows)

unfoldable pub expired_row : ℕ → Whisper → Whisper
expired_row now r = record r {
  status = expired;
  ciphertext = none;
  read_token_hash = none;
  expired_at = some now;
  updated_at = now;
}

unfoldable pub read_row : ℕ → Whisper → Whisper
read_row now r =
    if leb r.read_limit (r.read_count + 1)
    then record r {
      status = consumed;
      read_count = r.read_limit;
      ciphertext = none;
      read_token_hash = none;
      consumed_at = some now;
      updated_at = now;
    }
    else record r { read_count = r.read_count + 1; updated_at = now }

abbrev pub readable : ℕ → String → Whisper → Bool
readable now public_id r =
    str_eq r.public_id public_id && is_active r.status && leb r.whisper_reveal_at now

abbrev pub store : Whisper → List Whisper → List Whisper
store = Table.save (λ x. x.id)

unfoldable pub consume_locked : ℕ → List Whisper → Option Whisper → Option (List ℕ) × List Whisper
unfolding expired_row read_row
consume_locked now rows none = (none, rows)
consume_locked now rows (some r) =
    if leb r.expires_at now
    then (none, store (expired_row now r) rows)
    else (r.ciphertext, store (read_row now r) rows)

unfoldable pub consume : ℕ → String → List Whisper → Option (List ℕ) × List Whisper
consume now public_id rows = consume_locked now rows (Table.find (readable now public_id) rows)

abbrev pub is_due : ℕ → (String → Bool) → Whisper → Bool
is_due now locked r = is_active r.status && leb r.expires_at now && not (locked r.id)

unfoldable pub expire_due : ℕ → (String → Bool) → ℕ → List Whisper → ℕ × List Whisper
expire_due now locked requested rows =
    let ids =
      due_keys (λ r. r.id) (λ r. r.expires_at) (is_due now locked) (clamp_limit requested) rows in
    (length ids, update_in (λ r. r.id) ids (expired_row now) rows)
