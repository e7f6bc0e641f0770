-- ===== src/Catch/Model.antt =====
-- The rows of `catch_resources` and `catch_events`, and what the repository takes and returns.
-- Columns that no statement reads (`suspended_at`, `ingest_auth_required`) are left out; a
-- timestamp is its milliseconds since 1970, and a JSON location its text.
use the402machine.Base.{ℕ, ◌+◌, String, Bool, Option, none, some, List, length}
use the402machine.Domain.Plans.{PlanId}
use the402machine.Domain.Lifecycle.{CatchStatus}

pub record Resource : Type 0 where
  pub id : String
  pub public_id : String
  pub plan_id : PlanId
  pub status : CatchStatus
  pub owner_token_hash : Option String
  pub ingest_token_hash : Option String
  pub request_limit : ℕ
  pub storage_limit_bytes : ℕ
  pub max_bytes_per_request : ℕ
  pub accepted_request_count : ℕ
  pub stored_bytes : ℕ
  pub created_at : ℕ
  pub expires_at : ℕ
  pub exhausted_at : Option ℕ
  pub expired_at : Option ℕ
  pub manually_destroyed_at : Option ℕ
  pub deleted_at : Option ℕ
  pub updated_at : ℕ

pub record Event : Type 0 where
  pub id : String
  pub resource_id : String
  pub sequence_number : ℕ
  pub method : String
  pub authenticated : Bool
  pub source_ip : Option String
  pub ip_location : Option String
  pub content_type : String
  pub headers : List (String × String)
  pub body : List ℕ
  pub received_at : ℕ

pub record Db : Type 0 where
  pub resources : List Resource
  pub events : List Event

pub record ProvisionInput : Type 0 where
  pub public_id : String
  pub plan_id : PlanId
  pub owner_token_hash : String
  pub ingest_token_hash : String
  pub request_limit : ℕ
  pub storage_limit_bytes : ℕ
  pub max_bytes_per_request : ℕ
  pub expires_at : ℕ

pub record AcceptEventInput : Type 0 where
  pub public_id : String
  pub method : Option String
  pub authenticated : Option Bool
  pub source_ip : Option String
  pub content_type : String
  pub headers : List (String × String)
  pub body : List ℕ

pub data Reason : Type 0 where
  not_found expired inactive exhausted body_too_large : Reason

pub data AcceptEventResult : Type 0 where
  accepted : (event_id : String) (sequence_number : ℕ) → AcceptEventResult
  rejected : Reason → AcceptEventResult

pub data Error : Type 0 where
  invalid_headers invalid_method illegal_transition : Error

-- What PostgreSQL measures: the octets of the headers' `jsonb` text, of an address and of a
-- location's text. `upper` is JavaScript's `toUpperCase`.
pub record Runtime : Type 0 where
  pub header_bytes : List (String × String) → ℕ
  pub address_bytes : String → ℕ
  pub location_bytes : String → ℕ
  pub upper : String → String

abbrev measured : (String → ℕ) → Option String → ℕ
measured f none = 0
measured f (some s) = f s

-- `catch_event_stored_bytes(headers, body, source_ip, ip_location)`
unfoldable pub event_bytes : Runtime → Event → ℕ
event_bytes rt e =
    length e.body
    + rt.header_bytes e.headers
    + measured rt.address_bytes e.source_ip
    + measured rt.location_bytes e.ip_location
