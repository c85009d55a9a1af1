-- ===== src/Queue/Types.antt =====
-- The vocabulary of crates/symbiotic-queue/src/lib.rs. `V` is the JSON payload, which the queue
-- only carries; a `DateTime<Utc>` is the number of nanoseconds since the earliest one.
use symbiotic_foundation.Base.{ℕ, String, Bool, Option}
use symbiotic_foundation.Core.Diagnostics.{DiagnosticCode, FailureClass}

pub data QueueStatus : Type 0 where
  pending running succeeded failed dead stopped : QueueStatus

pub record QueuePolicy : Type 0 where
  pub queue_id : String
  pub max_in_flight : ℕ
  pub lease_seconds : ℕ
  pub max_attempts : ℕ

pub record EnqueueRequest (V : Type 0) : Type 0 where
  pub queue_id : String
  pub kind : String
  pub payload : V
  pub idempotency_key : Option String
  pub run_after : Option ℕ
  pub max_attempts : Option ℕ
  pub force : Bool

pub data EnqueueDisposition : Type 0 where
  inserted active_duplicate terminal_duplicate : EnqueueDisposition

pub record QueueItem (V : Type 0) : Type 0 where
  pub item_id : String
  pub queue_id : String
  pub kind : String
  pub payload : V
  pub status : QueueStatus
  pub attempt : ℕ
  pub max_attempts : ℕ
  pub run_after : ℕ
  pub lease_owner : Option String
  pub lease_until : Option ℕ
  pub idempotency_key : Option String
  pub last_error : Option DiagnosticCode
  pub last_error_class : Option FailureClass
  pub created_at : ℕ
  pub updated_at : ℕ

pub record EnqueueOutcome (V : Type 0) : Type 0 where
  pub item : QueueItem V
  pub disposition : EnqueueDisposition

pub record ClaimRequest : Type 0 where
  pub queue_id : String
  pub worker_id : String
  pub limit : ℕ
  pub lease_seconds : ℕ
  pub max_in_flight : Option ℕ

pub record QueueEvent : Type 0 where
  pub item_id : String
  pub queue_id : String
  pub kind : String
  pub status : QueueStatus
  pub attempt : ℕ
  pub timestamp : ℕ
  pub error : Option DiagnosticCode

pub record Failure : Type 0 where
  pub error : DiagnosticCode
  pub error_class : Option FailureClass
  pub run_after : Option ℕ

pub data FailOutcome : Type 0 where
  retry_scheduled moved_to_dead stopped : FailOutcome

pub data QueueError : Type 0 where
  not_found lease_mismatch not_running unavailable invalid_request storage :
      DiagnosticCode → QueueError

unfoldable pub error_code : QueueError → DiagnosticCode
error_code (not_found code) = code
error_code (lease_mismatch code) = code
error_code (not_running code) = code
error_code (unavailable code) = code
error_code (invalid_request code) = code
error_code (storage code) = code
