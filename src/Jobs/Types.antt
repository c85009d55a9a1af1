-- ===== src/Jobs/Types.antt =====
-- The records of crates/symbiotic-queue/src/jobs.rs: what a job store keeps, takes and answers. A
-- `Vec<u8>` is the list of its bytes, a date a number of milliseconds.
use symbiotic_foundation.Base.{
  ℕ, ◌+◌, ◌*◌, ◌^◌, String, Bool, true, false, ◌&&◌, Option, none, some, List, length, ltb, ◌==◌,
  nat_eq, string_eq, if◌then◌else◌,
}
use symbiotic_foundation.Core.Diagnostics.{DiagnosticCode}

pub record JobScope : Type 0 where
  pub tenant : String
  pub incarnation : String
  pub queue : String

pub record JobId : Type 0 where
  pub scope : JobScope
  pub id : String

pub record JobConfig : Type 0 where
  pub version : ℕ
  pub max_batch : ℕ
  pub max_page : ℕ
  pub max_page_bytes : ℕ
  pub max_result_bytes : ℕ
  pub max_live_jobs : ℕ
  pub max_pending_bytes : ℕ
  pub delivery_lease_seconds : ℕ
  pub claim_lease_seconds : ℕ
  pub retention_seconds : ℕ
  pub maintenance_batch : ℕ
  pub maintenance_bytes_per_pass : ℕ

abbrev pub default_jobs : JobConfig
default_jobs = record {
  version = 1;
  max_batch = 64;
  max_page = 64;
  max_page_bytes = 1024 * 1024;
  max_result_bytes = 16 * 1024 * 1024;
  max_live_jobs = 1024;
  max_pending_bytes = 16 * 1024 * 1024;
  delivery_lease_seconds = 30;
  claim_lease_seconds = 30;
  retention_seconds = 7 * 24 * 60 * 60;
  maintenance_batch = 64;
  maintenance_bytes_per_pass = 16 * 1024 * 1024;
}

pub data Execution : Type 0 where
  handler model : Execution

pub record JobSpec : Type 0 where
  pub key : String
  pub group : Option String
  pub owners : List String
  pub kind : String
  pub execution : Execution
  pub payload : List ℕ
  pub admission : Option (List ℕ)
  pub max_attempts : ℕ
  pub recovery_until : Option ℕ

pub data JobState : Type 0 where
  pending awaiting_admission running uncertain succeeded failed cancelled refused purged accepted
        discarded :
      JobState

unfoldable pub is_unfinished : JobState → Bool
is_unfinished pending = true
is_unfinished awaiting_admission = true
is_unfinished running = true
is_unfinished uncertain = true
is_unfinished _ = false

unfoldable pub is_acked : JobState → Bool
is_acked accepted = true
is_acked discarded = true
is_acked _ = false

pub data ResultOrigin : Type 0 where
  paid handler : ResultOrigin

pub record JobRecord : Type 0 where
  pub id : JobId
  pub key : String
  pub digest : String
  pub group : Option String
  pub owners : List String
  pub kind : String
  pub execution : Execution
  pub state : JobState
  pub final_state : Option JobState
  pub payload : Option (List ℕ)
  pub admission : Option (List ℕ)
  pub max_attempts : ℕ
  pub generation : ℕ
  pub lease_until : Option ℕ
  pub cancel_requested : Bool
  pub purged : Bool
  pub output : Option (List ℕ)
  pub output_bytes : ℕ
  pub origin : Option ResultOrigin
  pub receipt : Option String
  pub recovery_until : Option ℕ
  pub result_expired : Bool
  pub created_at : ℕ
  pub finished_at : Option ℕ
  pub delivery_generation : ℕ
  pub delivery_until : Option ℕ
  pub diagnostic : Option DiagnosticCode

pub data Enqueued : Type 0 where
  inserted joined : JobId → Enqueued
  already_done : JobRecord → Enqueued

pub data Disposition : Type 0 where
  accepted discarded : Disposition

pub record DeliveryToken : Type 0 where
  pub job : JobId
  pub generation : ℕ

pub record Delivery : Type 0 where
  pub completion : JobRecord
  pub token : DeliveryToken

pub data AckResult : Type 0 where
  acked already_acked : Disposition → AckResult

pub record JobDiagnostic : Type 0 where
  pub id : JobId
  pub state : JobState
  pub code : Option DiagnosticCode

pub record DiagnosticPage : Type 0 where
  pub items : List JobDiagnostic
  pub after : Option String

pub data Selector : Type 0 where
  ids : List JobId → Selector
  of_group : String → Selector

pub record PendingUsage : Type 0 where
  pub items : ℕ
  pub bytes : ℕ

pub data JobResolution : Type 0 where
  uncertain known_zero_charge : (receipt : String) → JobResolution
  paid_result : (receipt : String) (recovery_until : Option ℕ) → JobResolution
  failed : (receipt : String) (diagnostic : DiagnosticCode) → JobResolution

pub data JobRequest : Type 0 where
  await_admission : JobId → JobRequest
  admit : (job : JobId) (admission : List ℕ) → JobRequest
  admission_notices : (after : Option String) (limit : ℕ) → JobRequest
  enqueue : List JobSpec → JobRequest
  claim : (kinds : List String) (slots_available : ℕ) → JobRequest
  candidates : (kinds : List String) (limit max_bytes : ℕ) → JobRequest
  claim_job : JobId → JobRequest
  claim_paid : (job : JobId) (receipt : String) → JobRequest
  refuse_pending : (job : JobId) (diagnostic : DiagnosticCode) → JobRequest
  recovery_candidates :
      (kinds : List String) (after : Option String) (limit max_bytes : ℕ) → JobRequest
  heartbeat : (job : JobId) (generation : ℕ) → JobRequest
  complete :
      (job : JobId) (generation : ℕ) (state : JobState) (origin : ResultOrigin)
      (output : Option (List ℕ)) (receipt : Option String) (diagnostic : Option DiagnosticCode)
      → JobRequest
  resolve : (job : JobId) (generation : ℕ) (resolution : JobResolution) → JobRequest
  completions : (limit max_bytes : ℕ) → JobRequest
  ack : List (DeliveryToken × Disposition) → JobRequest
  cancel : Selector → JobRequest
  purge_owner : String → JobRequest
  read_diagnostics : (group : String) (after : Option String) (limit : ℕ) → JobRequest
  maintain : JobRequest
  status : JobId → JobRequest
  get_job : JobId → JobRequest
  pending_usage : JobRequest

pub data JobResponse : Type 0 where
  enqueued : List Enqueued → JobResponse
  job : Option JobRecord → JobResponse
  candidates : List JobRecord → JobResponse
  deliveries : List Delivery → JobResponse
  acks : List AckResult → JobResponse
  changed : ℕ → JobResponse
  diagnostics : DiagnosticPage → JobResponse
  usage : PendingUsage → JobResponse
  heartbeat : Bool → JobResponse
  done : JobResponse
  result_refused : (bytes : ℕ) → JobResponse

pub data JobError : Type 0 where
  scope not_found key_conflict queue_full : JobError
  completion_too_large result_too_large candidate_too_large : (job : JobId) (bytes : ℕ) → JobError
  invalid_request authority_expired stale_claim not_final unavailable : JobError
  execution : DiagnosticCode → JobError
  storage : JobError

abbrev pub same_id : JobId → JobId → Bool
same_id a b =
    a.scope.tenant == b.scope.tenant
    && a.scope.incarnation == b.scope.incarnation
    && a.scope.queue == b.scope.queue
    && a.id == b.id

-- `Result<T, JobError>`
pub data Stored (A : Type 0) : Type 0 where
  ok : A → Stored A
  err : JobError → Stored A

-- `JobRecord::attempt`
abbrev pub attempt_of : JobRecord → ℕ
attempt_of row = row.generation

abbrev pub length_of : Option (List ℕ) → ℕ
length_of none = 0
length_of (some bytes) = length bytes

-- `usize::checked_add`
abbrev pub checked_add : ℕ → ℕ → Stored ℕ
checked_add m n = if ltb (m + n) (2 ^ 64) then ok (m + n) else err storage

abbrev pub add_admission : JobRecord → Stored ℕ → Stored ℕ
add_admission row (err e) = err e
add_admission row (ok bytes) = checked_add bytes (length_of row.admission)

abbrev pub add_payload : JobRecord → Stored ℕ → Stored ℕ
add_payload row (err e) = err e
add_payload row (ok metadata) = checked_add metadata (length_of row.payload)

-- `encoded` is serde_json's count of the bytes of the record's metadata.
unfoldable pub job_input_bytes : (JobRecord → Stored ℕ) → JobRecord → Stored ℕ
job_input_bytes encoded row =
    if is_unfinished row.state then add_admission row (add_payload row (encoded row)) else ok 0
