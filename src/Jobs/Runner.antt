-- ===== src/Jobs/Runner.antt =====
-- `Shared::execute` and `Shared::observe_heartbeat` of crates/symbiotic-queue/src/runner.rs. What the
-- handler and the store do while a claim runs is a `Run`, in the order in which `select!` sees it.
use symbiotic_foundation.Base.{
  ℕ, zero, suc, ◌+◌, String, Bool, true, false, ◌&&◌, ◌||◌, Option, none, some, List, [], ◌∷◌, ltb,
  length, ◌==◌, nat_eq, string_eq, if◌then◌else◌,
}
use symbiotic_foundation.Core.Diagnostics.{DiagnosticCode, diagnostic_code, queue_failure}
use symbiotic_foundation.Jobs.Types.{
  JobScope, JobId, same_id, Execution, JobState, succeeded, failed, ResultOrigin, JobRecord,
  JobRequest, heartbeat, complete, JobResponse, done, result_refused, JobError, scope, not_found,
  key_conflict, queue_full, completion_too_large, result_too_large, candidate_too_large,
  invalid_request, authority_expired, stale_claim, not_final, unavailable, execution, storage,
  JobConfig, Stored, ok, err,
}

mutual
  pub data RunnerError : Type 0 where
    store : JobError → RunnerError
    monitoring : (cause : JobError) (count : ℕ) → RunnerError
    handler_panicked : JobId → RunnerError
    worker_task : RunnerError
    workers : RunnerErrors → RunnerError

  -- `Vec<RunnerError>`
  pub data RunnerErrors : Type 0 where
    no_errors : RunnerErrors
    error : RunnerError → RunnerErrors → RunnerErrors

abbrev pub push : RunnerErrors → RunnerError → RunnerErrors
push no_errors e = error e no_errors
push (error x xs) e = error x (push xs e)

abbrev pub is_none : RunnerErrors → Bool
is_none no_errors = true
is_none (error _ _) = false

-- The derived `PartialEq` of `JobError`: the variant, and the fields that it has.
abbrev pub variant : JobError → ℕ
variant scope = 0
variant not_found = 1
variant key_conflict = 2
variant queue_full = 3
variant (completion_too_large _ _) = 4
variant (result_too_large _ _) = 5
variant (candidate_too_large _ _) = 6
variant invalid_request = 7
variant authority_expired = 8
variant stale_claim = 9
variant not_final = 10
variant unavailable = 11
variant (execution _) = 12
variant storage = 13

abbrev no_scope : JobScope
no_scope = record { tenant = ""; incarnation = ""; queue = "" }

abbrev pub job_of : JobError → JobId
job_of (completion_too_large job _) = job
job_of (result_too_large job _) = job
job_of (candidate_too_large job _) = job
job_of _ = record { scope = no_scope; id = "" }

abbrev pub bytes_of : JobError → ℕ
bytes_of (completion_too_large _ bytes) = bytes
bytes_of (result_too_large _ bytes) = bytes
bytes_of (candidate_too_large _ bytes) = bytes
bytes_of _ = 0

abbrev pub code_of : JobError → String
code_of (execution code) = diagnostic_code code
code_of _ = ""

unfoldable pub same_error : JobError → JobError → Bool
same_error a b =
    variant a == variant b
    && same_id (job_of a) (job_of b)
    && bytes_of a == bytes_of b
    && code_of a == code_of b

-- One more failure with this cause: counted where the cause has an entry, added where it has none.
unfoldable pub note : RunnerErrors → JobError → RunnerErrors
note no_errors e = error (monitoring e 1) no_errors
note (error (monitoring cause count) xs) e =
    let rest = note xs e in
    if same_error cause e
    then error (monitoring cause (count + 1)) xs
    else error (monitoring cause count) rest
note (error (store x) xs) e = error (store x) (note xs e)
note (error (handler_panicked x) xs) e = error (handler_panicked x) (note xs e)
note (error worker_task xs) e = error worker_task (note xs e)
note (error (workers x) xs) e = error (workers x) (note xs e)

-- What the loop of `execute` carries: whether the handler was told to cancel, and the failures.
pub record Watch : Type 0 where
  pub cancelled : Bool
  pub errors : RunnerErrors

abbrev pub is_stale : JobError → Bool
is_stale stale_claim = true
is_stale _ = false

abbrev pub failed_beat : Watch → JobError → Watch × Bool
failed_beat w e =
    (record { cancelled = w.cancelled || is_stale e; errors = note w.errors e }, is_stale e)

-- The failure that a heartbeat's answer is, if it is one.
unfoldable pub cause_of : Stored JobResponse → Option JobError
cause_of (ok (JobResponse.heartbeat _)) = none
cause_of (ok _) = some invalid_request
cause_of (err e) = some e

unfoldable pub requested_of : Stored JobResponse → Bool
requested_of (ok (JobResponse.heartbeat requested)) = requested
requested_of _ = false

-- The answer is whether the claim is lost.
unfoldable pub observe_heartbeat : Stored JobResponse → Watch → Watch × Bool
observe_heartbeat response w = elim (cause_of response) [
  | none ↦ (record w { cancelled = w.cancelled || requested_of response }, false)
  | some e ↦ failed_beat w e
]

-- How the task of the handler ended: it returned, failed or panicked, or there was none to join.
pub data Joined : Type 0 where
  returned : List ℕ → Joined
  failed_with : DiagnosticCode → Joined
  panicked : Joined
  missing : Joined

-- The handler ends before the next heartbeat, or while one is under way that is then answered; or
-- a heartbeat is answered first.
pub data Run : Type 0 where
  ends : Joined → Run
  ends_beating : Joined → Stored JobResponse → Run
  beats : Stored JobResponse → Run → Run

-- Once the claim is lost the handler is awaited, and no more heartbeats are sent.
abbrev pub awaited : Run → Joined
awaited (ends j) = j
awaited (ends_beating j _) = j
awaited (beats _ run) = awaited run

pub record Watched : Type 0 where
  pub watch : Watch
  pub joined : Joined
  pub sent : ℕ

abbrev pub one_more : Watched → Watched
one_more w = record w { sent = w.sent + 1 }

-- The loop, and the heartbeat that it leaves behind; `sent` counts the heartbeats.
unfoldable pub watch_run : Run → Watch → Watched
watch_run (ends j) w = record { watch = w; joined = j; sent = 0 }
watch_run (ends_beating j response) w = record {
  watch = (observe_heartbeat response w).0;
  joined = j;
  sent = 1;
}
watch_run (beats response run) w =
    let next = watch_run run (observe_heartbeat response w).0 in
    if (observe_heartbeat response w).1
    then record { watch = (observe_heartbeat response w).0; joined = awaited run; sent = 1 }
    else one_more next

pub record Ending : Type 0 where
  pub state : JobState
  pub output : Option (List ℕ)
  pub diagnostic : Option DiagnosticCode

abbrev pub failure : DiagnosticCode → Ending
failure code = record { state = failed; output = none; diagnostic = some code }

-- The final state for the store, and the failures so far; `none` where no task was joined.
unfoldable pub ending : JobConfig → JobId → Joined → RunnerErrors → Option Ending × RunnerErrors
ending jobs job (returned output) errors =
    if ltb jobs.max_result_bytes (length output)
    then (some (failure queue_failure), push errors (store (result_too_large job (length output))))
    else (some (record { state = succeeded; output = some output; diagnostic = none }), errors)
ending jobs job (failed_with code) errors = (some (failure code), errors)
ending jobs job panicked errors = (some (failure queue_failure), push errors (handler_panicked job))
ending jobs job missing errors = (none, push errors worker_task)

-- What the store answers to the completion.
unfoldable pub completed : JobId → Stored JobResponse → RunnerErrors → RunnerErrors
completed job (ok done) errors = errors
completed job (ok (result_refused bytes)) errors = push errors (store (result_too_large job bytes))
completed job (ok _) errors = push errors (store invalid_request)
completed job (err e) errors = push errors (store e)

pub data Executed : Type 0 where
  fine : Executed
  stopped : RunnerError → Executed

abbrev pub verdict : RunnerErrors → Executed
verdict no_errors = fine
verdict (error x xs) = stopped (workers (error x xs))

-- What `execute` has sent to the store, in order, and what it answers.
pub record Trace : Type 0 where
  pub requests : List JobRequest
  pub cancelled : Bool
  pub answer : Executed

abbrev pub repeat : ℕ → JobRequest → List JobRequest → List JobRequest
repeat zero request rest = rest
repeat (suc n) request rest = request ∷ repeat n request rest

abbrev pub completion : JobRecord → Ending → JobRequest
completion claim e =
    complete claim.id claim.generation e.state ResultOrigin.handler e.output none e.diagnostic

abbrev pub beat_request : JobRecord → JobRequest
beat_request claim = heartbeat claim.id claim.generation

abbrev pub refused : Trace
refused = record { requests = []; cancelled = false; answer = stopped (store invalid_request) }

-- The end of `execute`, after the handler and the heartbeats.
unfoldable pub conclude :
    JobRecord → Stored JobResponse → Watched → Option Ending × RunnerErrors → Trace
conclude claim reply w (none, errors) = record {
  requests = repeat w.sent (beat_request claim) [];
  cancelled = w.watch.cancelled;
  answer = stopped (workers errors);
}
conclude claim reply w (some e, errors) = record {
  requests = repeat w.sent (beat_request claim) (completion claim e ∷ []);
  cancelled = w.watch.cancelled;
  answer = verdict (completed claim.id reply errors);
}

abbrev pub fresh_watch : Watch
fresh_watch = record { cancelled = false; errors = no_errors }

abbrev pub run_claim : JobConfig → JobRecord → Run → Stored JobResponse → Trace
run_claim jobs claim run reply =
    let w = watch_run run fresh_watch in
    conclude claim reply w (ending jobs claim.id w.joined w.watch.errors)

-- A claim of a handler that has its payload is run. `reply` answers the completion.
unfoldable pub execute : JobConfig → JobRecord → Run → Stored JobResponse → Trace
execute jobs claim run reply = elim claim.execution [
  | Execution.model ↦ refused
  | Execution.handler ↦ elim claim.payload [
    | none ↦ refused
    | some payload ↦ run_claim jobs claim run reply
  ]
]
