-- ===== src/Jobs/Completing.antt =====
-- Whatever the heartbeats answer, the end of a handler reaches the store.
use symbiotic_foundation.Base.{
  ℕ, zero, suc, ◌++◌, Bool, true, false, Option, none, some, List, [], ◌∷◌, any, filter, leb,
  length, if◌then◌else◌, ◌≡◌, refl, arith, sym, subst, ap, ◌∙◌,
}
use symbiotic_foundation.Core.Diagnostics.{queue_failure}
use symbiotic_foundation.Jobs.Types.{
  Stored, ok, err, JobId, Execution, succeeded, failed, ResultOrigin, JobRecord, JobRequest,
  heartbeat, complete, JobResponse, JobError, JobConfig,
}
use symbiotic_foundation.Jobs.Runner.{
  RunnerError, RunnerErrors, store, monitoring, handler_panicked, worker_task, workers, no_errors,
  error, push, Joined, returned, failed_with, panicked, missing, Run, awaited, Watched, watch_run,
  Ending, failure, ending, completed, Executed, fine, stopped, verdict, repeat, Trace, completion,
  beat_request, conclude, fresh_watch, run_claim, execute,
}
use symbiotic_foundation.Jobs.Watching.{
  asks_to_cancel, answered, has_cause, noted, Observes, watch_run-Observes,
}

-- The completion of a claim by how its handler ended: success needs an output within the bound.
abbrev pub final_request : JobConfig → JobRecord → Joined → JobRequest
final_request jobs claim (returned output) =
    if leb (length output) jobs.max_result_bytes
    then complete claim.id claim.generation succeeded ResultOrigin.handler (some output) none none
    else complete claim.id claim.generation failed ResultOrigin.handler none none
        (some queue_failure)
final_request jobs claim (failed_with code) =
    complete claim.id claim.generation failed ResultOrigin.handler none none (some code)
final_request jobs claim panicked =
    complete claim.id claim.generation failed ResultOrigin.handler none none (some queue_failure)
final_request jobs claim missing =
    complete claim.id claim.generation failed ResultOrigin.handler none none (some queue_failure)

abbrev pub copies : ℕ → JobRequest → List JobRequest
copies zero request = []
copies (suc n) request = request ∷ copies n request

repeat-copies :
    (n : ℕ) (request : JobRequest) (rest : List JobRequest)
    → repeat n request rest ≡ copies n request ++ rest
repeat-copies zero request rest = refl
repeat-copies (suc n) request rest = ap (λ xs. request ∷ xs) (repeat-copies n request rest)

final : JobConfig → Joined → Ending
final jobs (returned output) =
    if leb (length output) jobs.max_result_bytes
    then record { state = succeeded; output = some output; diagnostic = none }
    else failure queue_failure
final jobs (failed_with code) = failure code
final jobs panicked = failure queue_failure
final jobs missing = failure queue_failure

completion-final :
    (jobs : JobConfig) (claim : JobRecord) (j : Joined)
    → completion claim (final jobs j) ≡ final_request jobs claim j
unfolding final
completion-final jobs claim (returned output) = ground arith
completion-final jobs claim (failed_with code) = refl
completion-final jobs claim panicked = refl
completion-final jobs claim missing = refl

abbrev pub is_joined : Joined → Bool
is_joined missing = false
is_joined _ = true

abbrev pub failures_of : Executed → RunnerErrors
failures_of fine = no_errors
failures_of (stopped (workers xs)) = xs
failures_of (stopped x) = error x no_errors

abbrev is_other : RunnerError → Bool
is_other (monitoring _ _) = false
is_other _ = true

noted-push :
    (xs : RunnerErrors) (e : RunnerError) (c : JobError)
    → is_other e ≡ true
    → noted c (push xs e) ≡ noted c xs
noted-push no_errors (store x) c h = refl
noted-push no_errors (handler_panicked x) c h = refl
noted-push no_errors worker_task c h = refl
noted-push no_errors (workers x) c h = refl
noted-push no_errors (monitoring x n) c h = ground arith
noted-push (error (monitoring cause count) xs) e c h = ground (arith, noted-push xs e c h)
noted-push (error (store x) xs) e c h = noted-push xs e c h
noted-push (error (handler_panicked x) xs) e c h = noted-push xs e c h
noted-push (error worker_task xs) e c h = noted-push xs e c h
noted-push (error (workers x) xs) e c h = noted-push xs e c h

ending-final :
    (jobs : JobConfig) (job : JobId) (j : Joined) (xs : RunnerErrors)
    → is_joined j ≡ true
    → (ending jobs job j xs).0 ≡ some (final jobs j)
unfolding ending final
ending-final jobs job (returned output) xs h = ground arith
ending-final jobs job (failed_with code) xs h = refl
ending-final jobs job panicked xs h = refl
ending-final jobs job missing xs h = ground arith

ending-noted :
    (jobs : JobConfig) (job : JobId) (j : Joined) (xs : RunnerErrors) (c : JobError)
    → noted c (ending jobs job j xs).1 ≡ noted c xs
unfolding ending
ending-noted jobs job (returned output) xs c =
    ground (arith, noted-push xs (store (JobError.result_too_large job (length output))) c refl)
ending-noted jobs job (failed_with code) xs c = refl
ending-noted jobs job panicked xs c = noted-push xs (handler_panicked job) c refl
ending-noted jobs job missing xs c = noted-push xs worker_task c refl

completed-noted :
    (job : JobId) (reply : Stored JobResponse) (xs : RunnerErrors) (c : JobError)
    → noted c (completed job reply xs) ≡ noted c xs
unfolding completed
completed-noted job (err e) xs c = noted-push xs (store e) c refl
completed-noted job (ok (JobResponse.enqueued x)) xs c = noted-push xs _ c refl
completed-noted job (ok (JobResponse.job x)) xs c = noted-push xs _ c refl
completed-noted job (ok (JobResponse.candidates x)) xs c = noted-push xs _ c refl
completed-noted job (ok (JobResponse.deliveries x)) xs c = noted-push xs _ c refl
completed-noted job (ok (JobResponse.acks x)) xs c = noted-push xs _ c refl
completed-noted job (ok (JobResponse.changed x)) xs c = noted-push xs _ c refl
completed-noted job (ok (JobResponse.diagnostics x)) xs c = noted-push xs _ c refl
completed-noted job (ok (JobResponse.usage x)) xs c = noted-push xs _ c refl
completed-noted job (ok (JobResponse.heartbeat x)) xs c = noted-push xs _ c refl
completed-noted job (ok JobResponse.done) xs c = refl
completed-noted job (ok (JobResponse.result_refused n)) xs c = noted-push xs _ c refl

failures-verdict : (xs : RunnerErrors) → failures_of (verdict xs) ≡ xs
failures-verdict no_errors = refl
failures-verdict (error x xs) = refl

-- What the run of a claim has sent, told the handler, and answers.
pub record Reports (jobs : JobConfig) (claim : JobRecord) (run : Run) (t : Trace) : Type 0 where
  pub requests :
      t.requests
      ≡ copies (length (answered run)) (heartbeat claim.id claim.generation)
        ++ final_request jobs claim (awaited run) ∷ []
  pub cancelled : t.cancelled ≡ any asks_to_cancel (answered run)
  pub collected :
      (c : JobError) → noted c (failures_of t.answer) ≡ length (filter (has_cause c) (answered run))

conclude-Reports :
    (jobs : JobConfig) (claim : JobRecord) (run : Run) (reply : Stored JobResponse) (w : Watched)
    (o : Option Ending × RunnerErrors)
    → Observes run fresh_watch w
    → o.0 ≡ some (final jobs (awaited run))
    → ((c : JobError) → noted c o.1 ≡ noted c w.watch.errors)
    → Reports jobs claim run (conclude claim reply w o)
unfolding conclude
conclude-Reports jobs claim run reply w (none, xs) k h n = ground arith
conclude-Reports jobs claim run reply w (some e, xs) k h n = record {
  requests =
      ap (λ m. repeat m (beat_request claim) (completion claim e ∷ [])) k.sent
      ∙ repeat-copies (length (answered run)) (beat_request claim) (completion claim e ∷ [])
      ∙ ap (λ request. copies (length (answered run)) (beat_request claim) ++ request ∷ [])
          (ap (completion claim) (ground arith) ∙ completion-final jobs claim (awaited run));
  cancelled = ground (arith, k.cancelled);
  collected = λ c. omega (
    arith,
    ap (noted c) (failures-verdict (completed claim.id reply xs)),
    completed-noted claim.id reply xs c,
    n c,
    k.noted_all c,
  );
}

execute-run_claim :
    (jobs : JobConfig) (claim : JobRecord) (run : Run) (reply : Stored JobResponse)
    (payload : List ℕ)
    → claim.execution ≡ Execution.handler
    → claim.payload ≡ some payload
    → execute jobs claim run reply ≡ run_claim jobs claim run reply
unfolding execute
execute-run_claim jobs claim run reply payload x p = ground arith

-- A claim of a handler with its payload whose task is joined sends one heartbeat for each answer up
-- to the loss of the claim, and then, whatever these answers are, exactly one completion, with the
-- claim's generation, as a handler's result: succeeded with the output and no diagnostic where the
-- handler returned one within the bound, failed with no output and the diagnostic `QueueFailure`
-- where it returned more or panicked, failed with its own diagnostic where it failed. The handler is told to
-- cancel where an answer asked for it or the claim was lost, and every failure of a heartbeat is
-- counted under its cause.
pub execute-Reports :
    (jobs : JobConfig) (claim : JobRecord) (run : Run) (reply : Stored JobResponse)
    (payload : List ℕ)
    → claim.execution ≡ Execution.handler
    → claim.payload ≡ some payload
    → is_joined (awaited run) ≡ true
    → Reports jobs claim run (execute jobs claim run reply)
execute-Reports jobs claim run reply payload x p j =
    let w = watch_run run fresh_watch in
    let k = watch_run-Observes run fresh_watch in
    subst (λ t. Reports jobs claim run t) (sym (execute-run_claim jobs claim run reply payload x p))
      (conclude-Reports jobs claim run reply w (ending jobs claim.id w.joined w.watch.errors) k
        (ap (λ a. (ending jobs claim.id a w.watch.errors).0) k.joined
          ∙ ending-final jobs claim.id (awaited run) w.watch.errors j)
        (λ c. ending-noted jobs claim.id w.joined w.watch.errors c))
