-- ===== src/Jobs/Watching.antt =====
-- What `execute` tells the handler and the store, and which failures it collects.
use symbiotic_foundation.Base.{
  ℕ, ◌+◌, Bool, true, false, not, ◌&&◌, ◌||◌, none, some, List, [], ◌∷◌, any, filter, length,
  nat_eq, nat_beq_iff, string_eq, str_iff, if◌then◌else◌, ◌≡◌, refl, arith, Bool-cases, inl, inr,
}
use symbiotic_foundation.Jobs.Types.{
  Stored, ok, err, JobResponse, JobError, stale_claim, invalid_request,
}
use symbiotic_foundation.Jobs.Runner.{
  RunnerErrors, store, monitoring, handler_panicked, worker_task, workers, no_errors, error,
  same_error, variant, job_of, bytes_of, code_of, note, Watch, is_stale, cause_of, requested_of,
  observe_heartbeat, Run, ends, ends_beating, beats, awaited, Watched, watch_run,
}

abbrev pub is_lost : JobError → Bool
is_lost stale_claim = true
is_lost _ = false

abbrev pub is_beat : JobResponse → Bool
is_beat (JobResponse.heartbeat _) = true
is_beat _ = false

abbrev pub wants_end : JobResponse → Bool
wants_end (JobResponse.heartbeat requested) = requested
wants_end _ = false

abbrev pub loses_claim : Stored JobResponse → Bool
loses_claim (ok _) = false
loses_claim (err e) = is_lost e

-- The consumer cancels the job, or the claim is lost.
abbrev pub asks_to_cancel : Stored JobResponse → Bool
asks_to_cancel (ok response) = wants_end response
asks_to_cancel (err e) = is_lost e

-- The answers to the heartbeats that are sent: those up to the loss of the claim.
abbrev pub answered : Run → List (Stored JobResponse)
answered (ends _) = []
answered (ends_beating _ response) = response ∷ []
answered (beats response run) =
    let more = answered run in if loses_claim response then response ∷ [] else response ∷ more

-- Whether an answer is a failure of this cause: an error, or an answer to another request.
abbrev pub has_cause : JobError → Stored JobResponse → Bool
has_cause e (ok response) = not (is_beat response) && same_error invalid_request e
has_cause e (err cause) = same_error cause e

-- How often the failures name a cause of monitoring.
abbrev pub noted : JobError → RunnerErrors → ℕ
noted e no_errors = 0
noted e (error (monitoring cause count) xs) =
    let rest = noted e xs in if same_error cause e then count + rest else rest
noted e (error (store _) xs) = noted e xs
noted e (error (handler_panicked _) xs) = noted e xs
noted e (error worker_task xs) = noted e xs
noted e (error (workers _) xs) = noted e xs

same_error_trans : (a b c : JobError) → same_error a b ≡ true → same_error a c ≡ same_error b c
unfolding same_error
same_error_trans a b c h = ground (
  arith,
  nat_beq_iff (variant a) (variant b),
  nat_beq_iff (bytes_of a) (bytes_of b),
  str_iff (code_of a) (code_of b),
  str_iff (job_of a).id (job_of b).id,
  str_iff (job_of a).scope.tenant (job_of b).scope.tenant,
  str_iff (job_of a).scope.incarnation (job_of b).scope.incarnation,
  str_iff (job_of a).scope.queue (job_of b).scope.queue,
)

noted-note :
    (xs : RunnerErrors) (e c : JobError)
    → noted c (note xs e) ≡ noted c xs + (if same_error e c then 1 else 0)
unfolding note
noted-note no_errors e c = ground arith
noted-note (error (monitoring cause count) xs) e c =
    ground (arith, same_error_trans cause e c, noted-note xs e c)
noted-note (error (store x) xs) e c = noted-note xs e c
noted-note (error (handler_panicked x) xs) e c = noted-note xs e c
noted-note (error worker_task xs) e c = noted-note xs e c
noted-note (error (workers x) xs) e c = noted-note xs e c

is_stale-is_lost : (e : JobError) → is_stale e ≡ is_lost e
is_stale-is_lost e = refl

cause_of-is_beat :
    (r : JobResponse) → cause_of (ok r) ≡ (if is_beat r then none else some invalid_request)
unfolding cause_of
cause_of-is_beat (JobResponse.enqueued x) = refl
cause_of-is_beat (JobResponse.job x) = refl
cause_of-is_beat (JobResponse.candidates x) = refl
cause_of-is_beat (JobResponse.deliveries x) = refl
cause_of-is_beat (JobResponse.acks x) = refl
cause_of-is_beat (JobResponse.changed x) = refl
cause_of-is_beat (JobResponse.diagnostics x) = refl
cause_of-is_beat (JobResponse.usage x) = refl
cause_of-is_beat (JobResponse.heartbeat x) = refl
cause_of-is_beat JobResponse.done = refl
cause_of-is_beat (JobResponse.result_refused x) = refl

cause_of-err : (e : JobError) → cause_of (err e) ≡ some e
unfolding cause_of
cause_of-err e = refl

requested_of-wants_end : (r : JobResponse) → requested_of (ok r) ≡ wants_end r
unfolding requested_of
requested_of-wants_end (JobResponse.enqueued x) = refl
requested_of-wants_end (JobResponse.job x) = refl
requested_of-wants_end (JobResponse.candidates x) = refl
requested_of-wants_end (JobResponse.deliveries x) = refl
requested_of-wants_end (JobResponse.acks x) = refl
requested_of-wants_end (JobResponse.changed x) = refl
requested_of-wants_end (JobResponse.diagnostics x) = refl
requested_of-wants_end (JobResponse.usage x) = refl
requested_of-wants_end (JobResponse.heartbeat x) = refl
requested_of-wants_end JobResponse.done = refl
requested_of-wants_end (JobResponse.result_refused x) = refl

wants_end-is_beat : (r : JobResponse) → is_beat r ≡ false → wants_end r ≡ false
wants_end-is_beat (JobResponse.enqueued x) h = refl
wants_end-is_beat (JobResponse.job x) h = refl
wants_end-is_beat (JobResponse.candidates x) h = refl
wants_end-is_beat (JobResponse.deliveries x) h = refl
wants_end-is_beat (JobResponse.acks x) h = refl
wants_end-is_beat (JobResponse.changed x) h = refl
wants_end-is_beat (JobResponse.diagnostics x) h = refl
wants_end-is_beat (JobResponse.usage x) h = refl
wants_end-is_beat (JobResponse.heartbeat x) h = absurd (cc (h))
wants_end-is_beat JobResponse.done h = refl
wants_end-is_beat (JobResponse.result_refused x) h = refl

observe-cancelled :
    (r : Stored JobResponse) (w : Watch)
    → (observe_heartbeat r w).0.cancelled ≡ (w.cancelled || asks_to_cancel r)
unfolding observe_heartbeat
observe-cancelled (ok r) w =
    ground (arith, cause_of-is_beat r, requested_of-wants_end r, wants_end-is_beat r)
observe-cancelled (err e) w = ground (arith, cause_of-err e, is_stale-is_lost e)

observe-lost : (r : Stored JobResponse) (w : Watch) → (observe_heartbeat r w).1 ≡ loses_claim r
unfolding observe_heartbeat
observe-lost (ok r) w = ground (arith, cause_of-is_beat r)
observe-lost (err e) w = ground (arith, cause_of-err e, is_stale-is_lost e)

observe-noted :
    (r : Stored JobResponse) (w : Watch) (c : JobError)
    → noted c (observe_heartbeat r w).0.errors ≡ noted c w.errors + (if has_cause c r then 1 else 0)
unfolding observe_heartbeat
observe-noted (ok r) w c = ground (arith, cause_of-is_beat r, noted-note w.errors invalid_request c)
observe-noted (err e) w c = ground (arith, cause_of-err e, noted-note w.errors e c)

-- The loop has seen exactly the answers up to the loss of the claim.
pub record Observes (run : Run) (w : Watch) (seen : Watched) : Type 0 where
  pub joined : seen.joined ≡ awaited run
  pub sent : seen.sent ≡ length (answered run)
  pub cancelled : seen.watch.cancelled ≡ (w.cancelled || any asks_to_cancel (answered run))
  pub noted_all :
      (c : JobError)
      → noted c seen.watch.errors ≡ noted c w.errors + length (filter (has_cause c) (answered run))

pub watch_run-Observes : (run : Run) (w : Watch) → Observes run w (watch_run run w)
unfolding watch_run
watch_run-Observes (ends j) w = record {
  joined = refl;
  sent = refl;
  cancelled = ground arith;
  noted_all = λ c. omega arith;
}
watch_run-Observes (ends_beating j r) w = record {
  joined = refl;
  sent = refl;
  cancelled = ground (arith, observe-cancelled r w);
  noted_all = λ c. ground (arith, observe-noted r w c);
}
watch_run-Observes (beats r run) w =
    let next = watch_run-Observes run (observe_heartbeat r w).0 in
    elim (Bool-cases (loses_claim r)) [
      | inl l ↦ record {
        joined = ground (arith, observe-lost r w);
        sent = ground (arith, observe-lost r w);
        cancelled = ground (arith, observe-lost r w, observe-cancelled r w);
        noted_all = λ c. ground (arith, observe-lost r w, observe-noted r w c);
      }
      | inr l ↦ record {
        joined = ground (arith, observe-lost r w, next.joined);
        sent = ground (arith, observe-lost r w, next.sent);
        cancelled = ground (arith, observe-lost r w, observe-cancelled r w, next.cancelled);
        noted_all = λ c. ground (arith, observe-lost r w, observe-noted r w c, next.noted_all c);
      }
    ]
