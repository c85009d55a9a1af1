-- ===== src/Jobs/Starting.antt =====
-- What `start` accepts, and what the supervision of a runner answers.
use symbiotic_foundation.Base.{
  ℕ, zero, suc, length, get_elem?, take, any, true, ◌+◌, ◌/◌, ◌≤◌, ◌<◌, String, Bool, false, not,
  ◌||◌, none, some, List, [], ◌∷◌, ◌==◌, nat_eq, string_eq, ◌≡◌, refl, arith, sym, subst, ap, ◌∙◌,
}
use symbiotic_foundation.Jobs.Types.{Stored, ok, err, JobResponse, PendingUsage, JobConfig}
use symbiotic_foundation.Jobs.Runner.{
  RunnerError, RunnerErrors, no_errors, error, push, is_none, workers, worker_task, Executed, fine,
  stopped, verdict,
}
use symbiotic_foundation.Jobs.Supervision.{
  RunnerConfig, lease_of, interval_of, refuses_policy, started, start, TaskEnd, returned, died,
  collect, supervise, start_owned,
}

-- The policy of a runner that has started.
pub record IsAllowed (jobs : JobConfig) (config : RunnerConfig) (kind : String) (interval : ℕ)
    : Type 0 where
  pub version : config.version ≡ 1
  pub workers : 0 < config.worker_count
  pub polls : 0 < config.poll_interval_ms
  pub maintains : 0 < config.maintenance_interval_ms
  pub named : (kind == "") ≡ false
  pub beats : 0 < interval
  pub twice : interval + interval ≤ lease_of jobs

refuses-IsAllowed :
    (jobs : JobConfig) (config : RunnerConfig) (kind : String)
    → refuses_policy jobs config kind ≡ false
    → IsAllowed jobs config kind (interval_of jobs config)
unfolding refuses_policy
refuses-IsAllowed jobs config kind h = record {
  version = ground arith;
  workers = ground arith;
  polls = ground arith;
  maintains = ground arith;
  named = ground arith;
  beats = ground arith;
  twice = ground arith;
}

start-inv :
    (jobs : JobConfig) (config : RunnerConfig) (kind : String) (response : Stored JobResponse)
    (interval : ℕ)
    → start jobs config kind response ≡ started interval
    → (refuses_policy jobs config kind ≡ false) × (interval_of jobs config ≡ interval)
unfolding start
start-inv jobs config kind (err e) interval h = ground arith
start-inv jobs config kind (ok r) interval h = ground arith

derived-fits :
    (jobs : JobConfig)
    → 0 < jobs.claim_lease_seconds
    → (0 < lease_of jobs / 3) × (lease_of jobs / 3 ≤ lease_of jobs / 2)
derived-fits jobs h = (omega arith, omega arith)

-- Where `start` answers that it has started with an interval of heartbeats, that interval is
-- positive and fits twice into the lease of a claim; the configuration has version 1, at least one
-- worker and positive polling and maintenance intervals, and the kind is not empty.
pub start-IsAllowed :
    (jobs : JobConfig) (config : RunnerConfig) (kind : String) (response : Stored JobResponse)
    (interval : ℕ)
    → start jobs config kind response ≡ started interval
    → IsAllowed jobs config kind interval
start-IsAllowed jobs config kind response interval h =
    let (r, e) = start-inv jobs config kind response interval h in
    subst (λ i. IsAllowed jobs config kind i) e (refuses-IsAllowed jobs config kind r)

-- A runner without an interval of its own starts on any lease of a second or more.
pub derived-starts :
    (jobs : JobConfig) (config : RunnerConfig) (kind : String) (usage : PendingUsage)
    → 0 < jobs.claim_lease_seconds
    → config.heartbeat_interval_ms ≡ none
    → IsAllowed jobs (record config { heartbeat_interval_ms = some 1 }) kind 1000000
    → start jobs config kind (ok (JobResponse.usage usage)) ≡ started (lease_of jobs / 3)
unfolding start refuses_policy
derived-starts jobs config kind usage h n a =
    ground (arith, derived-fits jobs h, a.version, a.workers, a.polls, a.maintains, a.named)

-- The errors of the tasks, in the order in which the tasks end.
abbrev pub failures : List TaskEnd → RunnerErrors
failures [] = no_errors
failures (returned fine ∷ tasks) = failures tasks
failures (returned (stopped e) ∷ tasks) = error e (failures tasks)
failures (died ∷ tasks) = error worker_task (failures tasks)

abbrev joined : RunnerErrors → RunnerErrors → RunnerErrors
joined no_errors ys = ys
joined (error x xs) ys = error x (joined xs ys)

joined_none : (xs : RunnerErrors) → joined xs no_errors ≡ xs
joined_none no_errors = refl
joined_none (error x xs) = ap (λ rest. error x rest) (joined_none xs)

joined-push :
    (xs ys : RunnerErrors) (e : RunnerError) → joined (push xs e) ys ≡ joined xs (error e ys)
joined-push no_errors ys e = refl
joined-push (error x xs) ys e = ap (λ rest. error x rest) (joined-push xs ys e)

some_pushed : (xs : RunnerErrors) (e : RunnerError) → is_none (push xs e) ≡ false
some_pushed no_errors e = refl
some_pushed (error x xs) e = refl

collect-failures :
    (xs : RunnerErrors) (task : TaskEnd) (tasks : List TaskEnd)
    → joined (collect xs task) (failures tasks) ≡ joined xs (failures (task ∷ tasks))
collect-failures xs (returned fine) tasks = refl
collect-failures xs (returned (stopped e)) tasks = joined-push xs (failures tasks) e
collect-failures xs died tasks = joined-push xs (failures tasks) worker_task

supervise-failures :
    (tasks : List TaskEnd) (stop : Bool) (xs : RunnerErrors)
    → (supervise tasks (stop, xs)).1 ≡ joined xs (failures tasks)
unfolding supervise
supervise-failures [] stop xs = sym (joined_none xs)
supervise-failures (task ∷ tasks) stop xs =
    supervise-failures tasks (stop || not (is_none (collect xs task))) (collect xs task)
    ∙ collect-failures xs task tasks

supervise-turns :
    (tasks : List TaskEnd) (stop : Bool) (xs : RunnerErrors)
    → length (supervise tasks (stop, xs)).0 ≡ length tasks
unfolding supervise
supervise-turns [] stop xs = refl
supervise-turns (task ∷ tasks) stop xs =
    omega (arith, supervise-turns tasks (stop || not (is_none (collect xs task))) (collect xs task))

abbrev pub is_failure : TaskEnd → Bool
is_failure (returned fine) = false
is_failure (returned (stopped _)) = true
is_failure died = true

collect-is_failure :
    (xs : RunnerErrors) (task : TaskEnd)
    → not (is_none (collect xs task)) ≡ (not (is_none xs) || is_failure task)
collect-is_failure xs (returned fine) = ground arith
collect-is_failure xs (returned (stopped e)) = ground (arith, some_pushed xs e)
collect-is_failure xs died = ground (arith, some_pushed xs worker_task)

supervise-stops :
    (tasks : List TaskEnd) (xs : RunnerErrors) (i : ℕ)
    → i < length tasks
    → get_elem? (supervise tasks (not (is_none xs), xs)).0 i
      ≡ some (not (is_none xs) || any is_failure (take (suc i) tasks))
unfolding supervise
supervise-stops [] xs i h = absurd (omega (arith, h))
supervise-stops (task ∷ tasks) xs zero h = ground (arith, collect-is_failure xs task)
supervise-stops (task ∷ tasks) xs (suc i) h =
    let same : (not (is_none xs) || not (is_none (collect xs task)))
        ≡ not (is_none (collect xs task)) =
      ground (arith, collect-is_failure xs task) in
    ap (λ stop. get_elem? (supervise tasks (stop, collect xs task)).0 i) same
    ∙ supervise-stops tasks (collect xs task) i (omega (arith, h))
    ∙ ground (arith, collect-is_failure xs task)

-- The answer of a runner by the errors of its tasks.
abbrev pub answer_to : RunnerErrors → Executed
answer_to no_errors = fine
answer_to (error x xs) = stopped (workers (error x xs))

verdict_lem : (xs : RunnerErrors) → verdict xs ≡ answer_to xs
verdict_lem no_errors = refl
verdict_lem (error x xs) = refl

-- What a runner has done when its tasks have ended: its flag after each of the ends, and its answer.
pub record Supervises (tasks : List TaskEnd) (r : List Bool × Executed) : Type 0 where
  pub turns : length r.0 ≡ length tasks
  pub stops :
      (i : ℕ) → i < length tasks → get_elem? r.0 i ≡ some (any is_failure (take (suc i) tasks))
  pub answer : r.1 ≡ answer_to (failures tasks)

-- A runner tells its workers to stop as soon as a task has ended in an error or died: after each end
-- the flag says whether one of the ends so far was such. When all tasks have ended, it answers with
-- all their errors, in the order in which they ended, a task that died being one, and is fine where
-- there are none.
pub start_owned-failures : (tasks : List TaskEnd) → Supervises tasks (start_owned tasks)
unfolding start_owned
start_owned-failures tasks = record {
  turns = supervise-turns tasks false no_errors;
  stops = supervise-stops tasks no_errors;
  answer = ap verdict (supervise-failures tasks false no_errors) ∙ verdict_lem (failures tasks);
}
