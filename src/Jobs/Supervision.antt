-- ===== src/Jobs/Supervision.antt =====
-- `JobRunner` of crates/symbiotic-queue/src/runner.rs: the policy that `start` accepts, the loops of
-- the workers and of maintenance, and the supervision that collects their errors. A `Duration` is a
-- number of nanoseconds.
use symbiotic_foundation.Base.{
  ℕ, ◌*◌, ◌/◌, String, Bool, true, false, not, ◌||◌, Option, none, some, List, [], ◌∷◌, ◌++◌, ltb,
  ◌==◌, nat_eq, string_eq, if◌then◌else◌,
}
use symbiotic_foundation.Jobs.Types.{
  Stored, ok, err, JobRequest, claim, maintain, JobResponse, invalid_request, JobConfig,
}
use symbiotic_foundation.Jobs.Runner.{
  RunnerError, RunnerErrors, store, worker_task, no_errors, push, is_none, Run, Executed, fine,
  stopped, verdict, execute,
}

pub record RunnerConfig : Type 0 where
  pub version : ℕ
  pub worker_count : ℕ
  pub poll_interval_ms : ℕ
  pub heartbeat_interval_ms : Option ℕ
  pub maintenance_interval_ms : ℕ

abbrev pub default_runner : RunnerConfig
default_runner = record {
  version = 1;
  worker_count = 4;
  poll_interval_ms = 100;
  heartbeat_interval_ms = none;
  maintenance_interval_ms = 60000;
}

abbrev pub lease_of : JobConfig → ℕ
lease_of jobs = jobs.claim_lease_seconds * 1000000000

-- The interval of heartbeats: the configured one, or a third of the lease.
abbrev pub interval_of : JobConfig → RunnerConfig → ℕ
interval_of jobs config = elim config.heartbeat_interval_ms [
  | none ↦ lease_of jobs / 3
  | some millis ↦ millis * 1000000
]

unfoldable pub refuses_policy : JobConfig → RunnerConfig → String → Bool
refuses_policy jobs config kind =
    not (config.version == 1)
    || config.worker_count == 0
    || config.poll_interval_ms == 0
    || interval_of jobs config == 0
    || ltb (lease_of jobs / 2) (interval_of jobs config)
    || config.maintenance_interval_ms == 0
    || kind == ""

-- What `start` answers: the interval of the heartbeats of the workers that it starts, or an error.
pub data Started : Type 0 where
  started : ℕ → Started
  not_started : RunnerError → Started

-- `response` is the store's answer to `pending_usage`.
unfoldable pub start : JobConfig → RunnerConfig → String → Stored JobResponse → Started
start jobs config kind response =
    if refuses_policy jobs config kind then not_started (store invalid_request) else elim response [
      | ok (JobResponse.usage _) ↦ started (interval_of jobs config)
      | ok _ ↦ not_started (store invalid_request)
      | err e ↦ not_started (store e)
    ]

-- One turn of a worker's loop: the flag that it reads, the answer to its claim and, where that is a
-- job, what happens while the job runs and the answer to its completion.
pub record Turn : Type 0 where
  pub stopping : Bool
  pub claimed : Stored JobResponse
  pub run : Run
  pub reply : Stored JobResponse

-- The requests of a worker so far, and its answer once it has ended.
pub record Work : Type 0 where
  pub requests : List JobRequest
  pub answer : Option Executed

abbrev pub after : List JobRequest → Work → Work
after requests w = record w { requests = requests ++ w.requests }

unfoldable pub worker : JobConfig → String → List Turn → Work
worker jobs kind [] = record { requests = []; answer = none }
worker jobs kind (turn ∷ turns) =
    let more = worker jobs kind turns in
    let request = claim (kind ∷ []) 1 in
    if turn.stopping then record { requests = []; answer = some fine } else elim turn.claimed [
      | ok (JobResponse.job (some row)) ↦
          let t = execute jobs row turn.run turn.reply in
          elim t.answer [
            | fine ↦ after (request ∷ t.requests) more
            | stopped e ↦ record { requests = request ∷ t.requests; answer = some (stopped e) }
          ]
      | ok (JobResponse.job none) ↦ after (request ∷ []) more
      | ok _ ↦ record { requests = request ∷ []; answer = some (stopped (store invalid_request)) }
      | err e ↦ record { requests = request ∷ []; answer = some (stopped (store e)) }
    ]

-- The loop of `maintain`: each turn is the flag, and the answer of the store at the next tick.
unfoldable pub maintenance : List (Bool × Stored JobResponse) → Work
maintenance [] = record { requests = []; answer = none }
maintenance ((stopping, response) ∷ turns) =
    let more = maintenance turns in
    if stopping then record { requests = []; answer = some fine } else elim response [
      | ok (JobResponse.changed _) ↦ after (maintain ∷ []) more
      | ok _ ↦ record { requests = maintain ∷ []; answer = some (stopped (store invalid_request)) }
      | err e ↦ record { requests = maintain ∷ []; answer = some (stopped (store e)) }
    ]

-- How a task of the runner ended, as its supervisor joins it.
pub data TaskEnd : Type 0 where
  returned : Executed → TaskEnd
  died : TaskEnd

abbrev pub collect : RunnerErrors → TaskEnd → RunnerErrors
collect errors (returned fine) = errors
collect errors (returned (stopped e)) = push errors e
collect errors died = push errors worker_task

-- The loop of `start_owned` over the tasks in the order in which they end: the flag that stops the
-- others, as each turn leaves it, and the errors.
unfoldable pub supervise : List TaskEnd → Bool × RunnerErrors → List Bool × RunnerErrors
supervise [] (stop, errors) = ([], errors)
supervise (task ∷ tasks) (stop, errors) =
    let collected = collect errors task in
    let signalled = stop || not (is_none collected) in
    let (flags, all) = supervise tasks (signalled, collected) in (signalled ∷ flags, all)

unfoldable pub start_owned : List TaskEnd → List Bool × Executed
start_owned tasks =
    let (flags, errors) = supervise tasks (false, no_errors) in (flags, verdict errors)

-- The owner's handle: the flag that stops the workers, and the supervisor, until it has been waited
-- for, with what it answers unless it dies.
pub record JobRunner : Type 0 where
  pub stop : Bool
  pub task : Option (Option Executed)

abbrev pub answer_of : Option (Option Executed) → Executed
answer_of none = stopped worker_task
answer_of (some none) = stopped worker_task
answer_of (some (some answer)) = answer

unfoldable pub wait : JobRunner → JobRunner × Executed
wait r = (record r { task = none }, answer_of r.task)

-- `Drop` sets the same flag.
unfoldable pub signal : JobRunner → JobRunner
signal r = record r { stop = true }

unfoldable pub shutdown : JobRunner → JobRunner × Executed
shutdown r = wait (signal r)

-- `finished` is whether the supervisor's task is.
unfoldable pub is_finished : JobRunner → (finished : Bool) → Bool
is_finished r finished = elim r.task [ none ↦ true | some _ ↦ finished ]

-- `CancelToken::is_cancelled`: the value of the channel, or its sender is gone.
unfoldable pub is_cancelled : (signalled gone : Bool) → Bool
is_cancelled signalled gone = signalled || gone
