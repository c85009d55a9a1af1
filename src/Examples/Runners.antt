-- ===== src/Examples/Runners.antt =====
-- The theorems about the runner, on a job that is cancelled while it runs.
use symbiotic_foundation.Base.{false, true, none, some, List, [], ◌∷◌, nat_eq, string_eq, ◌≡◌, refl}
use symbiotic_foundation.Jobs.Types.{
  ok, err, Execution, JobRecord, running, default_jobs, JobResponse, unavailable, stale_claim,
}
use symbiotic_foundation.Jobs.Runner.{Run, beats, ends, Joined, execute, store, fine, stopped}
use symbiotic_foundation.Jobs.Completing.{Reports, execute-Reports}
use symbiotic_foundation.Jobs.Supervision.{
  default_runner, start, started, refuses_policy, start_owned, TaskEnd, died, returned,
}
use symbiotic_foundation.Jobs.Starting.{
  IsAllowed, start-IsAllowed, Supervises, start_owned-failures,
}

abbrev claimed : JobRecord
claimed = record {
  id = record { scope = record { tenant = "t"; incarnation = "i"; queue = "q" }; id = "job" };
  key = "key";
  digest = "digest";
  group = none;
  owners = [];
  kind = "mail";
  execution = Execution.handler;
  state = running;
  final_state = none;
  payload = some (1 ∷ []);
  admission = none;
  max_attempts = 1;
  generation = 1;
  lease_until = some 30;
  cancel_requested = false;
  purged = false;
  output = none;
  output_bytes = 0;
  origin = none;
  receipt = none;
  recovery_until = none;
  result_expired = false;
  created_at = 0;
  finished_at = none;
  delivery_generation = 0;
  delivery_until = none;
  diagnostic = none;
}

-- A heartbeat that fails, one that asks to cancel, one that loses the claim, and the end.
abbrev troubled : Run
troubled = beats (err unavailable) (
    beats (ok (JobResponse.heartbeat true))
      (beats (err stale_claim) (ends (Joined.returned (7 ∷ [])))))

execute-Reports_example :
    Reports default_jobs claimed troubled
      (execute default_jobs claimed troubled (ok JobResponse.done))
execute-Reports_example =
    execute-Reports default_jobs claimed troubled (ok JobResponse.done) (1 ∷ []) refl refl refl

start_lem :
    start default_jobs default_runner "mail"
      (ok (JobResponse.usage (record { items = 0; bytes = 0 })))
    ≡ started 10000000000
unfolding start refuses_policy
start_lem = refl

start-IsAllowed_example : IsAllowed default_jobs default_runner "mail" 10000000000
start-IsAllowed_example =
    start-IsAllowed default_jobs default_runner "mail"
      (ok (JobResponse.usage (record { items = 0; bytes = 0 }))) 10000000000 start_lem

abbrev ended : List TaskEnd
ended = returned fine ∷ returned (stopped (store unavailable)) ∷ died ∷ []

start_owned-failures_example : Supervises ended (start_owned ended)
start_owned-failures_example = start_owned-failures ended
