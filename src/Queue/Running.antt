-- ===== src/Queue/Running.antt =====
-- `update_running` of memory.rs and the updates that `heartbeat`, `complete` and `fail_with` make.
use symbiotic_foundation.Base.{
  ℕ, String, true, false, not, Option, none, some, ltb, leb, ◌==◌, string_eq, if◌then◌else◌, get,
  is_none,
}
use symbiotic_foundation.Base.Int.{ℤ, pos}
use symbiotic_foundation.Base.Outcome.{done, expect, ◌>>=◌}
use symbiotic_foundation.Core.Diagnostics.{invalid_configuration}
use symbiotic_foundation.Queue.Types.{
  QueueStatus, succeeded, failed, dead, QueueItem, Failure, FailOutcome, retry_scheduled,
  moved_to_dead, QueueError, not_found, lease_mismatch, not_running, invalid_request,
}
use symbiotic_foundation.Queue.Types.{QueueStatus, FailOutcome}
use symbiotic_foundation.Queue.State.{State, is_running, set_status, update_item}
use symbiotic_foundation.Queue.Reply.{Reply, ok, err, panic, of_outcome}
use symbiotic_foundation.Queue.Claim.{lease_deadline}

-- Without a deadline the item is dated a second ahead, where chrono's `+` may overflow.
abbrev pub retry_time : (ℕ → ℤ → Option ℕ) → Failure → ℕ → Option ℕ
retry_time add_seconds failure now = elim failure.run_after [
  | none ↦ add_seconds now (pos 1)
  | some time ↦ some time
]

module _ {V : Type 0} where
  -- The three refusals of `update_running`, in its order.
  unfoldable pub fence : QueueItem V → String → ℕ → Option QueueError
  fence item worker now =
      if not (is_running item.status)
      then some (not_running invalid_configuration)
      else if not (elim item.lease_owner [ none ↦ false | some owner ↦ owner == worker ])
      then some (lease_mismatch invalid_configuration)
      else if elim item.lease_until [ none ↦ true | some until ↦ ltb until now ]
      then some (lease_mismatch invalid_configuration)
      else none

  abbrev pub read_back : String → Reply (State V) → Reply (State V × QueueItem V)
  read_back id (ok s) = of_outcome (do item ← expect (get s.items id); done (s, item))
  read_back id (err e) = err e
  read_back id panic = panic

  unfoldable pub update_running :
      String
      → String
      → ℕ
      → (QueueItem V → State V → Reply (State V))
      → State V
      → Reply (State V × QueueItem V)
  update_running id worker now update s = elim (get s.items id) [
    | none ↦ err (not_found invalid_configuration)
    | some current ↦ elim (fence current worker now) [
      | some e ↦ err e
      | none ↦ read_back id (update current s)
    ]
  ]

  unfoldable pub beat :
      (ℕ → ℤ → Option ℕ) → String → ℕ → ℕ → QueueItem V → State V → Reply (State V)
  beat add_seconds id seconds now current s = elim (lease_deadline add_seconds now seconds) [
    | none ↦ err (invalid_request invalid_configuration)
    | some until ↦
        of_outcome (update_item s id (λ i. record i { lease_until = some until; updated_at = now }))
  ]

  abbrev pub completed_item : QueueItem V → ℕ → QueueItem V
  completed_item item now = record item {
    lease_owner = none;
    lease_until = none;
    last_error = none;
    last_error_class = none;
    updated_at = now;
  }

  unfoldable pub completing : String → ℕ → QueueItem V → State V → Reply (State V)
  completing id now current s = of_outcome (do
    after ← update_item s id (λ i. completed_item i now)
    done (set_status after id succeeded))

  abbrev pub failed_item : QueueItem V → Failure → ℕ → ℕ → QueueItem V
  failed_item item failure run_after now = record item {
    run_after = run_after;
    lease_owner = none;
    lease_until = none;
    last_error = some failure.error;
    last_error_class = failure.error_class;
    updated_at = now;
  }

  -- The status that a failure leads to, and the outcome that is reported.
  unfoldable pub fail_verdict : QueueItem V → Failure → QueueStatus × FailOutcome
  fail_verdict item failure =
      if is_none failure.run_after
      then (QueueStatus.stopped, FailOutcome.stopped)
      else if leb item.max_attempts item.attempt
      then (dead, moved_to_dead)
      else (failed, retry_scheduled)

  unfoldable pub failing :
      (ℕ → ℤ → Option ℕ) → String → Failure → ℕ → QueueItem V → State V → Reply (State V)
  failing add_seconds id failure now current s = of_outcome (do
    time ← expect (retry_time add_seconds failure now)
    after ← update_item s id (λ i. failed_item i failure time now)
    done (set_status after id (fail_verdict current failure).0))
