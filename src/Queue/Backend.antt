-- ===== src/Queue/Backend.antt =====
-- `MemoryQueue` of crates/symbiotic-queue/src/memory.rs: the operations of `QueueBackend`, each
-- from its checks through the lock to the events that it sends.
-- The readings of the clock and the identifier that a call draws are its arguments.
use symbiotic_foundation.Base.{
  ℕ, ◌-◌, ◌^◌, String, true, false, Option, none, some, List, [], ◌∷◌, ◌++◌, map, max, ltb, length,
  string_eq, if◌then◌else◌, get, insert, is_blank, get_or,
}
use symbiotic_foundation.Base.Int.{ℤ, pos, negsuc}
use symbiotic_foundation.Core.Diagnostics.{
  DiagnosticCode, queue_item_kind_must_not_be_empty, worker_id_must_not_be_empty, lease_expired,
  invalid_configuration,
}
use symbiotic_foundation.Queue.Types.{
  EnqueueRequest, inserted, active_duplicate, terminal_duplicate, QueueItem, EnqueueOutcome,
  ClaimRequest, Failure, FailOutcome, not_found, invalid_request,
}
use symbiotic_foundation.Queue.State.{State, reclaim_expired}
use symbiotic_foundation.Queue.Reply.{
  Reply, ok, err, panic, of_outcome, MemoryQueue, M, ◌>>=◌, ◌>>◌, pure, refuse, locked, emit,
}
use symbiotic_foundation.Queue.Enqueue.{enqueue_locked}
use symbiotic_foundation.Queue.Claim.{
  Clock, lease_deadline, claim_locked, ItemClaim, claim_item_locked,
}
use symbiotic_foundation.Queue.Running.{update_running, beat, completing, failing, fail_verdict}

abbrev pub default_retained_terminal_items : ℕ
default_retained_terminal_items = 10000

abbrev pub new_state : {V : Type 0} → ℕ → State V
new_state retain = record {
  items = [];
  idempotency = [];
  running_index = [];
  terminal = [];
  retain_terminal = max retain 1;
  cooldowns = [];
}

unfoldable pub with_terminal_retention : {V : Type 0} → ℕ → MemoryQueue V
with_terminal_retention retain = record {
  state = new_state retain;
  poisoned = false;
  event_sink = false;
  recorded = [];
}

abbrev pub new : {V : Type 0} → MemoryQueue V
new = with_terminal_retention default_retained_terminal_items

abbrev pub with_event_sink : {V : Type 0} → MemoryQueue V → MemoryQueue V
with_event_sink q = record q { event_sink = true }

unfoldable pub len : {V : Type 0} → MemoryQueue V → ℕ
len q = if q.poisoned then 0 else length q.state.items

abbrev pub announce : {V : Type 0} → Clock → EnqueueOutcome V → M V (EnqueueOutcome V)
announce c outcome = elim outcome.disposition [
  | inserted ↦ do emit c.stamp ((outcome.item, none) ∷ []); pure outcome
  | active_duplicate ↦ pure outcome
  | terminal_duplicate ↦ pure outcome
]

unfoldable pub enqueue_inner :
    {V : Type 0} → Clock → String → EnqueueRequest V → Option String → M V (EnqueueOutcome V)
enqueue_inner c id request replacing =
    if is_blank request.kind then refuse (invalid_request queue_item_kind_must_not_be_empty) else do
      outcome ← locked (λ s. ok (enqueue_locked request replacing id c.now s))
      announce c outcome

unfoldable pub enqueue : {V : Type 0} → Clock → String → EnqueueRequest V → M V (EnqueueOutcome V)
enqueue c id request = enqueue_inner c id request none

unfoldable pub enqueue_replacing :
    {V : Type 0} → Clock → String → EnqueueRequest V → String → M V (EnqueueOutcome V)
enqueue_replacing c id request current =
    enqueue_inner c id (record request { force = true }) (some current)

abbrev pub ok_or_invalid : {V : Type 0} → Option ℕ → M V ℕ
ok_or_invalid none = refuse (invalid_request invalid_configuration)
ok_or_invalid (some t) = pure t

abbrev pub lease_events :
    {V : Type 0} → List (QueueItem V) → List (QueueItem V × Option DiagnosticCode)
lease_events = map λ item. (item, some lease_expired)

abbrev pub claim_events :
    {V : Type 0} → List (QueueItem V) → List (QueueItem V × Option DiagnosticCode)
claim_events = map λ item. (item, none)

unfoldable pub claim :
    {V : Type 0} → (ℕ → ℤ → Option ℕ) → Clock → ClaimRequest → M V (List (QueueItem V))
claim add_seconds c request =
    if is_blank request.worker_id then refuse (invalid_request worker_id_must_not_be_empty) else do
      until ← ok_or_invalid (lease_deadline add_seconds c.now request.lease_seconds)
      work ← locked (λ s. of_outcome (claim_locked request until c s))
      emit c.stamp (lease_events work.reclaimed ++ claim_events work.claimed)
      pure work.claimed

abbrev pub claim_found :
    {V : Type 0}
    → String
    → String
    → ℕ
    → Option ℕ
    → Clock
    → State V
    → Option (QueueItem V)
    → Reply (State V × ItemClaim V)
claim_found id worker until max_in_flight c s none = err (not_found invalid_configuration)
claim_found id worker until max_in_flight c s (some item) =
    of_outcome (claim_item_locked id worker until max_in_flight c item s)

abbrev pub retired_events :
    {V : Type 0} → Option (QueueItem V) → List (QueueItem V × Option DiagnosticCode)
retired_events none = []
retired_events (some item) = (item, item.last_error) ∷ []

abbrev pub to_list : {V : Type 0} → Option (QueueItem V) → List (QueueItem V)
to_list none = []
to_list (some item) = item ∷ []

unfoldable pub claim_item :
    {V : Type 0}
    → (ℕ → ℤ → Option ℕ)
    → Clock
    → String
    → String
    → ℕ
    → Option ℕ
    → M V (Option (QueueItem V))
claim_item add_seconds c id worker seconds max_in_flight =
    if is_blank worker then refuse (invalid_request worker_id_must_not_be_empty) else do
      until ← ok_or_invalid (lease_deadline add_seconds c.now seconds)
      work ← locked (λ s. claim_found id worker until max_in_flight c s (get s.items id))
      emit c.stamp (
          lease_events work.reclaimed
          ++ (retired_events work.retired ++ claim_events (to_list work.claimed)))
      if work.missing then refuse (not_found invalid_configuration) else pure work.claimed

unfoldable pub get_item : {V : Type 0} → String → M V (Option (QueueItem V))
get_item id = locked (λ s. ok (s, get s.items id))

unfoldable pub heartbeat :
    {V : Type 0} → (ℕ → ℤ → Option ℕ) → Clock → String → String → ℕ → M V (Unit {0})
heartbeat add_seconds c id worker seconds = do
  item ← locked (update_running id worker c.now (beat add_seconds id seconds c.now))
  emit c.stamp ((item, none) ∷ [])

unfoldable pub complete : {V : Type 0} → Clock → String → String → M V (Unit {0})
complete c id worker = do
  item ← locked (update_running id worker c.now (completing id c.now))
  emit c.stamp ((item, none) ∷ [])

-- The outcome that the closure of `fail_with` leaves behind.
abbrev pub fail_outcome : {V : Type 0} → String → Failure → State V → FailOutcome
fail_outcome id failure s = elim (get s.items id) [
  | none ↦ FailOutcome.retry_scheduled
  | some current ↦ (fail_verdict current failure).1
]

unfoldable pub fail_locked :
    {V : Type 0}
    → (ℕ → ℤ → Option ℕ)
    → Clock
    → String
    → String
    → Failure
    → State V
    → Reply (State V × (QueueItem V × FailOutcome))
fail_locked add_seconds c id worker failure s =
    elim (update_running id worker c.now (failing add_seconds id failure c.now) s) [
      | ok (s', item) ↦ ok (s', (item, fail_outcome id failure s))
      | err e ↦ err e
      | panic ↦ panic
    ]

unfoldable pub fail_with :
    {V : Type 0} → (ℕ → ℤ → Option ℕ) → Clock → String → String → Failure → M V FailOutcome
fail_with add_seconds c id worker failure = do
  (item, outcome) ← locked (fail_locked add_seconds c id worker failure)
  emit c.stamp ((item, some failure.error) ∷ [])
  pure outcome

-- `seconds as i64` wraps.
unfoldable pub as_i64 : ℕ → ℤ
as_i64 n = if ltb n (2 ^ 63) then pos n else negsuc (2 ^ 64 - 1 - n)

-- The date is computed before the lock is taken; `called` is the clock's reading there. Chrono's
-- `seconds` and `+` panic where `add_seconds` has no answer.
unfoldable pub fail :
    {V : Type 0}
    → (ℕ → ℤ → Option ℕ)
    → ℕ
    → Clock
    → String
    → String
    → DiagnosticCode
    → Option ℕ
    → M V FailOutcome
fail add_seconds called c id worker error retry_after_seconds =
    elim (add_seconds called (as_i64 (get_or retry_after_seconds 1))) [
      | none ↦ λ q. (q, panic)
      | some time ↦
          fail_with add_seconds c id worker
            (record { error = error; error_class = none; run_after = some time })
    ]

unfoldable pub reclaim_expired_leases : {V : Type 0} → Clock → String → M V ℕ
reclaim_expired_leases c q = do
  reclaimed ← locked (λ s. of_outcome (reclaim_expired s q c.now))
  emit c.stamp (lease_events reclaimed)
  pure (length reclaimed)

unfoldable pub cooldown_until : {V : Type 0} → String → M V (Option ℕ)
cooldown_until q = locked (λ s. ok (s, get s.cooldowns q))

abbrev pub later_cooldown : Option ℕ → ℕ → ℕ
later_cooldown none until = until
later_cooldown (some current) until = if ltb current until then until else current

unfoldable pub note_cooldown : {V : Type 0} → String → ℕ → M V (Unit {0})
note_cooldown q until = locked λ s.
    ok
      (record s { cooldowns = insert s.cooldowns q (later_cooldown (get s.cooldowns q) until) }, tt)
