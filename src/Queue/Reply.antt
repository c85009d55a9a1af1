-- ===== src/Queue/Reply.antt =====
-- An operation of `MemoryQueue`: it passes the queue on, and answers, refuses or panics.
use symbiotic_foundation.Base.{ℕ, Bool, List, [], ◌∷◌, ◌++◌, if◌then◌else◌, Option, suc, true}
use symbiotic_foundation.Base.Outcome.{Outcome, done, panicked}
use symbiotic_foundation.Core.Diagnostics.{DiagnosticCode, memory_queue_lock_poisoned}
use symbiotic_foundation.Queue.Types.{QueueError, unavailable, QueueItem, QueueEvent}
use symbiotic_foundation.Queue.State.{State}

pub data Reply {ℓ} (A : Type ℓ) : Type ℓ where
  ok : A → Reply A
  err : QueueError → Reply A
  panic : Reply A

abbrev pub of_outcome {ℓ} : {A : Type ℓ} → Outcome A → Reply A
of_outcome (done a) = ok a
of_outcome panicked = panic

-- The queue behind the handle: its locked state, whether a panic under the lock has poisoned it,
-- whether an event sink is attached, and what that sink has been sent, in order.
pub record MemoryQueue (V : Type 0) : Type 0 where
  pub state : State V
  pub poisoned : Bool
  pub event_sink : Bool
  pub recorded : List QueueEvent

abbrev pub M : Type 0 → Type 0 → Type 0
M V A = MemoryQueue V → MemoryQueue V × Reply A

infixl 5 ◌>>=◌ ◌>>◌
abbrev pub ◌>>=◌ : {V A B : Type 0} → M V A → (A → M V B) → M V B
◌>>=◌ m f q =
    let (q', r) = m q in elim r [ ok a ↦ f a q' | err e ↦ (q', err e) | panic ↦ (q', panic) ]

abbrev pub ◌>>◌ : {V B : Type 0} → M V (Unit {0}) → M V B → M V B
m >> k = m >>= λ _. k

abbrev pub pure : {V A : Type 0} → A → M V A
pure a q = (q, ok a)

abbrev pub refuse : {V A : Type 0} → QueueError → M V A
refuse e q = (q, err e)

abbrev pub keep_state :
    {V A : Type 0} → MemoryQueue V → Reply (State V × A) → MemoryQueue V × Reply A
keep_state q (ok (s, a)) = (record q { state = s }, ok a)
keep_state q (err e) = (q, err e)
keep_state q panic = (record q { poisoned = true }, panic)

-- `self.lock()?` and the work under the guard.
unfoldable pub locked : {V A : Type 0} → (State V → Reply (State V × A)) → M V A
locked work q =
    if q.poisoned
    then (q, err (unavailable memory_queue_lock_poisoned))
    else keep_state q (work q.state)

abbrev pub event : {V : Type 0} → ℕ → QueueItem V × Option DiagnosticCode → QueueEvent
event time (item, error) = record {
  item_id = item.item_id;
  queue_id = item.queue_id;
  kind = item.kind;
  status = item.status;
  attempt = item.attempt;
  timestamp = time;
  error = error;
}

-- `stamp i` is the reading of the clock for event `i`.
unfoldable pub events :
    {V : Type 0} → (ℕ → ℕ) → List (QueueItem V × Option DiagnosticCode) → List QueueEvent
events stamp [] = []
events stamp (e ∷ es) = event (stamp 0) e ∷ events (λ i. stamp (suc i)) es

unfoldable pub emit :
    {V : Type 0} → (ℕ → ℕ) → List (QueueItem V × Option DiagnosticCode) → M V (Unit {0})
emit stamp es q =
    (if q.event_sink then record q { recorded = q.recorded ++ events stamp es } else q, ok tt)
