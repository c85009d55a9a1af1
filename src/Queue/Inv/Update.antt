-- ===== src/Queue/Inv/Update.antt =====
-- `heartbeat`, `complete` and `fail_with` under the lock.
use symbiotic_foundation.Base.{
  ℕ, String, true, Option, none, some, string_eq, get, ◌≡◌, refl, arith,
}
use symbiotic_foundation.Base.Int.{ℤ}
use symbiotic_foundation.Queue.Types.{succeeded, QueueItem, Failure}
use symbiotic_foundation.Queue.State.{State, is_running, set_status}
use symbiotic_foundation.Queue.Reply.{Reply, ok}
use symbiotic_foundation.Queue.Claim.{lease_deadline}
use symbiotic_foundation.Queue.Running.{
  fence, update_running, beat, completed_item, completing, failed_item, fail_verdict, retry_time,
  failing,
}
use symbiotic_foundation.Queue.Inv.Defs.{IsShaped, Changes}
use symbiotic_foundation.Queue.Inv.Changes.{touch, touch-Changes, update_item-done}
use symbiotic_foundation.Queue.Inv.Evolves.{Moves}
use symbiotic_foundation.Queue.Inv.Reclaim.{touch_then_set}

module _ {V : Type 0} where
  -- A fenced update that succeeds: the new state, and the item as the caller gets it.
  pub record Updates (id worker : String) (now : ℕ)
      (update : QueueItem V → State V → Reply (State V)) (s : State V) (item new : QueueItem V)
      : Type 0 where
    pub last : State V
    pub returns : update_running id worker now update s ≡ ok (last, new)
    pub moves : Moves item new
    pub changes : Changes s id new last

  pub fence-running :
      (item : QueueItem V) (worker : String) (now : ℕ)
      → fence item worker now ≡ none
      → is_running item.status ≡ true
  unfolding fence
  fence-running item worker now h = ground arith

  updated :
      (id worker : String) (now : ℕ) (update : QueueItem V → State V → Reply (State V))
      (s s' : State V) (item new : QueueItem V)
      → get s.items id ≡ some item
      → fence item worker now ≡ none
      → update item s ≡ ok s'
      → Moves item new
      → Changes s id new s'
      → Updates id worker now update s item new
  unfolding update_running
  updated id worker now update s s' item new at f e m c = record {
    last = s';
    returns = rw (at, update_running) (rw f (rw e (rw c.self refl)));
    moves = m;
    changes = c;
  }

  abbrev pub renewed_item : QueueItem V → ℕ → ℕ → QueueItem V
  renewed_item item until now = record item { lease_until = some until; updated_at = now }

  pub beat_lem :
      (add : ℕ → ℤ → Option ℕ) (id worker : String) (seconds now until : ℕ) (s : State V)
      (item : QueueItem V)
      → IsShaped s
      → get s.items id ≡ some item
      → fence item worker now ≡ none
      → lease_deadline add now seconds ≡ some until
      → Updates id worker now (beat add id seconds now) s item (renewed_item item until now)
  unfolding beat
  beat_lem add id worker seconds now until s item v at f d =
      let r = fence-running item worker now f in
      let c =
        touch-Changes s id (λ i. renewed_item i until now) item v at
          (record { same_id = refl; same_queue = refl; same_key = refl }) refl in
      updated id worker now (beat add id seconds now) s (touch s id (λ i. renewed_item i until now))
        item (renewed_item item until now) at f
        (rw (d, beat) (rw (update_item-done s id (λ i. renewed_item i until now) item at) refl))
        (ground arith) c

  abbrev pub succeeded_item : QueueItem V → ℕ → QueueItem V
  succeeded_item item now = record (completed_item item now) { status = succeeded }

  pub completing_lem :
      (id worker : String) (now : ℕ) (s : State V) (item : QueueItem V)
      → IsShaped s
      → get s.items id ≡ some item
      → fence item worker now ≡ none
      → Updates id worker now (completing id now) s item (succeeded_item item now)
  unfolding completing
  completing_lem id worker now s item v at f =
      let r = fence-running item worker now f in
      let c =
        touch_then_set s id item succeeded (λ i. completed_item i now) v at (ground arith)
          (record { same_id = refl; same_queue = refl; same_key = refl }) refl in
      updated id worker now (completing id now) s
        (set_status (touch s id (λ i. completed_item i now)) id succeeded) item
        (succeeded_item item now) at f
        (rw (update_item-done s id (λ i. completed_item i now) item at) refl) (ground arith) c

  abbrev pub ended_item : QueueItem V → Failure → ℕ → ℕ → QueueItem V
  ended_item item failure time now = record (failed_item item failure time now) {
    status = (fail_verdict item failure).0;
  }

  failed-Moves :
      (item : QueueItem V) (failure : Failure) (time now : ℕ)
      → is_running item.status ≡ true
      → Moves item (ended_item item failure time now)
  unfolding fail_verdict
  failed-Moves item failure time now r = ground arith

  pub failing_lem :
      (add : ℕ → ℤ → Option ℕ) (id worker : String) (failure : Failure) (now time : ℕ) (s : State V)
      (item : QueueItem V)
      → IsShaped s
      → get s.items id ≡ some item
      → fence item worker now ≡ none
      → retry_time add failure now ≡ some time
      → Updates id worker now (failing add id failure now) s item (ended_item item failure time now)
  unfolding failing
  failing_lem add id worker failure now time s item v at f t =
      let r = fence-running item worker now f in
      let status = (fail_verdict item failure).0 in
      let c =
        touch_then_set s id item status (λ i. failed_item i failure time now) v at (ground arith)
          (record { same_id = refl; same_queue = refl; same_key = refl }) refl in
      updated id worker now (failing add id failure now) s
        (set_status (touch s id (λ i. failed_item i failure time now)) id status) item
        (ended_item item failure time now) at f
        (rw (t, failing)
          (rw (update_item-done s id (λ i. failed_item i failure time now) item at) refl))
        (failed-Moves item failure time now r) c
