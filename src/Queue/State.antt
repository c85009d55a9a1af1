-- ===== src/Queue/State.antt =====
-- The state of crates/symbiotic-queue/src/memory.rs behind the lock, and `impl State`.
-- Hash maps are association lists, hash sets lists without repetition; an `expect` or an index
-- that fails is `panicked`.
use symbiotic_foundation.Base.{
  ℕ, ◌+◌, ◌-◌, ◌^◌, String, Bool, true, false, not, ◌||◌, Option, none, some, List, [], ◌∷◌, ◌++◌,
  min, ltb, leb, ◌==◌, string_eq, pair_eq, if◌then◌else◌, get_or, length, contains, delete,
  is_empty, get, insert, remove, modify,
}
use symbiotic_foundation.Base.Outcome.{Outcome, done, panicked, ◌>>=◌, expect}
use symbiotic_foundation.Core.Diagnostics.{lease_expired, attempt_budget_exhausted, queue}
use symbiotic_foundation.Queue.Types.{
  QueueStatus, pending, running, succeeded, failed, dead, stopped, QueueItem,
}

abbrev pub is_running : QueueStatus → Bool
is_running running = true
is_running _ = false

-- `State::is_active`
abbrev pub is_active : QueueStatus → Bool
is_active pending = true
is_active running = true
is_active failed = true
is_active _ = false

-- Waiting for a claim: the test `Pending | Failed`.
abbrev pub is_waiting : QueueStatus → Bool
is_waiting pending = true
is_waiting failed = true
is_waiting _ = false

abbrev pub is_terminal : QueueStatus → Bool
is_terminal succeeded = true
is_terminal dead = true
is_terminal stopped = true
is_terminal _ = false

pub record State (V : Type 0) : Type 0 where
  pub items : List (String × QueueItem V)
  pub idempotency : List ((String × String) × String)
  pub running_index : List (String × List String)
  pub terminal : List String
  pub retain_terminal : ℕ
  pub cooldowns : List (String × ℕ)

-- `u32::saturating_add(1)`
abbrev pub next_attempt : ℕ → ℕ
next_attempt n = min (n + 1) (2 ^ 32 - 1)

module _ {V : Type 0} where
  abbrev pub running_set : State V → String → List String
  running_set s q = get_or (get s.running_index q) []

  unfoldable pub running_count : State V → String → ℕ
  running_count s q = length (running_set s q)

  -- The part of `evict_terminal` that forgets one item and, if it is still the newest for its
  -- idempotency key, that key.
  unfoldable pub drop_key : State V → String → QueueItem V → State V
  drop_key s evicted item = elim item.idempotency_key [
    | none ↦ s
    | some key ↦ elim (get s.idempotency (item.queue_id, key)) [
      | none ↦ s
      | some newest ↦
          if newest == evicted
          then record s { idempotency = remove s.idempotency (item.queue_id, key) }
          else s
    ]
  ]

  unfoldable pub evict_item : State V → String → State V
  evict_item s evicted = elim (get s.items evicted) [
    | none ↦ s
    | some item ↦ drop_key (record s { items = remove s.items evicted }) evicted item
  ]

  -- The loop of `evict_terminal` over the window, oldest first.
  unfoldable pub evict_window : List String → State V → State V
  evict_window [] s = record s { terminal = [] }
  evict_window (oldest ∷ rest) s =
      let more = evict_window rest (evict_item s oldest) in
      if ltb s.retain_terminal (length (oldest ∷ rest))
      then more
      else record s { terminal = oldest ∷ rest }

  unfoldable pub evict_terminal : State V → State V
  evict_terminal s = evict_window s.terminal s

  -- The running index after an item of queue `q` leaves or enters `Running`.
  unfoldable pub leave_running : State V → String → String → State V
  leave_running s q id = elim (get s.running_index q) [
    | none ↦ s
    | some ids ↦
        if is_empty (delete id ids)
        then record s { running_index = remove s.running_index q }
        else record s { running_index = insert s.running_index q (delete id ids) }
  ]

  unfoldable pub enter_running : State V → String → String → State V
  enter_running s q id =
      if contains id (running_set s q)
      then s
      else record s { running_index = insert s.running_index q (id ∷ running_set s q) }

  unfoldable pub index_running : State V → QueueItem V → String → QueueStatus → State V
  index_running s item id status =
      if is_running item.status
      then if is_running status then s else leave_running s item.queue_id id
      else if is_running status
      then enter_running s item.queue_id id
      else s

  unfoldable pub push_terminal : State V → String → QueueStatus → State V
  push_terminal s id status =
      if is_terminal status
      then evict_terminal (record s { terminal = s.terminal ++ id ∷ [] })
      else s

  -- Only the status of the item, before the indices follow.
  unfoldable pub write_status : State V → String → QueueStatus → State V
  write_status s id status = record s {
    items = modify s.items id (λ i. record i { status = status });
  }

  unfoldable pub set_status : State V → String → QueueStatus → State V
  set_status s id status = elim (get s.items id) [
    | none ↦ s
    | some item ↦ push_terminal (index_running (write_status s id status) item id status) id status
  ]

  -- `let item = self.items.get_mut(id).expect(…); …`
  unfoldable pub update_item : State V → String → (QueueItem V → QueueItem V) → Outcome (State V)
  update_item s id f = elim (get s.items id) [
    | none ↦ panicked
    | some _ ↦ done (record s { items = modify s.items id f })
  ]

  abbrev pub lease_over : QueueItem V → ℕ → Bool
  lease_over item now = elim item.lease_until [ none ↦ false | some until ↦ ltb until now ]

  unfoldable pub expired_ids : State V → ℕ → List String → Outcome (List String)
  expired_ids s now [] = done []
  expired_ids s now (id ∷ ids) = do
    item ← expect (get s.items id)
    rest ← expired_ids s now ids
    done (if lease_over item now then id ∷ rest else rest)

  abbrev pub expired_item : QueueItem V → ℕ → QueueItem V
  expired_item item now = record item {
    lease_owner = none;
    lease_until = none;
    updated_at = now;
    last_error = some lease_expired;
    last_error_class = some queue;
  }

  abbrev pub expired_status : QueueItem V → QueueStatus
  expired_status item = if leb item.max_attempts item.attempt then dead else failed

  unfoldable pub reclaim_one : State V → ℕ → String → Outcome (State V)
  reclaim_one s now id = do
    item ← expect (get s.items id)
    update_item (set_status s id (expired_status item)) id (λ i. expired_item i now)

  unfoldable pub reclaim_each : State V → ℕ → List String → Outcome (State V × List (QueueItem V))
  reclaim_each s now [] = done (s, [])
  reclaim_each s now (id ∷ ids) = do
    after ← reclaim_one s now id
    item ← expect (get after.items id)
    (last, items) ← reclaim_each after now ids
    done (last, item ∷ items)

  unfoldable pub reclaim_expired : State V → String → ℕ → Outcome (State V × List (QueueItem V))
  reclaim_expired s q now = do ids ← expired_ids s now (running_set s q); reclaim_each s now ids

  abbrev pub exhausted_item : QueueItem V → ℕ → QueueItem V
  exhausted_item item now = record item {
    updated_at = now;
    last_error = some (get_or item.last_error attempt_budget_exhausted);
  }

  unfoldable pub retire_if_exhausted : State V → String → ℕ → State V × Option (QueueItem V)
  retire_if_exhausted s id now = elim (get s.items id) [
    | none ↦ (s, none)
    | some item ↦
        if not (is_waiting item.status) || ltb item.attempt item.max_attempts
        then (s, none)
        else let s' =
            set_status (record s { items = modify s.items id (λ i. exhausted_item i now) }) id
              dead in
          (s', get s'.items id)
  ]

  abbrev pub leased_item : QueueItem V → String → ℕ → ℕ → QueueItem V
  leased_item item worker until now = record item {
    attempt = next_attempt item.attempt;
    lease_owner = some worker;
    lease_until = some until;
    updated_at = now;
  }

  unfoldable pub lease : State V → String → String → ℕ → ℕ → Outcome (State V)
  lease s id worker until now =
      update_item (set_status s id running) id (λ i. leased_item i worker until now)
