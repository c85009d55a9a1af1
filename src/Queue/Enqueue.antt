-- ===== src/Queue/Enqueue.antt =====
-- `enqueue_inner` of crates/symbiotic-queue/src/memory.rs, as it works on the state under the lock.
-- The reading of the clock and the identifier that a call draws are its arguments.
use symbiotic_foundation.Base.{
  ℕ, String, Bool, true, false, not, ◌&&◌, ◌||◌, Option, none, some, max, ◌==◌, string_eq, pair_eq,
  if◌then◌else◌, get_or, is_some, get, insert, modify,
}
use symbiotic_foundation.Core.Diagnostics.{DiagnosticCode, lease_expired, queue}
use symbiotic_foundation.Queue.Types.{
  QueueStatus, pending, failed, stopped, EnqueueRequest, inserted, active_duplicate,
  terminal_duplicate, QueueItem, EnqueueOutcome,
}
use symbiotic_foundation.Queue.State.{State, is_active, set_status}

abbrev pub is_failed : QueueStatus → Bool
is_failed failed = true
is_failed _ = false

abbrev is_lease_expired : Option DiagnosticCode → Bool
is_lease_expired (some lease_expired) = true
is_lease_expired _ = false

-- The newest item for the request's idempotency key.
unfoldable pub duplicate : {V : Type 0} → State V → EnqueueRequest V → Option (QueueItem V)
duplicate s request = elim request.idempotency_key [
  | none ↦ none
  | some key ↦ elim (get s.idempotency (request.queue_id, key)) [
    | none ↦ none
    | some id ↦ get s.items id
  ]
]

abbrev superseded : {V : Type 0} → Option String → QueueItem V → Bool
superseded none existing = false
superseded (some current) existing = not (existing.item_id == current)

abbrev reclaimed : {V : Type 0} → Option String → QueueItem V → Bool
reclaimed replacing existing =
    is_some replacing && is_failed existing.status && is_lease_expired existing.last_error

-- Whether that item stands in the way of a new one.
unfoldable pub refuses : {V : Type 0} → EnqueueRequest V → Option String → QueueItem V → Bool
refuses request replacing existing =
    (is_active existing.status && not (reclaimed replacing existing))
    || not request.force
    || superseded replacing existing

abbrev pub stop_replaced : {V : Type 0} → State V → String → State V
stop_replaced s current =
    let s' = set_status s current stopped in
    record s' { items = modify s'.items current (λ i. record i { last_error_class = some queue }) }

-- An item that is replaced while it waits for a retry is stopped for good.
unfoldable pub retire_replaced : {V : Type 0} → State V → Option String → State V
retire_replaced s none = s
retire_replaced s (some current) = elim (get s.items current) [
  | none ↦ s
  | some item ↦ if is_failed item.status then stop_replaced s current else s
]

abbrev pub new_item : {V : Type 0} → EnqueueRequest V → String → ℕ → QueueItem V
new_item request id now = record {
  item_id = id;
  queue_id = request.queue_id;
  kind = request.kind;
  payload = request.payload;
  status = pending;
  attempt = 0;
  max_attempts = max (get_or request.max_attempts 3) 1;
  run_after = get_or request.run_after now;
  lease_owner = none;
  lease_until = none;
  idempotency_key = request.idempotency_key;
  last_error = none;
  last_error_class = none;
  created_at = now;
  updated_at = now;
}

unfoldable pub index_key : {V : Type 0} → State V → QueueItem V → State V
index_key s item = elim item.idempotency_key [
  | none ↦ s
  | some key ↦ record s { idempotency = insert s.idempotency (item.queue_id, key) item.item_id }
]

unfoldable pub insert_item : {V : Type 0} → State V → QueueItem V → State V
unfolding index_key
insert_item s item =
    let s' = index_key s item in record s' { items = insert s'.items item.item_id item }

abbrev pub fresh_outcome : {V : Type 0} → QueueItem V → EnqueueOutcome V
fresh_outcome item = record { item = item; disposition = inserted }

abbrev pub duplicate_outcome : {V : Type 0} → QueueItem V → EnqueueOutcome V
duplicate_outcome existing = record {
  item = existing;
  disposition = if is_active existing.status then active_duplicate else terminal_duplicate;
}

unfoldable pub enqueue_locked :
    {V : Type 0}
    → EnqueueRequest V
    → Option String
    → String
    → ℕ
    → State V
    → State V × EnqueueOutcome V
enqueue_locked {V} request replacing id now s =
    let item = new_item request id now in
    let added : State V × EnqueueOutcome V =
      (insert_item (retire_replaced s replacing) item, fresh_outcome item) in
    elim (duplicate s request) [
      | none ↦ added
      | some existing ↦
          if refuses request replacing existing then (s, duplicate_outcome existing) else added
    ]
