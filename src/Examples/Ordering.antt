-- ===== src/Examples/Ordering.antt =====
-- The order of the ready items, with a later and an earlier one.
use symbiotic_foundation.Base.{
  ℕ, String, true, none, List, [], ◌∷◌, length, contains, string_eq, ◌≡◌,
}
use symbiotic_foundation.Queue.Types.{QueueItem, pending}
use symbiotic_foundation.Queue.Ready.{sort_ready}
use symbiotic_foundation.Queue.Contract.Ordering.{are_due_in_order, names, sort_ready-in_order}

abbrev due_at : String → ℕ → QueueItem ℕ
due_at id time = record {
  item_id = id;
  queue_id = "mail";
  kind = "send";
  payload = 7;
  status = pending;
  attempt = 0;
  max_attempts = 3;
  run_after = time;
  lease_owner = none;
  lease_until = none;
  idempotency_key = none;
  last_error = none;
  last_error_class = none;
  created_at = 5;
  updated_at = 5;
}

abbrev two : List (QueueItem ℕ)
two = due_at "late" 20 ∷ due_at "early" 10 ∷ []

sort_ready-in_order_example :
    (are_due_in_order (sort_ready two) ≡ true)
    × (length (sort_ready two) ≡ 2)
    × ((id : String) → contains id (names (sort_ready two)) ≡ contains id (names two))
sort_ready-in_order_example = sort_ready-in_order two
