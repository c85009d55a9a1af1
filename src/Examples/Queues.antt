-- ===== src/Examples/Queues.antt =====
-- The theorems about the queue, on a queue with one item.
use symbiotic_foundation.Base.{
  ℕ, ◌+◌, false, Option, none, some, [], ◌∷◌, get, insert, modify, is_white, string_eq, pair_eq,
  ◌≡◌, ◌⊎◌, refl, arith, is_blank,
}
use symbiotic_foundation.Base.Int.{ℤ, pos, negsuc}
use symbiotic_foundation.Core.Diagnostics.{invalid_configuration, lease_expired}
use symbiotic_foundation.Queue.Types.{
  EnqueueRequest, EnqueueOutcome, QueueItem, ClaimRequest, Failure, FailOutcome, pending, running,
  succeeded, failed, invalid_request,
}
use symbiotic_foundation.Queue.Reply.{ok, err, MemoryQueue, locked, emit}
use symbiotic_foundation.Queue.Claim.{
  Clock, lease_deadline, claimable, claim_item_locked, claim_left, claim_present, lease_claimed,
  cooling, claim_locked, claim_ready, claim_limit, lease_each,
}
use symbiotic_foundation.Queue.Ready.{ready_ids, sort_ready, place, is_ready}
use symbiotic_foundation.Queue.Enqueue.{
  duplicate_outcome, duplicate, enqueue_locked, retire_replaced, insert_item, index_key,
}
use symbiotic_foundation.Queue.Running.{completed_item}
use symbiotic_foundation.Queue.Backend.{
  with_terminal_retention, enqueue, enqueue_replacing, claim, claim_item, complete, heartbeat,
  fail_with, note_cooldown, cooldown_until, reclaim_expired_leases, enqueue_inner,
}
use symbiotic_foundation.Queue.State.{
  running_count, reclaim_expired, reclaim_each, expired_ids, retire_if_exhausted, lease, set_status,
  write_status, push_terminal, index_running, enter_running, update_item, evict_terminal,
  evict_window,
}
use symbiotic_foundation.Queue.Contract.Settling.{
  complete-held, heartbeat-held, fail_with-held, without_lease-refused, Settles, refusal,
}
use symbiotic_foundation.Queue.Contract.Enqueueing.{enqueue_again}
use symbiotic_foundation.Queue.Contract.Replacing.{Outcome, enqueue_replacing-Replaces}
use symbiotic_foundation.Queue.Contract.Cooling.{note_cooldown-cooldown_until, note_cooldown-claim}
use symbiotic_foundation.Queue.Contract.Reclaiming.{reclaim-Clears, Clears}
use symbiotic_foundation.Queue.Contract.Claiming.{claim-Hands, Hands, claim-complete}
use symbiotic_foundation.Queue.Inv.Update.{renewed_item}
use symbiotic_foundation.Queue.Calls.{enqueues, claims_item, completes, step, History, start, call}
use symbiotic_foundation.Queue.Safe.Rules.{IsSound}
use symbiotic_foundation.Queue.Safe.Histories.{
  every_history-IsSound, no_call_panics, ended_item_settled,
}

-- Chrono's addition of seconds, for small numbers.
abbrev add : ℕ → ℤ → Option ℕ
add t (pos n) = some (t + n)
add t (negsuc n) = none

abbrev at : ℕ → Clock
at t = record { now = t; cooldown_now = t; stamp = λ i. t }

abbrev request : EnqueueRequest ℕ
request = record {
  queue_id = "mail";
  kind = "send";
  payload = 7;
  idempotency_key = some "k";
  run_after = none;
  max_attempts = none;
  force = false;
}

abbrev failure : Failure
failure = record { error = lease_expired; error_class = none; run_after = some 40 }

abbrev empty : MemoryQueue ℕ
empty = with_terminal_retention 2

-- An item is added, claimed by `w`, and completed.
abbrev one_added : MemoryQueue ℕ
one_added = (step add (enqueues (at 10) "a" request) empty).0

abbrev one_claimed : MemoryQueue ℕ
one_claimed = (step add (claims_item (at 11) "a" "w" 60 none) one_added).0

abbrev one_completed : MemoryQueue ℕ
one_completed = (step add (completes (at 12) "a" "w") one_claimed).0

history : History add empty one_completed
unfolding with_terminal_retention get
history =
    call
      (call (call start (enqueues (at 10) "a" request) refl) (claims_item (at 11) "a" "w" 60 none)
        tt)
      (completes (at 12) "a" "w") tt

every_history-IsSound_example : IsSound one_completed
every_history-IsSound_example = every_history-IsSound add 2 one_completed history

abbrev waiting_item : QueueItem ℕ
waiting_item = record {
  item_id = "a";
  queue_id = "mail";
  kind = "send";
  payload = 7;
  status = pending;
  attempt = 0;
  max_attempts = 3;
  run_after = 10;
  lease_owner = none;
  lease_until = none;
  idempotency_key = some "k";
  last_error = none;
  last_error_class = none;
  created_at = 10;
  updated_at = 10;
}

abbrev running_item : QueueItem ℕ
running_item = record waiting_item {
  status = running;
  attempt = 1;
  lease_owner = some "w";
  lease_until = some 71;
  updated_at = 11;
}

added : History add empty one_added
unfolding with_terminal_retention get
added = call start (enqueues (at 10) "a" request) refl

claimed : History add empty one_claimed
claimed = call added (claims_item (at 11) "a" "w" 60 none) tt

one_added-IsSound : IsSound one_added
one_added-IsSound = every_history-IsSound add 2 one_added added

one_claimed-IsSound : IsSound one_claimed
one_claimed-IsSound = every_history-IsSound add 2 one_claimed claimed

waits : get one_added.state.items "a" ≡ some waiting_item
unfolding step enqueue enqueue_inner enqueue_locked locked with_terminal_retention get insert
    is_blank is_white emit duplicate retire_replaced insert_item index_key
waits = refl

runs : get one_claimed.state.items "a" ≡ some running_item
unfolding step enqueue enqueue_inner enqueue_locked locked with_terminal_retention get insert
    is_blank is_white emit duplicate retire_replaced insert_item index_key claim_item
    claim_item_locked claim_left claim_present lease_claimed lease reclaim_expired reclaim_each
    expired_ids retire_if_exhausted claimable running_count lease_deadline set_status write_status
    push_terminal index_running enter_running update_item modify evict_terminal evict_window
runs = refl

ended :
    get one_completed.state.items "a"
    ≡ some (record (completed_item running_item 12) { status = succeeded })
unfolding step complete
ended =
    (complete-held (at 12) "a" "w" one_claimed running_item one_claimed-IsSound runs
      (rw runs refl)).item

no_call_panics_example : (step add (completes (at 13) "a" "w") one_completed).1 ≡ false
no_call_panics_example = no_call_panics add 2 one_completed (completes (at 13) "a" "w") history tt

ended_item_settled_example :
    (get (step add (completes (at 13) "a" "w") one_completed).0.state.items "a"
      ≡ some (record (completed_item running_item 12) { status = succeeded }))
    ⊎ (get (step add (completes (at 13) "a" "w") one_completed).0.state.items "a" ≡ none)
ended_item_settled_example =
    ended_item_settled add (completes (at 13) "a" "w") one_completed "a" _
      every_history-IsSound_example tt ended refl

without_lease-refused_example :
    (complete (at 12) "a" "thief" one_claimed
      ≡ (one_claimed, err (refusal (get one_claimed.state.items "a"))))
    × (heartbeat add (at 12) "a" "thief" 5 one_claimed
        ≡ (one_claimed, err (refusal (get one_claimed.state.items "a"))))
    × (fail_with add (at 12) "a" "thief" failure one_claimed
        ≡ (one_claimed, err (refusal (get one_claimed.state.items "a"))))
without_lease-refused_example =
    without_lease-refused add (at 12) "a" "thief" 5 failure one_claimed one_claimed-IsSound
      (rw runs refl)

complete-held_example :
    Settles one_claimed "a"
      (record running_item {
        status = succeeded;
        lease_owner = none;
        lease_until = none;
        last_error = none;
        last_error_class = none;
        updated_at = 12;
      })
      tt
      (complete (at 12) "a" "w" one_claimed)
complete-held_example =
    complete-held (at 12) "a" "w" one_claimed running_item one_claimed-IsSound runs (rw runs refl)

heartbeat-held_example :
    ((until : ℕ) × (lease_deadline add 12 5 ≡ some until)
      × Settles one_claimed "a"
          (renewed_item running_item until 12)
          tt
          (heartbeat add (at 12) "a" "w" 5 one_claimed))
    ⊎ ((lease_deadline add 12 5 ≡ none)
        × (heartbeat add (at 12) "a" "w" 5 one_claimed
            ≡ (one_claimed, err (invalid_request invalid_configuration))))
heartbeat-held_example =
    heartbeat-held add (at 12) "a" "w" 5 one_claimed running_item one_claimed-IsSound runs
      (rw runs refl)

fail_with-held_example :
    Settles one_claimed "a"
      (record running_item {
        status = failed;
        run_after = 40;
        lease_owner = none;
        lease_until = none;
        last_error = some failure.error;
        last_error_class = failure.error_class;
        updated_at = 12;
      })
      FailOutcome.retry_scheduled
      (fail_with add (at 12) "a" "w" failure one_claimed)
fail_with-held_example =
    fail_with-held add (at 12) "a" "w" failure 40 one_claimed running_item one_claimed-IsSound runs
      (rw runs refl) refl

abbrev claim_request : ClaimRequest
claim_request = record {
  queue_id = "mail";
  worker_id = "w";
  limit = 5;
  lease_seconds = 60;
  max_in_flight = some 2;
}

not_cooling : cooling one_added.state "mail" 11 ≡ false
unfolding step enqueue enqueue_inner enqueue_locked locked with_terminal_retention get insert
    is_blank is_white emit duplicate retire_replaced insert_item index_key
not_cooling = refl

claim-Hands_example :
    Hands claim_request 71 (at 11) one_added.state (claim add (at 11) claim_request one_added)
unfolding is_blank is_white lease_deadline
claim-Hands_example =
    claim-Hands add (at 11) claim_request 71 one_added one_added-IsSound refl refl not_cooling

answers : (claim add (at 11) claim_request one_added).1 ≡ ok (running_item ∷ [])
unfolding step enqueue enqueue_inner enqueue_locked locked with_terminal_retention get insert
    is_blank is_white emit duplicate retire_replaced insert_item index_key claim claim_locked
    claim_ready claim_limit ready_ids sort_ready place is_ready lease_each lease reclaim_expired
    reclaim_each expired_ids running_count lease_deadline set_status write_status push_terminal
    index_running enter_running update_item modify
answers = refl

claim-complete_example :
    Settles
      (claim add (at 11) claim_request one_added).0
      "a"
      (record running_item {
        status = succeeded;
        lease_owner = none;
        lease_until = none;
        last_error = none;
        last_error_class = none;
        updated_at = 12;
      })
      tt
      (complete (at 12) "a" "w" (claim add (at 11) claim_request one_added).0)
unfolding is_blank is_white lease_deadline
claim-complete_example =
    claim-complete add (at 11) (at 12) claim_request 71 0 (running_item ∷ []) running_item one_added
      one_added-IsSound refl refl not_cooling answers refl (omega arith)

reclaim-Clears_example :
    Clears "mail" 100 one_claimed.state (reclaim_expired_leases (at 100) "mail" one_claimed)
reclaim-Clears_example = reclaim-Clears (at 100) "mail" one_claimed one_claimed-IsSound

unused : get one_added.state.items "b" ≡ none
unfolding step enqueue enqueue_inner enqueue_locked locked with_terminal_retention get insert
    is_blank is_white emit duplicate retire_replaced insert_item index_key
unused = refl

enqueue_replacing-Replaces_example :
    Outcome request "b" "a" 20 one_added (enqueue_replacing (at 20) "b" request "a" one_added)
unfolding is_blank is_white
enqueue_replacing-Replaces_example =
    enqueue_replacing-Replaces (at 20) "b" "a" request one_added one_added-IsSound unused refl

enqueue_again_example :
    (first : EnqueueOutcome ℕ) × ((enqueue (at 10) "a" request empty).1 ≡ ok first)
    × (enqueue (at 20) "b" request (enqueue (at 10) "a" request empty).0
        ≡ ((enqueue (at 10) "a" request empty).0, ok (duplicate_outcome first.item)))
unfolding is_blank is_white with_terminal_retention get
enqueue_again_example =
    enqueue_again (at 10) (at 20) "a" "b" request request empty
      (every_history-IsSound add 2 empty start) refl refl refl refl refl

note_cooldown-cooldown_until_example :
    (cooldown_until "mail" (note_cooldown "mail" 50 one_added).0).1 ≡ ok (some 50)
unfolding step enqueue enqueue_inner enqueue_locked locked with_terminal_retention get insert
    is_blank is_white emit duplicate retire_replaced insert_item index_key
note_cooldown-cooldown_until_example =
    note_cooldown-cooldown_until "mail" "mail" 50 one_added one_added-IsSound

note_cooldown-claim_example :
    let r = (note_cooldown "mail" 20 (note_cooldown "mail" 50 one_added).0).0 in
    ((claim add (at 11) claim_request r).1 ≡ ok [])
    × ((claim add (at 11) claim_request r).0.state ≡ r.state)
unfolding is_blank is_white lease_deadline
note_cooldown-claim_example =
    note_cooldown-claim add (at 11) claim_request 71 50 20 "mail" one_added one_added-IsSound refl
      refl (omega arith)
