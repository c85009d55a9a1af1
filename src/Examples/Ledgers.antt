-- ===== src/Examples/Ledgers.antt =====
-- The theorems about the spend ledger, on a ledger with two attempts of one invocation.
use symbiotic_foundation.Model.Errors.{ModelError}
use symbiotic_foundation.Base.{
  not, ◌⊎◌, ◌&&◌, ◌+◌, ◌-◌, ◌^◌, ◌≤◌, String, true, false, none, some, List, [], ◌∷◌, string_eq,
  get, insert, modify, byte_count, ◌≡◌, ◌≢◌, refl, subst,
}
use symbiotic_foundation.Spend.Result.{ok, err, storage, is_ok}
use symbiotic_foundation.Spend.Types.{
  released, settled, SpendReservation, AcceptedSpendHandoff, UsageTrace, new_ref,
}
use symbiotic_foundation.Spend.Store.{
  Row, Db, find, update, latest, is_active, receipt_in, invocation_reference_in, invocation_in,
}
use symbiotic_foundation.Spend.Reserve.{
  open_account, charge, next_used, check_previous, new_row, insert_receipt, admit, attempt,
  reserve_with_limit_in, bind_handoff, reserve_handoff_in,
}
use symbiotic_foundation.Spend.Finish.{
  refund, lacks_evidence, write_settlement, settle, finish_in, release_in,
}
use symbiotic_foundation.Spend.Recovery.{World, expire_recovery}
use symbiotic_foundation.Spend.Calls.{
  SqliteSpendLedger, transact, reserve, reserve_explicit, refuses_handoff, is_free, take_handoff,
  acquire_in, acquire_handoff, release_before_dispatch,
}
use symbiotic_foundation.Spend.Histories.{
  Call, reserves_explicit, reserves_handoff, releases, finishes, step, run,
}
use symbiotic_foundation.Spend.Inv.Defs.{held, attempts, used_of, IsSound}
use symbiotic_foundation.Spend.Safe.Histories.{
  no_receipts-IsSound, new_ledger, run-Grows, every_history-balanced, every_history-capped,
  every_history-one_active, reconciled_receipt_kept,
}
use symbiotic_foundation.Spend.Contract.Reserving.{Answers, reserve-Answers}
use symbiotic_foundation.Spend.Contract.Repeating.{reserve_explicit_again}
use symbiotic_foundation.Spend.Contract.Granting.{grants}
use symbiotic_foundation.Spend.Contract.Handoffs.{acquire_handoff-once}
use symbiotic_foundation.Spend.Contract.Reconciling.{Settled}
use symbiotic_foundation.Spend.Contract.Settling.{may_settle, finish_in-Settled}
use symbiotic_foundation.Spend.Contract.Expiring.{
  clear_expired, expired_count, expire_recovery-ends,
}

abbrev first : SpendReservation
first = record {
  reference = "r1";
  account = "account";
  invocation = "job";
  binding = "model";
  request_limit = some 5;
}

abbrev second : SpendReservation
second = record first { reference = "r2" }

abbrev world : World
world = record {
  read_invocation = λ text. none;
  job_row = λ scope key. none;
  read_binding = λ text. none;
  identity_of = λ binding text. err storage;
  from_millis = λ millis. none;
  add_duration = λ now retention. some (now + retention);
}

-- The first attempt is released before dispatch, the second accepted.
abbrev calls : List (Call String)
calls = reserves_explicit 0 first 3 ∷ releases 1 "r1" ∷ reserves_explicit 2 second 9 ∷ []

abbrev start : SqliteSpendLedger String
start = new_ledger 10

abbrev accepted : Row String
accepted = new_row second (some 3) 1

abbrev given_back : Row String
given_back = record (new_row first (some 3) 0) { state = released; pre_dispatch_released = true }

accepted_lem : find (run "seen" world calls start).db.receipts "r2" ≡ some accepted
unfolding find run step reserve_explicit transact reserve_with_limit_in invocation_in
    invocation_reference_in latest receipt_in attempt check_previous is_active admit next_used
    charge open_account get insert modify insert_receipt release_before_dispatch release_in
    finish_in lacks_evidence settle write_settlement refund update new_ref byte_count
accepted_lem = refl

given_back_lem : find (run "seen" world calls start).db.receipts "r1" ≡ some given_back
unfolding find run step reserve_explicit transact reserve_with_limit_in invocation_in
    invocation_reference_in latest receipt_in attempt check_previous is_active admit next_used
    charge open_account get insert modify insert_receipt release_before_dispatch release_in
    finish_in lacks_evidence settle write_settlement refund update new_ref byte_count
given_back_lem = refl

every_history-balanced_example :
    (used_of (run "seen" world calls start).db.accounts "account"
      ≡ held "account" (run "seen" world calls start).db.receipts)
    × (used_of (run "seen" world calls start).db.accounts "account" ≤ 2 ^ 63 - 1)
every_history-balanced_example = every_history-balanced "seen" world calls 10 "account"

every_history-capped_example :
    attempts "account" "job" (run "seen" world calls start).db.receipts ≤ 3
every_history-capped_example =
    every_history-capped "seen" world calls 10 "r2" accepted 3 accepted_lem refl

every_history-one_active_example : accepted ≡ accepted
every_history-one_active_example =
    every_history-one_active "seen" world calls 10 "r2" "r2" accepted accepted accepted_lem
      accepted_lem refl refl refl refl

abbrev measured : UsageTrace
measured = record {
  cache_hit_tokens = none;
  cache_miss_tokens = none;
  response_id = none;
  served_model = none;
  created = none;
  input_tokens = some 7;
  output_tokens = none;
  reasoning_tokens = none;
  media_units = none;
  cost_micro_usd = none;
  reported_cost_usd = none;
}

abbrev finishes_it : Call String
finishes_it = finishes 6 7 "r2" settled (some measured) (some "answer") none

calls_lem : IsSound (run "seen" world calls start).db
calls_lem = (run-Grows "seen" world calls start no_receipts-IsSound).sound

reconciled_receipt_kept_example :
    (new : Row String) × (find
        (run "seen" world (finishes_it ∷ []) (run "seen" world calls start)).db.receipts
        "r1"
      ≡ some new)
    × (new.reservation ≡ given_back.reservation)
    × (new.state ≡ given_back.state)
    × (new.usage ≡ given_back.usage)
    × (new.output ≡ given_back.output)
reconciled_receipt_kept_example =
    reconciled_receipt_kept "seen" world (finishes_it ∷ []) (run "seen" world calls start) "r1"
      given_back calls_lem given_back_lem refl

reserve-Answers_example :
    Answers start first none (reserve 0 first start)
    × Answers start first (some 3) (reserve_explicit 0 first 3 start)
    × (is_ok (reserve 0 first start).1 ≡ (not start.poisoned && grants start.db first none false))
    × (is_ok (reserve_explicit 0 first 3 start).1
        ≡ (not start.poisoned && grants start.db first (some 3) false))
reserve-Answers_example = reserve-Answers 0 3 first start no_receipts-IsSound

taken_once : (reserve_explicit 0 first 3 start).1 ≡ ok true
unfolding reserve_explicit transact reserve_with_limit_in invocation_in invocation_reference_in
    latest receipt_in find attempt check_previous is_active admit next_used charge open_account get
    insert modify insert_receipt
taken_once = refl

first_ref : new_ref "r1" ≡ ok "r1"
unfolding new_ref byte_count
first_ref = refl

reserve_explicit_again_example :
    (reserve_explicit 5 first 4 (reserve_explicit 0 first 3 start).0
      ≡ ((reserve_explicit 0 first 3 start).0, ok false))
    × ((reserve_explicit 5 first 4
          (run "seen" world (releases 1 "r1" ∷ []) (reserve_explicit 0 first 3 start).0)).1
        ≢ ok true)
reserve_explicit_again_example =
    reserve_explicit_again "seen" world (releases 1 "r1" ∷ []) 0 5 3 4 first first start
      no_receipts-IsSound first_ref taken_once refl

abbrev handoff : AcceptedSpendHandoff
handoff = record { reservation = first; input_identity = "input" }

abbrev handed : SqliteSpendLedger String
handed = run "seen" world (reserves_handoff 0 handoff ∷ []) start

handed_lem : IsSound handed.db
handed_lem =
    (run-Grows "seen" world (reserves_handoff 0 handoff ∷ []) start no_receipts-IsSound).sound

acquired_lem : (acquire_handoff 1 handoff "account" "input" "worker" handed).1 ≡ ok tt
unfolding run step acquire_handoff transact acquire_in take_handoff receipt_in find is_free
    refuses_handoff update reserve_handoff_in bind_handoff reserve_with_limit_in invocation_in
    invocation_reference_in latest attempt check_previous is_active admit next_used charge
    open_account get insert modify insert_receipt
acquired_lem = refl

acquire_handoff-once_example :
    ((acquire_handoff 2 handoff "account" "input" "other"
        (run "seen" world [] (acquire_handoff 1 handoff "account" "input" "worker" handed).0)).0
      ≡ run "seen" world [] (acquire_handoff 1 handoff "account" "input" "worker" handed).0)
    × (is_ok
          (acquire_handoff 2 handoff "account" "input" "other"
            (run "seen" world [] (acquire_handoff 1 handoff "account" "input" "worker" handed).0)).1
        ≡ false)
acquire_handoff-once_example =
    acquire_handoff-once "seen" world [] 1 2 handoff handoff "account" "input" "worker" "account"
      "input" "other" handed handed_lem acquired_lem refl

abbrev one_receipt : Db String
one_receipt = record { accounts = ("account", 1) ∷ []; receipts = new_row first (some 3) 1 ∷ [] }

one_receipt_lem : (reserve_explicit 0 first 3 start).0.db ≡ one_receipt
unfolding reserve_explicit transact reserve_with_limit_in invocation_in invocation_reference_in
    latest receipt_in find attempt check_previous is_active admit next_used charge open_account get
    insert modify insert_receipt
one_receipt_lem = refl

one_receipt-IsSound : IsSound one_receipt
unfolding step run
one_receipt-IsSound =
    subst (λ d. IsSound d) one_receipt_lem
      (run-Grows "seen" world (reserves_explicit 0 first 3 ∷ []) start no_receipts-IsSound).sound

finish_in-Settled_example :
    ((may_settle "seen" 1 (find one_receipt.receipts "r1") settled (some measured) (some "answer")
        ≡ true)
      × ((left : Db String) × (finish_in "seen" 1 one_receipt "r1" settled
              (some measured)
              (some "answer")
            ≡ ok left)
          × ((row : Row String) × Settled "seen" one_receipt left "r1" settled (some "answer") row)
          × (finish_in "seen" 9 left "r1" settled (some measured) (some "answer") ≡ ok left)))
    ⊎ ((may_settle "seen" 1 (find one_receipt.receipts "r1") settled (some measured) (some "answer")
          ≡ false)
        × ((e : ModelError) × (finish_in "seen" 1 one_receipt "r1" settled
                (some measured)
                (some "answer")
              ≡ err e)))
finish_in-Settled_example =
    finish_in-Settled "seen" 1 9 one_receipt "r1" settled (some measured) (some "answer")
      one_receipt-IsSound

expire_recovery-ends_example :
    expire_recovery 4 one_receipt
    ≡ some (
      record one_receipt { receipts = clear_expired 4 one_receipt.receipts },
      expired_count 4 one_receipt.receipts,
    )
expire_recovery-ends_example = expire_recovery-ends 4 one_receipt one_receipt-IsSound
