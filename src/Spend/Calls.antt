-- ===== src/Spend/Calls.antt =====
-- `SqliteSpendLedger` as a `SpendLedger`: each call takes the lock, and works in a transaction of
-- its own that an error rolls back. `UnavailableSpendLedger` refuses every call.
use symbiotic_foundation.Base.{
  ℕ, String, Bool, false, not, ◌&&◌, ◌||◌, Option, none, some, Key, ◌==◌, string_eq, is_some,
  if◌then◌else◌, nat_eq,
}
use symbiotic_foundation.Spend.Result.{
  Result, ok, err, storage, conflict, ◌>>=◌, ◌>>◌, refuse_if, ok_or,
}
use symbiotic_foundation.Spend.Types.{
  SpendState, unknown, same_state, SpendReservation, same_reservation, AcceptedSpendHandoff,
  UsageTrace, SpendReceipt,
}
use symbiotic_foundation.Spend.Store.{Row, Db, find, update, is_unknown, receipt_in, invocation_in}
use symbiotic_foundation.Spend.Reserve.{reserve_in, reserve_with_limit_in, is_input}
use symbiotic_foundation.Spend.Finish.{finish_in, release_in}
use symbiotic_foundation.Spend.Recovery.{
  World, save_recovery_in, discard_recovery, purge_recovery, expire_recovery,
}

-- The ledger behind its handle: the tables, the retention of answers in the unit of
-- `add_duration`, and whether a panic under the lock has poisoned it.
pub record SqliteSpendLedger (J : Type 0) : Type 0 where
  pub db : Db J
  pub retention : ℕ
  pub poisoned : Bool

-- `QUEUE_SCHEMA_VERSION` is a parameter of `SqliteSpendLedger::open`, which refuses tables of any
-- other version.
unfoldable pub open_ledger :
    {J : Type 0} → (current version : ℕ) → (retention : ℕ) → Db J → Result (SqliteSpendLedger J)
open_ledger current version retention db =
    if version == current
    then ok (record { db = db; retention = retention; poisoned = false })
    else err storage

abbrev pub committed :
    {J A : Type 0} → SqliteSpendLedger J → Result (A × Db J) → SqliteSpendLedger J × Result A
committed l (ok (a, db)) = (record l { db = db }, ok a)
committed l (err e) = (l, err e)

-- `lock`, a transaction, and `commit`.
unfoldable pub transact :
    {J A : Type 0}
    → (Db J → Result (A × Db J))
    → SqliteSpendLedger J
    → SqliteSpendLedger J × Result A
transact work l = if l.poisoned then (l, err storage) else committed l (work l.db)

-- A call that only reads.
unfoldable pub query : {J A : Type 0} → (Db J → Result A) → SqliteSpendLedger J → Result A
query read l = if l.poisoned then err storage else read l.db

abbrev pub unit_of : {J : Type 0} → Result (Db J) → Result (Unit {0} × Db J)
unit_of (ok db) = ok (tt, db)
unit_of (err e) = err e

abbrev pub swapped : {A B : Type 0} → Result (A × B) → Result (B × A)
swapped (ok (a, b)) = ok (b, a)
swapped (err e) = err e

module _ {J : Type 0} where
  unfoldable pub reserve :
      ℕ → SpendReservation → SqliteSpendLedger J → SqliteSpendLedger J × Result Bool
  reserve now r = transact λ db. reserve_in now db r

  unfoldable pub reserve_explicit :
      ℕ → SpendReservation → ℕ → SqliteSpendLedger J → SqliteSpendLedger J × Result Bool
  reserve_explicit now r limit = transact λ db. reserve_with_limit_in now db r (some limit) false

  -- Why a handoff is refused on its receipt.
  unfoldable pub refuses_handoff :
      SpendReceipt J → AcceptedSpendHandoff → String → String → String → Bool
  refuses_handoff old h account input_identity owner =
      not (same_reservation old.reservation h.reservation)
      || not (same_state old.state unknown)
      || not (old.reservation.account == account)
      || not (h.input_identity == input_identity)
      || owner == ""

  -- The condition of the update that takes the handoff.
  unfoldable pub is_free : Row J → String → Bool
  is_free row input_identity =
      is_input row.handoff_input input_identity
      && not (is_some row.dispatch_owner)
      && is_unknown row

  abbrev pub own : String → Row J → Row J
  own owner row = record row { dispatch_owner = some owner }

  unfoldable pub take_handoff : Db J → String → String → String → Result (Db J)
  take_handoff db reference input_identity owner = do
    row ← ok_or (find db.receipts reference) conflict
    refuse_if (not (is_free row input_identity)) conflict
    ok (record db { receipts = update db.receipts reference (own owner) })

  unfoldable pub acquire_in :
      ℕ → Db J → AcceptedSpendHandoff → String → String → String → Result (Db J)
  acquire_in now db h account input_identity owner = do
    old ← ok_or (receipt_in now db h.reservation.reference) conflict
    refuse_if (refuses_handoff old h account input_identity owner) conflict
    take_handoff db h.reservation.reference input_identity owner

  unfoldable pub acquire_handoff :
      ℕ
      → AcceptedSpendHandoff
      → String
      → String
      → String
      → SqliteSpendLedger J
      → SqliteSpendLedger J × Result (Unit {0})
  acquire_handoff now h account input_identity owner =
      transact λ db. unit_of (acquire_in now db h account input_identity owner)

  unfoldable pub discard :
      String → String → SqliteSpendLedger J → SqliteSpendLedger J × Result (Unit {0})
  discard account invocation = transact λ db. ok (tt, discard_recovery db account invocation)

  unfoldable pub purge : (J → Result Bool) → SqliteSpendLedger J → SqliteSpendLedger J × Result ℕ
  purge matches = transact λ db. swapped (purge_recovery matches db)

  unfoldable pub receipt : ℕ → String → SqliteSpendLedger J → Result (Option (SpendReceipt J))
  receipt now reference = query λ db. ok (receipt_in now db reference)

  unfoldable pub invocation :
      ℕ → String → String → SqliteSpendLedger J → Result (Option (SpendReceipt J))
  invocation now account key = query λ db. invocation_in now db account key

  -- `expire_recovery`, where `none` would say that its loop runs on.
  unfoldable pub expire : ℕ → SqliteSpendLedger J → Option (SqliteSpendLedger J × Result ℕ)
  expire now l = if l.poisoned then some (l, err storage) else elim (expire_recovery now l.db) [
    | none ↦ none
    | some (db, removed) ↦ some (record l { db = db }, ok removed)
  ]

module _ {J : Type 0} ⦃e : Key J⦄ where
  unfoldable pub release_before_dispatch :
      J → ℕ → String → SqliteSpendLedger J → SqliteSpendLedger J × Result (Unit {0})
  release_before_dispatch evidence now reference =
      transact λ db. unit_of (release_in evidence now db reference)

  -- `seen` is the reading of the clock in `receipt_in`, `now` that of `finish`.
  unfoldable pub finish :
      J
      → World
      → ℕ
      → ℕ
      → String
      → SpendState
      → Option UsageTrace
      → Option J
      → Option String
      → SqliteSpendLedger J
      → SqliteSpendLedger J × Result (Unit {0})
  finish evidence w seen now reference state usage output invocation l =
      transact
        (λ db. unit_of (
          save_recovery_in evidence w seen db reference output l.retention none invocation now
          >>= λ saved. finish_in evidence seen saved reference state usage output))
        l
