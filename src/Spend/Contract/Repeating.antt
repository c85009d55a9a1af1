-- ===== src/Spend/Contract/Repeating.antt =====
-- A reservation that is made again is answered from its receipt, and never accepted twice.
use symbiotic_foundation.Base.{
  ℕ, Bool, true, false, Option, some, List, ◌∷◌, Key, nat_eq, string_eq, str_refl, ◌≡◌, refl, arith,
  ◌≢◌, ap, ◌∙◌,
}
use symbiotic_foundation.Base.Maybe.{option_eq, option_beq_iff}
use symbiotic_foundation.Spend.Result.{Result, ok, err}
use symbiotic_foundation.Spend.Types.{SpendReservation, same_reservation, new_ref}
use symbiotic_foundation.Spend.Store.{
  Row, Db, find, latest, receipt_in, receipt_of, invocation_in, invocation_reference_in,
}
use symbiotic_foundation.Spend.Reserve.{new_row, reserve_with_limit_in, reattach}
use symbiotic_foundation.Spend.Calls.{SqliteSpendLedger, reserve_explicit}
use symbiotic_foundation.Spend.Contract.Reserving.{IsAccepted, Answers, reserve-Answers}
use symbiotic_foundation.Spend.Safe.Transactions.{transact-ok}
use symbiotic_foundation.Spend.Recovery.{World}
use symbiotic_foundation.Spend.Histories.{Call, reserves_explicit, step, run}
use symbiotic_foundation.Spend.Safe.Steps.{step-Grows}
use symbiotic_foundation.Spend.Safe.Histories.{run-Grows}
use symbiotic_foundation.Spend.Inv.Defs.{IsSound}
use symbiotic_foundation.Spend.Inv.Accepting.{ceiling_of}

same_refl : (r : SpendReservation) → same_reservation r r ≡ true
same_refl r = ground (
  arith,
  str_refl r.reference,
  str_refl r.account,
  str_refl r.invocation,
  str_refl r.binding,
  option_beq_iff r.request_limit r.request_limit,
)

module _ {J : Type 0} where
  -- The newest receipt of an invocation is the one of the reservation itself.
  newest_own :
      (now : ℕ) (db : Db J) (r : SpendReservation) (row : Row J)
      → find db.receipts r.reference ≡ some row
      → latest db.receipts r.account r.invocation ≡ some row
      → row.reference ≡ r.reference
      → new_ref r.reference ≡ ok r.reference
      → invocation_in now db r.account r.invocation ≡ ok (some (receipt_of now row))
  unfolding invocation_in invocation_reference_in receipt_in
  newest_own now db r row f l e v = ground arith

  own_again :
      (now : ℕ) (db : Db J) (r : SpendReservation) (row : Row J) (limit : Option ℕ) (handoff : Bool)
      → find db.receipts r.reference ≡ some row
      → invocation_in now db r.account r.invocation ≡ ok (some (receipt_of now row))
      → row.reservation ≡ r
      → reserve_with_limit_in now db r limit handoff ≡ ok (false, db)
  unfolding reserve_with_limit_in receipt_in reattach
  own_again now db r row limit handoff f i e =
      ground (arith, same_refl r, str_refl r.binding, ap (λ s. s.binding) e)

  added-found :
      (db : Db J) (rows : List (Row J)) (r : SpendReservation) (ceiling : Option ℕ) (used : ℕ)
      → db.receipts ≡ new_row r ceiling used ∷ rows
      → (find db.receipts r.reference ≡ some (new_row r ceiling used))
        × (latest db.receipts r.account r.invocation ≡ some (new_row r ceiling used))
  unfolding find latest
  added-found db rows r ceiling used e = rw e (
    ground (arith, str_refl r.reference),
    ground (arith, str_refl r.account, str_refl r.invocation),
  )

  true_answer :
      (l : SqliteSpendLedger J) (r : SpendReservation) (limit : Option ℕ)
      (answer : SqliteSpendLedger J × Result Bool)
      → Answers l r limit answer
      → answer.1 ≡ ok true
      → IsAccepted l answer.0 r limit
  true_answer l r limit (after, ok true) a h = a
  true_answer l r limit (after, ok false) a h = ground arith
  true_answer l r limit (after, err x) a h = ground arith

  not_accepted :
      (later limit : ℕ) (l : SqliteSpendLedger J) (r : SpendReservation) (row : Row J)
      → IsSound l.db
      → find l.db.receipts r.reference ≡ some row
      → (reserve_explicit later r limit l).1 ≢ ok true
  not_accepted later limit l r row v f h =
      let a =
        true_answer l r (some limit) (reserve_explicit later r limit l)
          (reserve-Answers later limit r l v).1 h in
      ground (arith, a.fresh, f)

  repeated :
      (later limit : ℕ) (l after : SqliteSpendLedger J) (r : SpendReservation) (first : Option ℕ)
      → new_ref r.reference ≡ ok r.reference
      → IsAccepted l after r first
      → reserve_explicit later r limit after ≡ (after, ok false)
  unfolding reserve_explicit
  repeated later limit l after r first v a =
      let row =
        new_row r (ceiling_of (latest l.db.receipts r.account r.invocation) first) a.attempt in
      let found =
        added-found after.db l.db.receipts r
          (ceiling_of (latest l.db.receipts r.account r.invocation) first) a.attempt a.added in
      transact-ok (λ db. reserve_with_limit_in later db r (some limit) false) after false after.db
        a.usable
        (own_again later after.db r row (some limit) false found.0
          (newest_own later after.db r row found.0 found.1 refl v) refl)

module _ {J : Type 0} ⦃e : Key J⦄ where
  reserve_explicit-IsSound :
      (evidence : J) (w : World) (now limit : ℕ) (r : SpendReservation) (l : SqliteSpendLedger J)
      → IsSound l.db
      → IsSound (reserve_explicit now r limit l).0.db
  unfolding step
  reserve_explicit-IsSound evidence w now limit r l v =
      (step-Grows evidence w (reserves_explicit now r limit) l v).sound

  -- Where `reserve_explicit` has accepted a reservation on a sound ledger, under a reference of
  -- admissible length, making it again at once answers false and changes nothing, under any limit;
  -- and after any history of calls no explicit reservation with that reference is accepted.
  pub reserve_explicit_again :
      (evidence : J) (w : World) (calls : List (Call J)) (now later limit other : ℕ)
      (r again : SpendReservation) (l : SqliteSpendLedger J)
      → IsSound l.db
      → new_ref r.reference ≡ ok r.reference
      → (reserve_explicit now r limit l).1 ≡ ok true
      → again.reference ≡ r.reference
      → (reserve_explicit later r other (reserve_explicit now r limit l).0
          ≡ ((reserve_explicit now r limit l).0, ok false))
        × ((reserve_explicit later again other
              (run evidence w calls (reserve_explicit now r limit l).0)).1
            ≢ ok true)
  reserve_explicit_again evidence w calls now later limit other r again l v n h e =
      let after = (reserve_explicit now r limit l).0 in
      let a =
        true_answer l r (some limit) (reserve_explicit now r limit l)
          (reserve-Answers now limit r l v).1 h in
      let found =
        added-found after.db l.db.receipts r
          (ceiling_of (latest l.db.receipts r.account r.invocation) (some limit)) a.attempt
          a.added in
      let g =
        run-Grows evidence w calls after (reserve_explicit-IsSound evidence w now limit r l v) in
      let (row, f, _) = g.kept r.reference _ found.0 in
      (
        repeated later other l after r (some limit) n a,
        not_accepted later other (run evidence w calls after) again row g.sound
            (ap (λ s. find (run evidence w calls after).db.receipts s) e ∙ f),
      )
