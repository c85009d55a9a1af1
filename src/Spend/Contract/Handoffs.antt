-- ===== src/Spend/Contract/Handoffs.antt =====
-- `acquire_handoff` gives the dispatch of an accepted attempt to one owner.
use symbiotic_foundation.Base.{
  ℕ, String, true, false, some, List, [], ◌∷◌, Key, string_eq, is_some, ◌≡◌, refl, arith,
  Bool-cases, inl, inr, ap, ◌∙◌,
}
use symbiotic_foundation.Spend.Result.{ok, err, conflict, is_ok}
use symbiotic_foundation.Spend.Types.{AcceptedSpendHandoff}
use symbiotic_foundation.Spend.Store.{Row, Db, find, update, receipt_in, receipt_of}
use symbiotic_foundation.Spend.Recovery.{World}
use symbiotic_foundation.Spend.Calls.{
  SqliteSpendLedger, unit_of, is_free, own, take_handoff, acquire_in, acquire_handoff,
  refuses_handoff,
}
use symbiotic_foundation.Spend.Histories.{Call, acquires, step, run}
use symbiotic_foundation.Spend.Inv.Defs.{IsSound}
use symbiotic_foundation.Spend.Safe.Transactions.{
  transact-err, transact-poisoned, transact-answered, unit_of-ok,
}
use symbiotic_foundation.Spend.Safe.Steps.{step-Grows, acquire_in-Acquires}
use symbiotic_foundation.Spend.Safe.Histories.{run-Grows}

module _ {J : Type 0} where
  pub find-update :
      (rows : List (Row J)) (r : String) (f : Row J → Row J) (row : Row J)
      → ((x : Row J) → (f x).reference ≡ x.reference)
      → find rows r ≡ some row
      → find (update rows r f) r ≡ some (f row)
  unfolding find update
  find-update [] r f row k h = ground arith
  find-update (x ∷ xs) r f row k h = ground (arith, k x, find-update xs r f row k)

  owned-refused :
      (now : ℕ) (db : Db J) (h : AcceptedSpendHandoff) (account input owner : String) (row : Row J)
      → find db.receipts h.reservation.reference ≡ some row
      → is_some row.dispatch_owner ≡ true
      → acquire_in now db h account input owner ≡ err conflict
  unfolding acquire_in take_handoff receipt_in is_free
  owned-refused now db h account input owner row f o =
      elim (Bool-cases (refuses_handoff (receipt_of now row) h account input owner)) [
        | inl r ↦ ground arith
        | inr r ↦ ground arith
      ]

  -- A transaction that is refused, or a poisoned lock.
  refused :
      (now : ℕ) (l : SqliteSpendLedger J) (h : AcceptedSpendHandoff) (account input owner : String)
      → acquire_in now l.db h account input owner ≡ err conflict
      → ((acquire_handoff now h account input owner l).0 ≡ l)
        × (is_ok (acquire_handoff now h account input owner l).1 ≡ false)
  unfolding acquire_handoff
  refused now l h account input owner r = elim (Bool-cases l.poisoned) [
    | inl p ↦
        rw (transact-poisoned (λ db. unit_of (acquire_in now db h account input owner)) l p)
          (refl, refl)
    | inr p ↦
        rw
          (transact-err (λ db. unit_of (acquire_in now db h account input owner)) l conflict p
            (ap unit_of r))
          (refl, refl)
  ]

  -- What an answer of `acquire_handoff` leaves.
  taken :
      (now : ℕ) (l : SqliteSpendLedger J) (h : AcceptedSpendHandoff) (account input owner : String)
      → (acquire_handoff now h account input owner l).1 ≡ ok tt
      → (row : Row J) × (find
            (acquire_handoff now h account input owner l).0.db.receipts
            h.reservation.reference
          ≡ some (own owner row))
  unfolding acquire_handoff
  taken now l h account input owner k =
      let (left, p, w, eq) =
        transact-answered (λ db. unit_of (acquire_in now db h account input owner)) l tt k in
      let (row, a) =
        acquire_in-Acquires now l.db left h account input owner
          (unit_of-ok (acquire_in now l.db h account input owner) left w) in
      (
        row,
        ap (λ x. find x.0.db.receipts h.reservation.reference) eq
            ∙ ap (λ d. find d.receipts h.reservation.reference) a.taken
            ∙ find-update l.db.receipts h.reservation.reference (own owner) row (λ x. refl) a.found,
      )

module _ {J : Type 0} ⦃e : Key J⦄ where
  acquire_handoff-IsSound :
      (evidence : J) (w : World) (now : ℕ) (h : AcceptedSpendHandoff) (account input owner : String)
      (l : SqliteSpendLedger J)
      → IsSound l.db
      → IsSound (acquire_handoff now h account input owner l).0.db
  unfolding step
  acquire_handoff-IsSound evidence w now h account input owner l v =
      (step-Grows evidence w (acquires now h account input owner) l v).sound

  -- Where `acquire_handoff` on a sound ledger has given the dispatch of an attempt to an owner, then
  -- after any history of calls every `acquire_handoff` of the same attempt is refused, whatever the
  -- owner, and changes nothing.
  pub acquire_handoff-once :
      (evidence : J) (w : World) (calls : List (Call J)) (now later : ℕ)
      (h again : AcceptedSpendHandoff) (account input owner account2 input2 owner2 : String)
      (l : SqliteSpendLedger J)
      → IsSound l.db
      → (acquire_handoff now h account input owner l).1 ≡ ok tt
      → again.reservation.reference ≡ h.reservation.reference
      → ((acquire_handoff later again account2 input2 owner2
            (run evidence w calls (acquire_handoff now h account input owner l).0)).0
          ≡ run evidence w calls (acquire_handoff now h account input owner l).0)
        × (is_ok
              (acquire_handoff later again account2 input2 owner2
                (run evidence w calls (acquire_handoff now h account input owner l).0)).1
            ≡ false)
  acquire_handoff-once evidence w calls now later h again account input owner account2 input2 owner2
        l v k same =
      let after = (acquire_handoff now h account input owner l).0 in
      let (row, found) = taken now l h account input owner k in
      let g =
        run-Grows evidence w calls after
          (acquire_handoff-IsSound evidence w now h account input owner l v) in
      let (new, f, s) = g.kept h.reservation.reference (own owner row) found in
      let last = run evidence w calls after in
      refused later last again account2 input2 owner2 (
        owned-refused later last.db again account2 input2 owner2 new
          (ap (λ r. find last.db.receipts r) same ∙ f) (ap (λ o. is_some o) (s.owned refl)))
