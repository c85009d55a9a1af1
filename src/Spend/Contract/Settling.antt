-- ===== src/Spend/Contract/Settling.antt =====
-- When `finish_in` answers, the conditions written out as one test, and what it leaves.
use symbiotic_foundation.Base.{
  ℕ, ◌≤◌, String, Bool, true, false, not, ◌&&◌, ◌||◌, Option, none, some, List, [], ◌∷◌, Key,
  string_eq, str_refl, ◌≡◌, refl, arith, Bool-cases, Option-cases, inl, inr, ◌⊎◌, sym, ap, ◌∙◌,
}
use symbiotic_foundation.Model.Errors.{ModelError}
use symbiotic_foundation.Spend.Result.{ok, err, Result-cases, is_ok}
use symbiotic_foundation.Spend.Types.{SpendState, unknown, released, settled, UsageTrace}
use symbiotic_foundation.Spend.Store.{Row, Db, find, is_unknown, receipt_in, receipt_of}
use symbiotic_foundation.Spend.Finish.{
  refund, lacks_evidence, kept_output, is_repeat, write_settlement, settle, finish_in,
}
use symbiotic_foundation.Spend.Inv.Defs.{held, used_of, IsSound}
use symbiotic_foundation.Spend.Inv.Settling.{row-account}
use symbiotic_foundation.Spend.Contract.Reconciling.{Settled, finished-Settled}

-- The account of a release has a request to give back.
refund-granted :
    (accounts : List (String × ℕ)) (st : SpendState) (account : String)
    → 1 ≤ used_of accounts account
    → is_ok (refund accounts st account) ≡ true
unfolding refund
refund-granted accounts unknown account h = refl
refund-granted accounts settled account h = refl
refund-granted accounts released account h = ground arith

module _ {J : Type 0} where
  unknown-held :
      (rows : List (Row J)) (r : String) (row : Row J)
      → find rows r ≡ some row
      → is_unknown row ≡ true
      → 1 ≤ held row.account rows
  unfolding find held
  unknown-held [] r row h u = ground arith
  unknown-held (x ∷ xs) r row h u = ground (arith, str_refl row.account, unknown-held xs r row)

  written-granted :
      (now : ℕ) (db : Db J) (reference : String) (st : SpendState) (usage : Option UsageTrace)
      (kept : Option J) (row : Row J)
      → IsSound db
      → find db.receipts reference ≡ some row
      → is_unknown row ≡ true
      → is_ok (write_settlement db (receipt_of now row) reference st usage kept) ≡ true
  unfolding write_settlement
  written-granted now db reference st usage kept row v f u =
      elim (Result-cases (refund db.accounts st row.reservation.account)) [
        | inr (accounts, r) ↦ ground arith
        | inl (x, r) ↦ ground (
          arith,
          row-account db.receipts reference row v.chained f,
          refund-granted db.accounts st row.account,
          v.balanced row.account,
          unknown-held db.receipts reference row f u,
        )
      ]

module _ {J : Type 0} ⦃e : Key J⦄ where
  -- A receipt can be settled where the evidence allows it, and it is unknown or settled alike.
  abbrev pub may_settle : J → ℕ → Option (Row J) → SpendState → Option UsageTrace → Option J → Bool
  may_settle evidence now none st usage output = false
  may_settle evidence now (some row) st usage output =
      not (lacks_evidence st usage (receipt_of now row) output)
      && (is_unknown row
          || is_repeat (receipt_of now row) st usage
              (kept_output evidence output (receipt_of now row)))

  settle-granted :
      (now : ℕ) (db : Db J) (reference : String) (st : SpendState) (usage : Option UsageTrace)
      (kept : Option J) (row : Row J)
      → IsSound db
      → find db.receipts reference ≡ some row
      → is_ok (settle db (receipt_of now row) reference st usage kept)
        ≡ (is_unknown row || is_repeat (receipt_of now row) st usage kept)
  unfolding settle
  settle-granted now db reference st usage kept row v f = elim (Bool-cases (is_unknown row)) [
    | inl u ↦ ground (arith, written-granted now db reference st usage kept row v f u)
    | inr u ↦ ground arith
  ]

  -- `finish_in` answers on sound tables exactly where the test allows it.
  finish_in-granted :
      (evidence : J) (now : ℕ) (db : Db J) (reference : String) (st : SpendState)
      (usage : Option UsageTrace) (output : Option J)
      → IsSound db
      → is_ok (finish_in evidence now db reference st usage output)
        ≡ may_settle evidence now (find db.receipts reference) st usage output
  unfolding finish_in receipt_in
  finish_in-granted evidence now db reference st usage output v =
      elim (Option-cases (find db.receipts reference)) [
        | inl n ↦ ground arith
        | inr (row, f) ↦ ground (
          arith,
          settle-granted now db reference st usage
              (kept_output evidence output (receipt_of now row)) row v f,
        )
      ]

  -- On sound tables `finish_in` settles where, and only where, the test allows it: the evidence of
  -- the state asked for is there, and the receipt is unknown or settled alike. Then the receipt is
  -- in the state asked for, with evidence of output where there was or is any; the account has one
  -- request less where an unknown receipt was released, and no account changes otherwise; and the
  -- same call, made again at any later time, answers and changes nothing. Elsewhere it is an error.
  pub finish_in-Settled :
      (evidence : J) (now later : ℕ) (db : Db J) (reference : String) (st : SpendState)
      (usage : Option UsageTrace) (output : Option J)
      → IsSound db
      → ((may_settle evidence now (find db.receipts reference) st usage output ≡ true)
          × ((left : Db J) × (finish_in evidence now db reference st usage output ≡ ok left)
              × ((row : Row J) × Settled evidence db left reference st output row)
              × (finish_in evidence later left reference st usage output ≡ ok left)))
        ⊎ ((may_settle evidence now (find db.receipts reference) st usage output ≡ false)
            × ((e : ModelError) × (finish_in evidence now db reference st usage output ≡ err e)))
  finish_in-Settled evidence now later db reference st usage output v =
      let granted = sym (finish_in-granted evidence now db reference st usage output v) in
      elim (Result-cases (finish_in evidence now db reference st usage output)) [
        | inl (e, h) ↦ inr (granted ∙ ap (λ r. is_ok r) h, (e, h))
        | inr (left, h) ↦
            let (found, again) =
              finished-Settled evidence now later db left reference st usage output v h in
            inl (granted ∙ ap (λ r. is_ok r) h, (left, h, found, again))
      ]
