-- ===== src/Spend/Safe/Histories.antt =====
-- After any history of calls: the balance of the accounts, the ceilings, and what is kept.
use symbiotic_foundation.Base.{
  ℕ, ◌-◌, ◌^◌, ◌≤◌, String, true, false, some, List, [], ◌∷◌, Key, ◌==◌, nat_eq, string_eq, str_iff,
  str_refl, is_some, ◌≡◌, refl, arith, Bool-cases, inl, inr, sym, subst, ◌∙◌, get,
}
use symbiotic_foundation.Base.Maybe.{option_eq, option_beq_iff}
use symbiotic_foundation.Spend.Store.{Row, Db, find, latest, is_active, is_of, is_unknown}
use symbiotic_foundation.Spend.Recovery.{World}
use symbiotic_foundation.Spend.Calls.{SqliteSpendLedger}
use symbiotic_foundation.Spend.Histories.{Call, step, run}
use symbiotic_foundation.Spend.Inv.Defs.{held, attempts, used_of, follows, Chained, IsSound}
use symbiotic_foundation.Spend.Inv.Rows.{find-here, find-there}
use symbiotic_foundation.Spend.Inv.Accepting.{latest-attempts, latest-IsLatest}
use symbiotic_foundation.Spend.Inv.Growing.{Grows, Grows-refl, Grows-trans}
use symbiotic_foundation.Spend.Safe.Steps.{step-Grows}

module _ {J : Type 0} where
  -- The tables that `open` of the queue database creates.
  abbrev pub no_receipts : Db J
  no_receipts = record { accounts = []; receipts = [] }

  abbrev pub new_ledger : ℕ → SqliteSpendLedger J
  new_ledger retention = record { db = no_receipts; retention = retention; poisoned = false }

  pub no_receipts-IsSound : IsSound no_receipts
  unfolding held get
  no_receipts-IsSound = record { chained = tt; balanced = λ a. refl; bounded = λ a. omega arith }

  -- The newest receipt of an invocation speaks for all of them.
  pub record IsLed (rows : List (Row J)) (row : Row J) : Type 0 where
    pub newest : Row J
    pub latest_is : latest rows row.account row.invocation ≡ some newest
    pub binding : newest.binding ≡ row.binding
    pub ceiling : is_some row.attempt_limit ≡ true → newest.attempt_limit ≡ row.attempt_limit

  led-follows :
      (x row p : Row J) (xs : List (Row J))
      → follows x (latest xs x.account x.invocation) ≡ true
      → is_of row.account row.invocation x ≡ true
      → latest xs row.account row.invocation ≡ some p
      → follows x (some p) ≡ true
  led-follows x row p xs f n l =
      ground (arith, str_iff x.account row.account, str_iff x.invocation row.invocation)

  follows-binding : (x p : Row J) → follows x (some p) ≡ true → p.binding ≡ x.binding
  follows-binding x p f = ground (arith, str_iff p.binding x.binding)

  follows-ceiling :
      (x p : Row J)
      → follows x (some p) ≡ true
      → is_some p.attempt_limit ≡ true
      → p.attempt_limit ≡ x.attempt_limit
  follows-ceiling x p f s = ground (arith, option_beq_iff p.attempt_limit x.attempt_limit)

  IsLed-more :
      (x row : Row J) (xs : List (Row J))
      → follows x (latest xs x.account x.invocation) ≡ true
      → IsLed xs row
      → IsLed (x ∷ xs) row
  unfolding latest
  IsLed-more x row xs f k = elim (Bool-cases (is_of row.account row.invocation x)) [
    | inr n ↦ record {
      newest = k.newest;
      latest_is = rw n k.latest_is;
      binding = k.binding;
      ceiling = k.ceiling;
    }
    | inl n ↦ record {
      newest = x;
      latest_is = rw n refl;
      binding =
          sym (follows-binding x k.newest (led-follows x row k.newest xs f n k.latest_is))
          ∙ k.binding;
      ceiling = λ s.
          let e = k.ceiling s in
          sym (follows-ceiling x k.newest (led-follows x row k.newest xs f n k.latest_is) (rw e s))
          ∙ e;
    }
  ]

  found-IsLed :
      (rows : List (Row J)) (r : String) (row : Row J)
      → Chained rows
      → find rows r ≡ some row
      → IsLed rows row
  unfolding find latest
  found-IsLed [] r row c h = ground arith
  found-IsLed (x ∷ xs) r row c h = elim (Bool-cases (x.reference == r)) [
    | inr n ↦
        IsLed-more x row xs c.0.continues (found-IsLed xs r row c.1 (sym (find-there x xs r n) ∙ h))
    | inl n ↦
        subst (λ y. IsLed (x ∷ xs) y) (find-here x xs r row n h)
          (record {
            newest = x;
            latest_is = ground (arith, str_refl x.account, str_refl x.invocation);
            binding = refl;
            ceiling = λ s. refl;
          })
  ]

  capped :
      (rows : List (Row J)) (r : String) (row : Row J) (l : ℕ)
      → Chained rows
      → find rows r ≡ some row
      → row.attempt_limit ≡ some l
      → attempts row.account row.invocation rows ≤ l
  capped rows r row l c h s =
      let k = found-IsLed rows r row c h in
      let p = latest-IsLatest rows row.account row.invocation k.newest c k.latest_is in
      ground
        (arith, latest-attempts rows row.account row.invocation c, k.latest_is, k.ceiling, p.below)

  active-found :
      (rows : List (Row J)) (r : String) (row : Row J)
      → find rows r ≡ some row
      → is_unknown row ≡ true
      → is_active rows row.account row.invocation ≡ true
  unfolding find is_active
  active-found [] r row h u = ground arith
  active-found (x ∷ xs) r row h u =
      ground (arith, str_refl row.account, str_refl row.invocation, active-found xs r row)

  one_active :
      (rows : List (Row J)) (r s : String) (row other : Row J)
      → Chained rows
      → find rows r ≡ some row
      → find rows s ≡ some other
      → is_unknown row ≡ true
      → is_unknown other ≡ true
      → row.account ≡ other.account
      → row.invocation ≡ other.invocation
      → row ≡ other
  unfolding find
  one_active [] r s row other c f g u v a i = ground arith
  one_active (x ∷ xs) r s row other c f g u v a i = ground (
    arith,
    c.0.alone,
    active-found xs r row,
    active-found xs s other,
    one_active xs r s row other c.1,
  )

module _ {J : Type 0} ⦃e : Key J⦄ where
  pub run-Grows :
      (evidence : J) (w : World) (calls : List (Call J)) (l : SqliteSpendLedger J)
      → IsSound l.db
      → Grows l.db (run evidence w calls l).db
  unfolding run
  run-Grows evidence w [] l v = Grows-refl l.db v
  run-Grows evidence w (c ∷ cs) l v =
      let g = step-Grows evidence w c l v in
      let next = step evidence w c l in
      Grows-trans l.db next.db (run evidence w cs next).db g (run-Grows evidence w cs next g.sound)

  -- After any history of calls on new tables, the stored use of every account is the number of its
  -- receipts that are not released, and fits a signed 64-bit column.
  pub every_history-balanced :
      (evidence : J) (w : World) (calls : List (Call J)) (retention : ℕ) (account : String)
      → (used_of (run evidence w calls (new_ledger retention)).db.accounts account
          ≡ held account (run evidence w calls (new_ledger retention)).db.receipts)
        × (used_of (run evidence w calls (new_ledger retention)).db.accounts account ≤ 2 ^ 63 - 1)
  every_history-balanced evidence w calls retention account =
      let v = (run-Grows evidence w calls (new_ledger retention) no_receipts-IsSound).sound in
      (v.balanced account, v.bounded account)

  -- After any history of calls on new tables, where a receipt of an invocation has a ceiling, the
  -- attempts of that invocation that may have reached the provider are no more than the ceiling:
  -- its receipts with a ceiling that were not released before dispatch.
  pub every_history-capped :
      (evidence : J) (w : World) (calls : List (Call J)) (retention : ℕ) (reference : String)
      (row : Row J) (ceiling : ℕ)
      → find (run evidence w calls (new_ledger retention)).db.receipts reference ≡ some row
      → row.attempt_limit ≡ some ceiling
      → attempts row.account row.invocation
          (run evidence w calls (new_ledger retention)).db.receipts
        ≤ ceiling
  every_history-capped evidence w calls retention reference row ceiling f s =
      let v = (run-Grows evidence w calls (new_ledger retention) no_receipts-IsSound).sound in
      capped (run evidence w calls (new_ledger retention)).db.receipts reference row ceiling
        v.chained f s

  -- After any history of calls on new tables, two receipts of one account and invocation that are
  -- both unknown are the same receipt.
  pub every_history-one_active :
      (evidence : J) (w : World) (calls : List (Call J)) (retention : ℕ) (reference other : String)
      (row second : Row J)
      → find (run evidence w calls (new_ledger retention)).db.receipts reference ≡ some row
      → find (run evidence w calls (new_ledger retention)).db.receipts other ≡ some second
      → is_unknown row ≡ true
      → is_unknown second ≡ true
      → row.account ≡ second.account
      → row.invocation ≡ second.invocation
      → row ≡ second
  every_history-one_active evidence w calls retention reference other row second f g u v a i =
      let k = (run-Grows evidence w calls (new_ledger retention) no_receipts-IsSound).sound in
      one_active (run evidence w calls (new_ledger retention)).db.receipts reference other row
        second k.chained f g u v a i

  -- Once a receipt of a sound ledger is settled or released, any history of calls keeps it, with
  -- its reservation, state, usage and evidence of output.
  pub reconciled_receipt_kept :
      (evidence : J) (w : World) (calls : List (Call J)) (l : SqliteSpendLedger J)
      (reference : String) (row : Row J)
      → IsSound l.db
      → find l.db.receipts reference ≡ some row
      → is_unknown row ≡ false
      → (new : Row J) × (find (run evidence w calls l).db.receipts reference ≡ some new)
        × (new.reservation ≡ row.reservation)
        × (new.state ≡ row.state)
        × (new.usage ≡ row.usage)
        × (new.output ≡ row.output)
  reconciled_receipt_kept evidence w calls l reference row v f u =
      let (new, g, s) = (run-Grows evidence w calls l v).kept reference row f in
      (new, g, s.reservation, s.state u, s.usage u, s.output u)
