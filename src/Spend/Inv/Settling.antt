-- ===== src/Spend/Inv/Settling.antt =====
-- Settling and releasing keep the tables sound.
use symbiotic_foundation.Base.{
  ℕ, ◌+◌, ◌-◌, String, true, false, Option, some, List, [], ◌∷◌, Key, ◌==◌, nat_eq, string_eq,
  str_iff, if◌then◌else◌, get-modify, ◌≡◌, refl, arith, Bool-cases, Option-cases, inl, inr, sym,
  subst, ap, ◌∙◌, ◌⊎◌,
}
use symbiotic_foundation.Base.Maybe.{option_eq}
use symbiotic_foundation.Spend.Result.{ok, Result-cases}
use symbiotic_foundation.Spend.Types.{
  SpendState, unknown, released, settled, same_state, UsageTrace, SpendReceipt,
}
use symbiotic_foundation.Spend.Store.{Row, Db, find, update, is_unknown, receipt_in, receipt_of}
use symbiotic_foundation.Spend.Finish.{
  refund, lacks_evidence, kept_output, is_repeat, write_settlement, settle, finish_in,
}
use symbiotic_foundation.Spend.Inv.Defs.{held, Chained, used_of, IsSound}
use symbiotic_foundation.Spend.Inv.Rows.{
  IsStep, Steps-refl, Chained-Steps, update-Steps, held-update, Advances,
}

-- What a release takes from an account.
abbrev pub returned : SpendState → ℕ
returned released = 1
returned _ = 0

pub refund-used :
    (accounts after : List (String × ℕ)) (st : SpendState) (account a : String)
    → refund accounts st account ≡ ok after
    → used_of after a + (if account == a then returned st else 0) ≡ used_of accounts a
unfolding refund
refund-used accounts after unknown account a h = ground arith
refund-used accounts after settled account a h = ground arith
refund-used accounts after released account a h =
    ground (arith, str_iff account a, get-modify accounts account a (λ n. n - 1))

module _ {J : Type 0} where
  abbrev pub settled_row : SpendState → Option UsageTrace → Option J → Row J → Row J
  settled_row st usage output row = record row { state = st; usage = usage; output = output }

  settled-IsStep :
      (now : ℕ) (row : Row J) (st : SpendState) (usage : Option UsageTrace) (evidence : J)
      (output : Option J)
      → is_unknown row ≡ true
      → lacks_evidence st usage (receipt_of now row) output ≡ false
      → IsStep row (settled_row st usage (kept_output evidence output (receipt_of now row)) row)
  unfolding lacks_evidence
  settled-IsStep now row st usage evidence output u l = record {
    reference = refl;
    account = refl;
    invocation = refl;
    binding = refl;
    limit = refl;
    reservation = refl;
    state = λ k. ground arith;
    usage = λ k. ground arith;
    output = λ k. ground arith;
    owned = λ o. refl;
    counts = λ k. refl;
    tally = refl;
    below = λ b. b;
    proved = λ p. ground arith;
  }

  held-settled :
      (row new : Row J) (st : SpendState) (a : String)
      → new.account ≡ row.account
      → new.state ≡ st
      → is_unknown row ≡ true
      → held a (row ∷ []) ≡ held a (new ∷ []) + (if row.account == a then returned st else 0)
  unfolding held
  held-settled row new unknown a k s u = ground (arith, k, s)
  held-settled row new settled a k s u = ground (arith, k, s)
  held-settled row new released a k s u = ground (arith, k, s)

  -- A settlement of a receipt `row` that is still unknown, with all that it changes in it.
  pub written-Advances :
      (db : Db J) (accounts : List (String × ℕ)) (reference : String) (st : SpendState)
      (row : Row J) (f : Row J → Row J)
      → IsSound db
      → find db.receipts reference ≡ some row
      → is_unknown row ≡ true
      → IsStep row (f row)
      → (f row).state ≡ st
      → refund db.accounts st row.account ≡ ok accounts
      → Advances db (record { accounts = accounts; receipts = update db.receipts reference f })
  written-Advances db accounts reference st row f v found u k s r =
      let steps = update-Steps db.receipts reference f row v.chained found k in
      record {
        steps = steps;
        sound = record {
          chained = Chained-Steps db.receipts (update db.receipts reference f) steps v.chained;
          balanced = λ a. omega (
            arith,
            v.balanced a,
            refund-used db.accounts accounts st row.account a r,
            held-update db.receipts reference f row a v.chained found,
            held-settled row (f row) st a k.account s u,
          );
          bounded =
              λ a. omega (arith, v.bounded a, refund-used db.accounts accounts st row.account a r);
        };
      }

  pub written-inv :
      (db left : Db J) (old : SpendReceipt J) (reference : String) (st : SpendState)
      (usage : Option UsageTrace) (output : Option J)
      → write_settlement db old reference st usage output ≡ ok left
      → (accounts : List (String × ℕ)) × (refund db.accounts st old.reservation.account
          ≡ ok accounts)
        × (left ≡ record {
          accounts = accounts;
          receipts = update db.receipts reference (settled_row st usage output);
        })
  unfolding write_settlement
  written-inv db left old reference st usage output h =
      elim (Result-cases (refund db.accounts st old.reservation.account)) [
        | inl (x, r) ↦ ground arith
        | inr (accounts, r) ↦ (accounts, r, ground arith)
      ]

  pub row-account :
      (rows : List (Row J)) (r : String) (row : Row J)
      → Chained rows
      → find rows r ≡ some row
      → row.reservation.account ≡ row.account
  unfolding find
  row-account [] r row c h = ground arith
  row-account (x ∷ xs) r row c h =
      ground (arith, c.0.named, str_iff x.reservation.account x.account, row-account xs r row c.1)

module _ {J : Type 0} ⦃e : Key J⦄ where
  -- What `finish_in` has found when it answers.
  pub record Finishes (now : ℕ) (db left : Db J) (reference : String) (st : SpendState)
      (usage : Option UsageTrace) (evidence : J) (output : Option J) (row : Row J) : Type 0 where
    pub found : find db.receipts reference ≡ some row
    pub proved : lacks_evidence st usage (receipt_of now row) output ≡ false
    pub settles :
        settle db
          (receipt_of now row)
          reference
          st
          usage
          (kept_output evidence output (receipt_of now row))
        ≡ ok left

  pub finish_in-Finishes :
      (evidence : J) (now : ℕ) (db left : Db J) (reference : String) (st : SpendState)
      (usage : Option UsageTrace) (output : Option J)
      → finish_in evidence now db reference st usage output ≡ ok left
      → (row : Row J) × Finishes now db left reference st usage evidence output row
  unfolding finish_in receipt_in
  finish_in-Finishes evidence now db left reference st usage output h =
      elim (Option-cases (find db.receipts reference)) [
        | inl n ↦ ground arith
        | inr (row, f) ↦ (row, record { found = f; proved = ground arith; settles = ground arith })
      ]

  -- A receipt that is still unknown is written; any other is left as it was.
  pub settle-inv :
      (db left : Db J) (old : SpendReceipt J) (reference : String) (st : SpendState)
      (usage : Option UsageTrace) (output : Option J)
      → settle db old reference st usage output ≡ ok left
      → ((same_state old.state unknown ≡ true)
          × (write_settlement db old reference st usage output ≡ ok left))
        ⊎ ((same_state old.state unknown ≡ false)
            × (left ≡ db)
            × (is_repeat old st usage output ≡ true))
  unfolding settle
  settle-inv db left old reference st usage output h =
      elim (Bool-cases (same_state old.state unknown)) [
        | inl u ↦ inl (u, ground arith)
        | inr k ↦ inr (k, ground arith, ground arith)
      ]

  found-Advances :
      (evidence : J) (now : ℕ) (db left : Db J) (reference : String) (st : SpendState)
      (usage : Option UsageTrace) (output : Option J) (row : Row J)
      → IsSound db
      → Finishes now db left reference st usage evidence output row
      → Advances db left
  found-Advances evidence now db left reference st usage output row v c =
      let kept = kept_output evidence output (receipt_of now row) in
      elim (settle-inv db left (receipt_of now row) reference st usage kept c.settles) [
        | inl (u, h) ↦
            let (accounts, r, eq) =
              written-inv db left (receipt_of now row) reference st usage kept h in
            subst (λ l. Advances db l) (sym eq)
              (written-Advances db accounts reference st row (settled_row st usage kept) v c.found u
                (settled-IsStep now row st usage evidence output u c.proved) refl
                (ap (λ a. refund db.accounts st a)
                    (sym (row-account db.receipts reference row v.chained c.found))
                  ∙ r))
        | inr (k, eq, _) ↦
            subst (λ l. Advances db l) (sym eq)
              (record { steps = Steps-refl db.receipts; sound = v })
      ]

  -- Every answer of `finish_in` leaves sound tables.
  pub finish_in-Advances :
      (evidence : J) (now : ℕ) (db left : Db J) (reference : String) (st : SpendState)
      (usage : Option UsageTrace) (output : Option J)
      → IsSound db
      → finish_in evidence now db reference st usage output ≡ ok left
      → Advances db left
  finish_in-Advances evidence now db left reference st usage output v h =
      let (row, c) = finish_in-Finishes evidence now db left reference st usage output h in
      found-Advances evidence now db left reference st usage output row v c
