-- ===== src/Spend/Inv/Releasing.antt =====
-- Steps that leave the accounts as they are, and the release before dispatch.
use symbiotic_foundation.Base.{
  ℕ, ◌≤◌, String, true, false, ◌||◌, Option, none, some, List, [], ◌∷◌, Key, nat_eq, string_eq, ◌≡◌,
  refl, arith, inl, inr, sym, subst, ap, ◌∙◌,
}
use symbiotic_foundation.Spend.Result.{ok, Result-cases}
use symbiotic_foundation.Spend.Types.{released}
use symbiotic_foundation.Spend.Store.{Row, Db, find, update, is_unknown, receipt_in, receipt_of}
use symbiotic_foundation.Spend.Finish.{
  refund, lacks_evidence, kept_output, finish_in, mark_released, release_in,
}
use symbiotic_foundation.Spend.Inv.Defs.{held, counted, is_proved, Chained, IsSound}
use symbiotic_foundation.Spend.Inv.Rows.{IsStep, Chained-Steps, update-Steps, held-update, Advances}
use symbiotic_foundation.Spend.Inv.Settling.{
  settled_row, Finishes, finish_in-Finishes, settle-inv, written-inv, written-Advances, row-account,
}

module _ {J : Type 0} where
  held-same :
      (row new : Row J) (a : String)
      → new.account ≡ row.account
      → new.state ≡ row.state
      → held a (row ∷ []) ≡ held a (new ∷ [])
  unfolding held
  held-same row new a k s = ground (arith, k, s)

  -- A step of one receipt that keeps its state.
  pub quiet-Advances :
      (db : Db J) (reference : String) (row : Row J) (f : Row J → Row J)
      → IsSound db
      → find db.receipts reference ≡ some row
      → IsStep row (f row)
      → (f row).state ≡ row.state
      → Advances db (record db { receipts = update db.receipts reference f })
  quiet-Advances db reference row f v found k s =
      let steps = update-Steps db.receipts reference f row v.chained found k in
      record {
        steps = steps;
        sound = record {
          chained = Chained-Steps db.receipts (update db.receipts reference f) steps v.chained;
          balanced = λ a. omega (
            arith,
            v.balanced a,
            held-update db.receipts reference f row a v.chained found,
            held-same row (f row) a k.account s,
          );
          bounded = v.bounded;
        };
      }

  found-proved :
      (rows : List (Row J)) (r : String) (row : Row J)
      → Chained rows
      → find rows r ≡ some row
      → is_proved row ≡ true
  unfolding find
  found-proved [] r row c h = ground arith
  found-proved (x ∷ xs) r row c h = ground (arith, c.0.proved, found-proved xs r row c.1)

  found-counted :
      (rows : List (Row J)) (r : String) (row : Row J)
      → Chained rows
      → find rows r ≡ some row
      → counted row ≤ row.attempts_used
  unfolding find
  found-counted [] r row c h = ground arith
  found-counted (x ∷ xs) r row c h = ground (arith, c.0.tally, found-counted xs r row c.1)

  pub update-update :
      (rows : List (Row J)) (r : String) (f g : Row J → Row J)
      → ((row : Row J) → (f row).reference ≡ row.reference)
      → update (update rows r f) r g ≡ update rows r (λ row. g (f row))
  unfolding update
  update-update [] r f g k = refl
  update-update (x ∷ xs) r f g k = ground (arith, k x, update-update xs r f g k)

  abbrev released_row : Option J → Row J → Row J
  released_row output row = mark_released (settled_row released none output row)

  released-IsStep :
      (now : ℕ) (row : Row J) (evidence : J)
      → is_unknown row ≡ true
      → is_proved row ≡ true
      → counted row ≤ row.attempts_used
      → lacks_evidence released none (receipt_of now row) none ≡ false
      → IsStep row (released_row (kept_output evidence none (receipt_of now row)) row)
  unfolding lacks_evidence
  released-IsStep now row evidence u p c l = record {
    reference = refl;
    account = refl;
    invocation = refl;
    binding = refl;
    limit = refl;
    reservation = refl;
    state = λ k. ground arith;
    usage = λ k. ground arith;
    output = λ k. ground arith;
    owned = λ o. refl;
    counts = λ k. ground arith;
    tally = ground arith;
    below = λ b. ground arith;
    proved = λ q. ground arith;
  }

  marked-IsStep :
      (row : Row J)
      → is_unknown row ≡ false
      → row.pre_dispatch_released ≡ true
      → IsStep row (mark_released row)
  marked-IsStep row k p = record {
    reference = refl;
    account = refl;
    invocation = refl;
    binding = refl;
    limit = refl;
    reservation = refl;
    state = λ k. refl;
    usage = λ k. refl;
    output = λ k. refl;
    owned = λ o. refl;
    counts = λ k. ground arith;
    tally = ground arith;
    below = λ b. ground arith;
    proved = λ q. ground arith;
  }

  abbrev marked : Db J → String → Db J
  marked db reference = record db { receipts = update db.receipts reference mark_released }

  marked-settled :
      (db middle : Db J) (accounts : List (String × ℕ)) (reference : String) (output : Option J)
      → middle ≡ record {
        accounts = accounts;
        receipts = update db.receipts reference (settled_row released none output);
      }
      → marked middle reference ≡ record {
        accounts = accounts;
        receipts = update db.receipts reference (released_row output);
      }
  marked-settled db middle accounts reference output eq =
      ap (λ m. marked m reference) eq
      ∙ ap (λ rows. record { accounts = accounts; receipts = rows })
          (update-update db.receipts reference (settled_row released none output) mark_released
            (λ row. refl))

module _ {J : Type 0} ⦃e : Key J⦄ where
  -- What `release_in` has found when it answers.
  pub record Releases (evidence : J) (now : ℕ) (db left : Db J) (reference : String) (row : Row J)
      : Type 0 where
    pub middle : Db J
    pub found : find db.receipts reference ≡ some row
    pub allowed : (is_unknown row || row.pre_dispatch_released) ≡ true
    pub finished : Finishes now db middle reference released none evidence none row
    pub marked : left ≡ record middle { receipts = update middle.receipts reference mark_released }

  pub release_in-Releases :
      (evidence : J) (now : ℕ) (db left : Db J) (reference : String)
      → release_in evidence now db reference ≡ ok left
      → (row : Row J) × Releases evidence now db left reference row
  unfolding release_in receipt_in
  release_in-Releases evidence now db left reference h =
      elim (Result-cases (finish_in evidence now db reference released none none)) [
        | inl (x, q) ↦ ground arith
        | inr (middle, q) ↦
            let (row, c) =
              finish_in-Finishes evidence now db middle reference released none none q in
            (
              row,
              record {
                middle = middle;
                found = c.found;
                allowed = ground (arith, c.found);
                finished = c;
                marked = ground (arith, c.found);
              },
            )
      ]

  released-Advances :
      (evidence : J) (now : ℕ) (db left : Db J) (reference : String) (row : Row J)
      → IsSound db
      → Releases evidence now db left reference row
      → Advances db left
  released-Advances evidence now db left reference row v c =
      let old = receipt_of now row in
      let kept = kept_output evidence none old in
      let proved = found-proved db.receipts reference row v.chained c.found in
      elim (settle-inv db c.middle old reference released none kept c.finished.settles) [
        | inl (u, h) ↦
            let (accounts, r, eq) = written-inv db c.middle old reference released none kept h in
            subst (λ l. Advances db l)
              (sym (c.marked ∙ marked-settled db c.middle accounts reference kept eq))
              (written-Advances db accounts reference released row (released_row kept) v c.found u
                (released-IsStep now row evidence u proved
                  (found-counted db.receipts reference row v.chained c.found) c.finished.proved)
                refl
                (ap (λ a. refund db.accounts released a)
                    (sym (row-account db.receipts reference row v.chained c.found))
                  ∙ r))
        | inr (k, eq, _) ↦
            subst (λ l. Advances db l) (sym (c.marked ∙ ap (λ m. marked m reference) eq))
              (quiet-Advances db reference row mark_released v c.found
                (marked-IsStep row k (ground (arith, c.allowed))) refl)
      ]

  pub release_in-Advances :
      (evidence : J) (now : ℕ) (db left : Db J) (reference : String)
      → IsSound db
      → release_in evidence now db reference ≡ ok left
      → Advances db left
  release_in-Advances evidence now db left reference v h =
      let (row, c) = release_in-Releases evidence now db left reference h in
      released-Advances evidence now db left reference row v c
