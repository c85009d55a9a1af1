-- ===== src/Spend/Inv/Growing.antt =====
-- Calls only add receipts and make steps in those that are there.
use symbiotic_foundation.Base.{
  ℕ, String, Bool, Option, none, some, List, [], ◌∷◌, ◌==◌, string_eq, str_iff, ◌≡◌, refl, arith,
  Bool-cases, Option-cases, inl, inr, sym, subst, ◌∙◌,
}
use symbiotic_foundation.Spend.Result.{ok}
use symbiotic_foundation.Spend.Types.{SpendReservation}
use symbiotic_foundation.Spend.Store.{Row, Db, find, update}
use symbiotic_foundation.Spend.Reserve.{reserve_with_limit_in}
use symbiotic_foundation.Spend.Recovery.{clear}
use symbiotic_foundation.Spend.Inv.Defs.{IsSound}
use symbiotic_foundation.Spend.Inv.Rows.{
  IsStep, step_refl, Steps, Advances, find-here, find-there, update_none,
}
use symbiotic_foundation.Spend.Inv.Releasing.{quiet-Advances}
use symbiotic_foundation.Spend.Inv.Accepting.{Accepts}
use symbiotic_foundation.Spend.Inv.Reserving.{reserve-cases, accepted-IsSound}

module _ {J : Type 0} where
  step_trans : (x y z : Row J) → IsStep x y → IsStep y z → IsStep x z
  step_trans x y z s t = record {
    reference = t.reference ∙ s.reference;
    account = t.account ∙ s.account;
    invocation = t.invocation ∙ s.invocation;
    binding = t.binding ∙ s.binding;
    limit = t.limit ∙ s.limit;
    reservation = t.reservation ∙ s.reservation;
    state = λ u. ground (arith, s.state u, t.state);
    usage = λ u. ground (arith, s.state u, s.usage u, t.usage);
    output = λ u. ground (arith, s.state u, s.output u, t.output);
    owned = λ o. ground (arith, s.owned o, t.owned);
    counts = λ u. ground (arith, s.state u, s.counts u, t.counts);
    tally = omega (arith, s.tally, t.tally);
    below = λ b. t.below (s.below b);
    proved = λ p. t.proved (s.proved p);
  }

  -- Each receipt of `db` is still there, changed by a step, and the tables are sound.
  pub record Grows (db left : Db J) : Type 0 where
    pub kept :
        (r : String) (row : Row J)
        → find db.receipts r ≡ some row
        → (new : Row J) × (find left.receipts r ≡ some new) × IsStep row new
    pub sound : IsSound left

  find-kept :
      (xs ys : List (Row J)) (r : String) (row : Row J)
      → Steps xs ys
      → find xs r ≡ some row
      → (new : Row J) × (find ys r ≡ some new) × IsStep row new
  unfolding find
  find-kept [] ys r row s h = ground arith
  find-kept (x ∷ xs) [] r row s h = ground arith
  find-kept (x ∷ xs) (y ∷ ys) r row s h = elim (Bool-cases (x.reference == r)) [
    | inl e ↦
        (y, ground (arith, s.0.reference), subst (λ z. IsStep z y) (find-here x xs r row e h) s.0)
    | inr ne ↦
        let (new, f, k) = find-kept xs ys r row s.1 (sym (find-there x xs r ne) ∙ h) in
        (new, find-there y ys r (rw s.0.reference ne) ∙ f, k)
  ]

  pub Grows-refl : (db : Db J) → IsSound db → Grows db db
  Grows-refl db v = record { kept = λ r row f. (row, f, step_refl row); sound = v }

  pub Grows-trans : (a b c : Db J) → Grows a b → Grows b c → Grows a c
  Grows-trans a b c g h = record {
    kept = λ r row f.
        let (new, f', s) = g.kept r row f in
        let (newer, f'', t) = h.kept r new f' in (newer, f'', step_trans row new newer s t);
    sound = h.sound;
  }

  pub Advances-Grows : (db left : Db J) → Advances db left → Grows db left
  Advances-Grows db left a = record {
    kept = λ r row f. find-kept db.receipts left.receipts r row a.steps f;
    sound = a.sound;
  }

  accepted-Grows :
      (db left : Db J) (r : SpendReservation) (attempt_limit : Option ℕ) (handoff : Bool)
      → IsSound db
      → Accepts db left r attempt_limit handoff
      → Grows db left
  unfolding find
  accepted-Grows db left r attempt_limit handoff v a = record {
    kept = λ s row f.
        (row, ground (arith, a.inserted, a.fresh, f, str_iff r.reference s), step_refl row);
    sound = accepted-IsSound db left r attempt_limit handoff v a;
  }

  pub reserve-Grows :
      (now : ℕ) (db left : Db J) (r : SpendReservation) (attempt_limit : Option ℕ)
      (handoff b : Bool)
      → IsSound db
      → reserve_with_limit_in now db r attempt_limit handoff ≡ ok (b, left)
      → Grows db left
  reserve-Grows now db left r attempt_limit handoff b v h =
      elim (reserve-cases now db left r attempt_limit handoff b v.chained h) [
        | inl (_, a) ↦ subst (λ l. Grows db l) (sym a.kept) (Grows-refl db v)
        | inr (_, a) ↦ accepted-Grows db left r attempt_limit handoff v a
      ]

  -- A step of whatever receipt a reference names, if it names one.
  pub quiet-Grows :
      (db : Db J) (reference : String) (f : Row J → Row J)
      → IsSound db
      → ((row : Row J) → IsStep row (f row) × ((f row).state ≡ row.state))
      → Grows db (record db { receipts = update db.receipts reference f })
  quiet-Grows db reference f v k = elim (Option-cases (find db.receipts reference)) [
    | inl n ↦ rw (update_none db.receipts reference f n) (Grows-refl db v)
    | inr (row, found) ↦
        Advances-Grows db (record db { receipts = update db.receipts reference f })
          (quiet-Advances db reference row f v found (k row).0 (k row).1)
  ]

  -- The columns outside the accounting: answers and the input of a handoff.
  abbrev pub noted : Option String → Option J → Option ℕ → Row J → Row J
  noted handoff_input recovery recovery_expires_at row = record row {
    handoff_input = handoff_input;
    recovery = recovery;
    recovery_expires_at = recovery_expires_at;
  }

  pub noted-step :
      (handoff_input : Option String) (recovery : Option J) (recovery_expires_at : Option ℕ)
      (row : Row J)
      → IsStep row (noted handoff_input recovery recovery_expires_at row)
  noted-step i v u row = record {
    reference = refl;
    account = refl;
    invocation = refl;
    binding = refl;
    limit = refl;
    reservation = refl;
    state = λ k. refl;
    usage = λ k. refl;
    output = λ k. refl;
    owned = λ o. refl;
    counts = λ k. refl;
    tally = refl;
    below = λ b. b;
    proved = λ p. p;
  }

  pub clear-step : (row : Row J) → IsStep row (clear row)
  clear-step row = noted-step row.handoff_input none none row

  pub cleared-Grows :
      (db : Db J) (reference : String)
      → IsSound db
      → Grows db (record db { receipts = update db.receipts reference clear })
  cleared-Grows db reference v = quiet-Grows db reference clear v (λ row. (clear-step row, refl))
