-- ===== src/Spend/Inv/Reserving.antt =====
-- What a reservation answers: it attaches to its receipt again, or accepts a new attempt.
use symbiotic_foundation.Base.{
  ℕ, ◌+◌, String, Bool, true, false, Option, none, some, List, ◌∷◌, ◌==◌, nat_eq, string_eq,
  str_iff, str_refl, if◌then◌else◌, ◌≡◌, refl, arith, Option-cases, inl, inr, sym, subst, ◌⊎◌,
}
use symbiotic_foundation.Base.Maybe.{option_eq}
use symbiotic_foundation.Spend.Result.{ok, Result-cases}
use symbiotic_foundation.Spend.Types.{SpendReservation, same_reservation}
use symbiotic_foundation.Spend.Store.{Row, Db, find, latest, receipt_in, receipt_of, invocation_in}
use symbiotic_foundation.Spend.Reserve.{
  next_used, is_spent, new_row, reattach, reserve_with_limit_in,
}
use symbiotic_foundation.Spend.Inv.Defs.{
  held, counted, is_below, follows, IsAttempt, Chained, IsSound,
}
use symbiotic_foundation.Spend.Inv.Accepting.{
  charge-used, charge-allowed, used_in, latest-attempts, invocation_in-latest, Accepts,
  attempt-Accepts, latest-IsLatest,
}

accepted-below :
    (ceiling : Option ℕ) (before used : ℕ)
    → next_used ceiling before ≡ ok used
    → is_spent ceiling before ≡ false
    → is_below used ceiling ≡ true
unfolding next_used
accepted-below none before used n s = ground arith
accepted-below (some l) before used n s = ground arith

module _ {J : Type 0} where
  -- The receipt that a repeated reservation names.
  pub record Reattaches (db left : Db J) (r : SpendReservation) : Type 0 where
    pub row : Row J
    pub found : find db.receipts r.reference ≡ some row
    pub same : same_reservation row.reservation r ≡ true
    pub kept : left ≡ db

  reattach-Reattaches :
      (now : ℕ) (db left : Db J) (r : SpendReservation) (row : Row J) (b : Bool)
      → find db.receipts r.reference ≡ some row
      → reattach db (receipt_of now row) r ≡ ok (b, left)
      → (b ≡ false) × Reattaches db left r
  unfolding reattach
  reattach-Reattaches now db left r row b f h =
      (ground arith, record { row = row; found = f; same = ground arith; kept = ground arith })

  pub reserve-cases :
      (now : ℕ) (db left : Db J) (r : SpendReservation) (attempt_limit : Option ℕ)
      (handoff b : Bool)
      → Chained db.receipts
      → reserve_with_limit_in now db r attempt_limit handoff ≡ ok (b, left)
      → ((b ≡ false) × Reattaches db left r)
        ⊎ ((b ≡ true) × Accepts db left r attempt_limit handoff)
  unfolding reserve_with_limit_in receipt_in
  reserve-cases now db left r attempt_limit handoff b c h =
      elim (Result-cases (invocation_in now db r.account r.invocation)) [
        | inl (x, i) ↦ ground arith
        | inr (previous, i) ↦
            let eq = invocation_in-latest now db r.account r.invocation previous c i in
            elim (Option-cases (find db.receipts r.reference)) [
              | inr (row, f) ↦ inl (reattach-Reattaches now db left r row b f (ground arith))
              | inl f ↦ inr (
                  attempt-Accepts now db left r attempt_limit handoff b
                    (latest db.receipts r.account r.invocation) refl f c (ground (arith, eq))
                    (ground (arith, eq)))
            ]
      ]

  -- Before a first ceiling no attempt is counted.
  unlimited-latest :
      (rows : List (Row J)) (r : SpendReservation) (used : ℕ) (l : Option (Row J))
      → Chained rows
      → latest rows r.account r.invocation ≡ l
      → follows (new_row r none used) l ≡ true
      → used_in l ≡ 0
  unlimited-latest rows r used none c e h = refl
  unlimited-latest rows r used (some p) c e h =
      let k = latest-IsLatest rows r.account r.invocation p c e in ground (arith, k.below)

  accepted-tally :
      (rows : List (Row J)) (r : SpendReservation) (ceiling : Option ℕ) (used : ℕ)
      → Chained rows
      → follows (new_row r ceiling used) (latest rows r.account r.invocation) ≡ true
      → next_used ceiling (used_in (latest rows r.account r.invocation)) ≡ ok used
      → used
        ≡ counted (new_row {J = J} r ceiling used) + used_in (latest rows r.account r.invocation)
  unfolding next_used
  accepted-tally rows r none used c f n =
      ground (arith, unlimited-latest rows r used (latest rows r.account r.invocation) c refl f)
  accepted-tally rows r (some l) used c f n = ground arith

  accepted-IsAttempt :
      (db left : Db J) (r : SpendReservation) (attempt_limit : Option ℕ) (handoff : Bool)
      (a : Accepts db left r attempt_limit handoff)
      → Chained db.receipts
      → IsAttempt (new_row r a.ceiling a.used) db.receipts
  accepted-IsAttempt db left r attempt_limit handoff a c = record {
    single = a.fresh;
    alone = a.alone;
    tally =
        rw (latest-attempts db.receipts r.account r.invocation c)
          (accepted-tally db.receipts r a.ceiling a.used c a.follows_latest a.next);
    below =
        accepted-below a.ceiling (used_in (latest db.receipts r.account r.invocation)) a.used a.next
          a.left_over;
    continues = a.follows_latest;
    named = ground (
      arith,
      str_refl r.reference,
      str_refl r.account,
      str_refl r.invocation,
      str_refl r.binding,
    );
    proved = refl;
  }

  held-accepted :
      (a : String) (r : SpendReservation) (ceiling : Option ℕ) (used : ℕ) (rows : List (Row J))
      → held a (new_row r ceiling used ∷ rows) ≡ (if r.account == a then 1 else 0) + held a rows
  unfolding held
  held-accepted a r ceiling used rows = ground arith

  pub accepted-IsSound :
      (db left : Db J) (r : SpendReservation) (attempt_limit : Option ℕ) (handoff : Bool)
      → IsSound db
      → Accepts db left r attempt_limit handoff
      → IsSound left
  accepted-IsSound db left r attempt_limit handoff v a =
      subst (λ l. IsSound l) (sym a.inserted)
        (record {
          chained = (accepted-IsAttempt db left r attempt_limit handoff a v.chained, v.chained);
          balanced = λ b. ground (
            arith,
            v.balanced b,
            charge-used db.accounts a.accounts r.account b r.request_limit a.charged,
            held-accepted b r a.ceiling a.used db.receipts,
          );
          bounded = λ b. ground (
            arith,
            v.bounded b,
            str_iff r.account b,
            charge-used db.accounts a.accounts r.account b r.request_limit a.charged,
            charge-allowed db.accounts a.accounts r.account r.request_limit a.charged,
          );
        })
