-- ===== src/Spend/Contract/Reserving.antt =====
-- What `reserve` and `reserve_explicit` promise, on every answer.
use symbiotic_foundation.Base.{
  ℕ, ◌+◌, String, Bool, not, ◌&&◌, true, false, Option, none, some, ◌∷◌, ◌==◌, nat_eq, string_eq,
  if◌then◌else◌, ◌≡◌, refl, Bool-cases, inl, inr, sym, subst, ap, ◌∙◌,
}
use symbiotic_foundation.Base.Maybe.{option_eq}
use symbiotic_foundation.Spend.Result.{is_ok, Result, ok, err, Result-cases}
use symbiotic_foundation.Spend.Types.{SpendReservation, same_reservation}
use symbiotic_foundation.Spend.Store.{Row, Db, find, latest, is_active}
use symbiotic_foundation.Spend.Reserve.{is_within, new_row, reserve_with_limit_in}
use symbiotic_foundation.Spend.Calls.{SqliteSpendLedger, transact, reserve, reserve_explicit}
use symbiotic_foundation.Spend.Contract.Granting.{grants, reserve-granted}
use symbiotic_foundation.Spend.Safe.Transactions.{
  transact-granted, transact-ok, transact-err, transact-poisoned,
}
use symbiotic_foundation.Spend.Inv.Defs.{used_of, Chained, IsSound}
use symbiotic_foundation.Spend.Inv.Accepting.{
  Accepts, ceiling_of, is_open, charge-used, charge-allowed,
}
use symbiotic_foundation.Spend.Inv.Reserving.{reserve-cases}

module _ {J : Type 0} where
  -- A new attempt: nothing stood in its way, the account has one request more, and the receipt is
  -- added, unknown, under the ceiling of its invocation.
  pub record IsAccepted (l after : SqliteSpendLedger J) (r : SpendReservation) (limit : Option ℕ)
      : Type 0 where
    pub fresh : find l.db.receipts r.reference ≡ none
    pub alone : is_active l.db.receipts r.account r.invocation ≡ false
    pub continues : is_open (latest l.db.receipts r.account r.invocation) limit false ≡ true
    pub allowed : is_within (used_of l.db.accounts r.account) r.request_limit ≡ true
    pub charged :
        (a : String)
        → used_of after.db.accounts a ≡ used_of l.db.accounts a + (if r.account == a then 1 else 0)
    pub usable : after.poisoned ≡ false
    pub attempt : ℕ
    pub added :
        after.db.receipts
        ≡ new_row r (ceiling_of (latest l.db.receipts r.account r.invocation) limit) attempt
          ∷ l.db.receipts

  -- What each answer of a reservation means for the ledger before and after it.
  abbrev pub Answers :
      SqliteSpendLedger J → SpendReservation → Option ℕ → SqliteSpendLedger J × Result Bool → Type 0
  Answers l r limit (after, ok true) = IsAccepted l after r limit
  Answers l r limit (after, ok false) =
      (after ≡ l)
      × (row : Row J) × (find l.db.receipts r.reference ≡ some row)
      × (same_reservation row.reservation r ≡ true)
  Answers l r limit (after, err _) = after ≡ l

  new_attempt_lem :
      (l : SqliteSpendLedger J) (left : Db J) (r : SpendReservation) (limit : Option ℕ)
      → l.poisoned ≡ false
      → Accepts l.db left r limit false
      → IsAccepted l (record l { db = left }) r limit
  new_attempt_lem l left r limit p a = record {
    fresh = a.fresh;
    alone = a.alone;
    continues = a.continues;
    allowed = (charge-allowed l.db.accounts a.accounts r.account r.request_limit a.charged).1;
    charged = λ b.
        ap (λ d. used_of d.accounts b) a.inserted
        ∙ charge-used l.db.accounts a.accounts r.account b r.request_limit a.charged;
    usable = p;
    attempt = a.used;
    added = ap (λ d. d.receipts) a.inserted ∙ ap (λ c. new_row r c a.used ∷ l.db.receipts) a.frozen;
  }

  committed-Answers :
      (now : ℕ) (l : SqliteSpendLedger J) (left : Db J) (r : SpendReservation) (limit : Option ℕ)
      (b : Bool)
      → l.poisoned ≡ false
      → Chained l.db.receipts
      → reserve_with_limit_in now l.db r limit false ≡ ok (b, left)
      → Answers l r limit (record l { db = left }, ok b)
  committed-Answers now l left r limit b p c h =
      elim (reserve-cases now l.db left r limit false b c h) [
        | inl (f, a) ↦
            subst (λ x. Answers l r limit (record l { db = left }, ok x)) (sym f)
              (ap (λ d. record l { db = d }) a.kept, a.row, a.found, a.same)
        | inr (t, a) ↦
            subst (λ x. Answers l r limit (record l { db = left }, ok x)) (sym t)
              (new_attempt_lem l left r limit p a)
      ]

  transact-Answers :
      (now : ℕ) (l : SqliteSpendLedger J) (r : SpendReservation) (limit : Option ℕ)
      → IsSound l.db
      → Answers l r limit (transact (λ db. reserve_with_limit_in now db r limit false) l)
  transact-Answers now l r limit v =
      let work = λ (db : Db J). reserve_with_limit_in now db r limit false in
      elim (Bool-cases l.poisoned) [
        | inl p ↦ subst (λ a. Answers l r limit a) (sym (transact-poisoned work l p)) refl
        | inr p ↦ elim (Result-cases (work l.db)) [
          | inl (x, h) ↦ subst (λ a. Answers l r limit a) (sym (transact-err work l x p h)) refl
          | inr ((b, left), h) ↦
              subst (λ a. Answers l r limit a) (sym (transact-ok work l b left p h))
                (committed-Answers now l left r limit b p v.chained h)
        ]
      ]

  transact-grants :
      (now : ℕ) (l : SqliteSpendLedger J) (r : SpendReservation) (limit : Option ℕ)
      → IsSound l.db
      → is_ok (transact (λ db. reserve_with_limit_in now db r limit false) l).1
        ≡ (not l.poisoned && grants l.db r limit false)
  transact-grants now l r limit v =
      transact-granted (λ db. reserve_with_limit_in now db r limit false) l
      ∙ ap (λ b. not l.poisoned && b) (reserve-granted now l.db r limit false v.chained)

  -- On a sound ledger, `reserve` and `reserve_explicit` answer true only for a new attempt: its
  -- reference was unused, no receipt of the invocation was unknown, the account was below the
  -- request limit and has one request more, no other account changes, a completed predecessor
  -- stands behind neither an explicit attempt nor an invocation with a ceiling, and the only new
  -- receipt is the unknown one of this reservation, with the ceiling of its predecessor where that
  -- has one. They answer false only where the receipt of an equal reservation is there. On false
  -- and on an error nothing changes. They answer without an error exactly where the lock is not
  -- poisoned, the newest receipt of the invocation can be read and is bound alike, and either the
  -- receipt of an equal reservation is there, or the reference is unused and the attempt has room:
  -- its predecessor lets it continue, none is unknown, an attempt and a request are left, and its
  -- limits and counts fit their columns.
  pub reserve-Answers :
      (now limit : ℕ) (r : SpendReservation) (l : SqliteSpendLedger J)
      → IsSound l.db
      → Answers l r none (reserve now r l)
        × Answers l r (some limit) (reserve_explicit now r limit l)
        × (is_ok (reserve now r l).1 ≡ (not l.poisoned && grants l.db r none false))
        × (is_ok (reserve_explicit now r limit l).1
            ≡ (not l.poisoned && grants l.db r (some limit) false))
  unfolding reserve reserve_explicit
  reserve-Answers now limit r l v = (
    transact-Answers now l r none v,
    transact-Answers now l r (some limit) v,
    transact-grants now l r none v,
    transact-grants now l r (some limit) v,
  )
