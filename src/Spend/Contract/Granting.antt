-- ===== src/Spend/Contract/Granting.antt =====
-- When a reservation is granted: the conditions of `reserve_with_limit_in`, written out as one test.
use symbiotic_foundation.Base.{
  ℕ, ◌+◌, ◌-◌, ◌^◌, String, Bool, true, false, not, ◌&&◌, Option, none, some, List, ltb, ◌==◌,
  nat_eq, string_eq, str_iff, str_refl, get-insert, ◌≡◌, refl, arith, Bool-cases, Option-cases, inl,
  inr, ◌⊎◌,
}
use symbiotic_foundation.Spend.Result.{ok, Result-cases, is_ok}
use symbiotic_foundation.Spend.Types.{SpendReservation, same_reservation, new_ref}
use symbiotic_foundation.Spend.Store.{
  Row, Db, find, latest, is_active, receipt_in, receipt_of, invocation_in, invocation_reference_in,
}
use symbiotic_foundation.Spend.Reserve.{
  open_account, is_within, charge, next_used, to_i64, is_spent, rebinds, check_previous,
  insert_receipt, admit, attempt, reattach, reserve_with_limit_in,
}
use symbiotic_foundation.Spend.Inv.Defs.{used_of, Chained}
use symbiotic_foundation.Spend.Inv.Accepting.{
  ceiling_of, is_open, used_in, receipt_option, latest-IsLatest,
}

-- An attempt is left under the ceiling, and its number fits into 32 bits.
abbrev pub has_attempt : Option ℕ → ℕ → Bool
has_attempt none used = true
has_attempt (some limit) used = ltb used limit && ltb (used + 1) (2 ^ 32)

abbrev pub fits_i64 : Option ℕ → Bool
fits_i64 none = true
fits_i64 (some n) = ltb n (2 ^ 63)

-- A request is left on the account.
abbrev pub has_request : ℕ → Option ℕ → Bool
has_request used limit = ltb used (2 ^ 63 - 1) && is_within used limit

charge-granted :
    (accounts : List (String × ℕ)) (account : String) (limit : Option ℕ)
    → is_ok (charge (open_account accounts account) account limit)
      ≡ has_request (used_of accounts account) limit
unfolding charge open_account
charge-granted accounts account limit =
    ground (arith, str_refl account, get-insert accounts account account 0)

next_used-granted :
    (ceiling : Option ℕ) (used : ℕ)
    → (not (is_spent ceiling used) && is_ok (next_used ceiling used)) ≡ has_attempt ceiling used
unfolding next_used
next_used-granted none used = refl
next_used-granted (some l) used = ground arith

to_i64-granted : (limit : Option ℕ) → is_ok (to_i64 limit) ≡ fits_i64 limit
to_i64-granted none = refl
to_i64-granted (some n) = ground arith

module _ {J : Type 0} where
  -- The newest receipt of the invocation can be read, and is bound alike.
  abbrev pub agrees : SpendReservation → Option (Row J) → Bool
  agrees r none = true
  agrees r (some p) = is_ok (new_ref p.reference) && p.binding == r.binding

  abbrev pub has_room : Db J → SpendReservation → Option ℕ → Bool → Option (Row J) → Bool
  has_room db r limit handoff newest =
      is_open newest limit handoff
      && not (is_active db.receipts r.account r.invocation)
      && has_attempt (ceiling_of newest limit) (used_in newest)
      && fits_i64 r.request_limit
      && has_request (used_of db.accounts r.account) r.request_limit

  -- A reservation is granted where its receipt is there already, or a new attempt has room.
  abbrev pub grants : Db J → SpendReservation → Option ℕ → Bool → Bool
  grants db r limit handoff =
      agrees r (latest db.receipts r.account r.invocation) && elim (find db.receipts r.reference) [
        | some row ↦ same_reservation row.reservation r
        | none ↦ has_room db r limit handoff (latest db.receipts r.account r.invocation)
      ]

  admit-granted :
      (db : Db J) (r : SpendReservation) (ceiling : Option ℕ) (used : ℕ)
      → find db.receipts r.reference ≡ none
      → is_active db.receipts r.account r.invocation ≡ false
      → is_ok (admit db r ceiling used) ≡ (
          has_attempt ceiling used
          && fits_i64 r.request_limit
          && has_request (used_of db.accounts r.account) r.request_limit)
  unfolding admit insert_receipt
  admit-granted db r ceiling used f a = elim (Result-cases (next_used ceiling used)) [
    | inl (x, n) ↦ ground (arith, next_used-granted ceiling used, n)
    | inr (next, n) ↦
        elim (Result-cases
          (charge (open_account db.accounts r.account) r.account r.request_limit)) [
            | inl (x, c) ↦ ground (
              arith,
              next_used-granted ceiling used,
              to_i64-granted r.request_limit,
              charge-granted db.accounts r.account r.request_limit,
            )
            | inr (accounts, c) ↦ ground (
              arith,
              next_used-granted ceiling used,
              to_i64-granted r.request_limit,
              charge-granted db.accounts r.account r.request_limit,
            )
          ]
  ]

  attempt-granted :
      (now : ℕ) (db : Db J) (r : SpendReservation) (limit : Option ℕ) (handoff : Bool)
      (newest : Option (Row J))
      → find db.receipts r.reference ≡ none
      → is_ok (attempt db (receipt_option now newest) r limit handoff)
        ≡ has_room db r limit handoff newest
  unfolding attempt check_previous
  attempt-granted now db r limit handoff none f =
      elim (Bool-cases (is_active db.receipts r.account r.invocation)) [
        | inl a ↦ ground arith
        | inr a ↦ ground (arith, admit-granted db r limit 0 f a)
      ]
  attempt-granted now db r limit handoff (some p) f =
      elim (Bool-cases (is_active db.receipts r.account r.invocation)) [
        | inl a ↦ ground arith
        | inr a ↦ ground (arith, admit-granted db r (ceiling_of (some p) limit) p.attempts_used f a)
      ]

  newest-granted :
      (now : ℕ) (db : Db J) (r : SpendReservation) (newest : Option (Row J))
      → Chained db.receipts
      → latest db.receipts r.account r.invocation ≡ newest
      → agrees r newest ≡ true
      → (invocation_in now db r.account r.invocation ≡ ok (receipt_option now newest))
        × (rebinds (receipt_option now newest) r ≡ false)
  unfolding invocation_in invocation_reference_in receipt_in new_ref
  newest-granted now db r none c l a = (ground arith, refl)
  newest-granted now db r (some p) c l a =
      let k = latest-IsLatest db.receipts r.account r.invocation p c l in
      (ground (arith, k.found), ground (arith, k.named, str_iff p.reservation.binding p.binding))

  -- Where the newest receipt does not agree, it cannot be read or is bound otherwise.
  newest-refused :
      (now : ℕ) (db : Db J) (r : SpendReservation) (p : Row J)
      → Chained db.receipts
      → latest db.receipts r.account r.invocation ≡ some p
      → agrees r (some p) ≡ false
      → (is_ok (invocation_in now db r.account r.invocation) ≡ false)
        ⊎ ((invocation_in now db r.account r.invocation ≡ ok (some (receipt_of now p)))
            × (rebinds (some (receipt_of now p)) r ≡ true))
  unfolding invocation_in invocation_reference_in receipt_in new_ref
  newest-refused now db r p c l a =
      let k = latest-IsLatest db.receipts r.account r.invocation p c l in
      elim (Bool-cases (is_ok (new_ref p.reference))) [
        | inr n ↦ inl (ground arith)
        | inl n ↦ inr (
          ground (arith, k.found),
          ground (arith, k.named, str_iff p.reservation.binding p.binding),
        )
      ]

  agreeing-granted :
      (now : ℕ) (db : Db J) (r : SpendReservation) (limit : Option ℕ) (handoff : Bool)
      (newest : Option (Row J))
      → Chained db.receipts
      → latest db.receipts r.account r.invocation ≡ newest
      → agrees r newest ≡ true
      → is_ok (reserve_with_limit_in now db r limit handoff) ≡ grants db r limit handoff
  unfolding reserve_with_limit_in receipt_in reattach
  agreeing-granted now db r limit handoff newest c l a =
      let (i, b) = newest-granted now db r newest c l a in
      elim (Option-cases (find db.receipts r.reference)) [
        | inl f ↦ ground (arith, attempt-granted now db r limit handoff newest f)
        | inr (row, f) ↦ ground arith
      ]

  disagreeing-refused :
      (now : ℕ) (db : Db J) (r : SpendReservation) (limit : Option ℕ) (handoff : Bool)
      (newest : Option (Row J))
      → Chained db.receipts
      → latest db.receipts r.account r.invocation ≡ newest
      → agrees r newest ≡ false
      → is_ok (reserve_with_limit_in now db r limit handoff) ≡ grants db r limit handoff
  unfolding reserve_with_limit_in
  disagreeing-refused now db r limit handoff none c l a = ground arith
  disagreeing-refused now db r limit handoff (some p) c l a =
      elim (newest-refused now db r p c l a) [
        | inl n ↦ elim (Result-cases (invocation_in now db r.account r.invocation)) [
          | inl (x, i) ↦ ground arith
          | inr (q, i) ↦ ground arith
        ]
        | inr (i, b) ↦ ground arith
      ]

  -- A reservation is answered exactly where the test grants it.
  pub reserve-granted :
      (now : ℕ) (db : Db J) (r : SpendReservation) (limit : Option ℕ) (handoff : Bool)
      → Chained db.receipts
      → is_ok (reserve_with_limit_in now db r limit handoff) ≡ grants db r limit handoff
  reserve-granted now db r limit handoff c =
      let newest = latest db.receipts r.account r.invocation in
      elim (Bool-cases (agrees r newest)) [
        | inl a ↦ agreeing-granted now db r limit handoff newest c refl a
        | inr a ↦ disagreeing-refused now db r limit handoff newest c refl a
      ]
