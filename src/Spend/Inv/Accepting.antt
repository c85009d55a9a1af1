-- ===== src/Spend/Inv/Accepting.antt =====
-- An accepted attempt keeps the tables sound.
use symbiotic_foundation.Base.{
  ℕ, ◌+◌, ◌-◌, ◌^◌, ◌<◌, String, Bool, true, false, not, ◌&&◌, ◌||◌, Option, none, some, List, [],
  ◌∷◌, ◌==◌, nat_eq, string_eq, str_iff, str_refl, is_some, if◌then◌else◌, insert, get-modify,
  get-insert, ◌≡◌, refl, arith, Bool-cases, Option-cases, inl, inr,
}
use symbiotic_foundation.Base.Maybe.{option_eq}
use symbiotic_foundation.Spend.Result.{ok, Result-cases}
use symbiotic_foundation.Spend.Types.{settled, same_state, SpendReservation, SpendReceipt, new_ref}
use symbiotic_foundation.Spend.Store.{
  Row, Db, find, latest, is_active, is_of, receipt_in, receipt_of, invocation_reference_in,
  invocation_in,
}
use symbiotic_foundation.Spend.Reserve.{
  open_account, is_within, charge, next_used, is_spent, rebinds, check_previous, new_row,
  insert_receipt, admit, attempt,
}
use symbiotic_foundation.Spend.Inv.Defs.{attempts, is_named, is_below, follows, Chained, used_of}

pub charge-used :
    (accounts after : List (String × ℕ)) (account a : String) (limit : Option ℕ)
    → charge (open_account accounts account) account limit ≡ ok after
    → used_of after a ≡ used_of accounts a + (if account == a then 1 else 0)
unfolding charge open_account
charge-used accounts after account a limit h = ground (
  arith,
  str_iff account a,
  str_refl account,
  get-insert accounts account account 0,
  get-insert accounts account a 0,
  get-modify accounts account a (λ n. n + 1),
  get-modify (insert accounts account 0) account a (λ n. n + 1),
)

-- The account was below the allowance, and below what its column can hold.
pub charge-allowed :
    (accounts after : List (String × ℕ)) (account : String) (limit : Option ℕ)
    → charge (open_account accounts account) account limit ≡ ok after
    → (used_of accounts account < 2 ^ 63 - 1) × (is_within (used_of accounts account) limit ≡ true)
unfolding charge open_account
charge-allowed accounts after account limit h =
    ground (arith, str_refl account, get-insert accounts account account 0)

module _ {J : Type 0} where
  abbrev pub used_in : Option (Row J) → ℕ
  used_in none = 0
  used_in (some p) = p.attempts_used

  pub latest-attempts :
      (rows : List (Row J)) (a i : String)
      → Chained rows
      → attempts a i rows ≡ used_in (latest rows a i)
  unfolding latest attempts
  latest-attempts [] a i c = refl
  latest-attempts (x ∷ xs) a i c =
      ground
        (arith, str_iff x.account a, str_iff x.invocation i, c.0.tally, latest-attempts xs a i c.1)

  -- What holds of the newest attempt of an invocation.
  pub record IsLatest (rows : List (Row J)) (p : Row J) : Type 0 where
    pub found : find rows p.reference ≡ some p
    pub below : is_below p.attempts_used p.attempt_limit ≡ true
    pub named : is_named p ≡ true

  pub latest-IsLatest :
      (rows : List (Row J)) (a i : String) (p : Row J)
      → Chained rows
      → latest rows a i ≡ some p
      → IsLatest rows p
  unfolding latest find
  latest-IsLatest [] a i p c h = ground arith
  latest-IsLatest (x ∷ xs) a i p c h = elim (Bool-cases (is_of a i x)) [
    | inl e ↦ record {
      found = ground (arith, str_refl x.reference);
      below = ground (arith, c.0.below);
      named = ground (arith, c.0.named);
    }
    | inr ne ↦
        let more = latest-IsLatest xs a i p c.1 (ground arith) in
        record {
          found = ground (arith, more.found, c.0.single, str_iff x.reference p.reference);
          below = more.below;
          named = more.named;
        }
  ]

  abbrev pub receipt_option : ℕ → Option (Row J) → Option (SpendReceipt J)
  receipt_option now none = none
  receipt_option now (some row) = some (receipt_of now row)

  pub invocation_in-latest :
      (now : ℕ) (db : Db J) (a i : String) (previous : Option (SpendReceipt J))
      → Chained db.receipts
      → invocation_in now db a i ≡ ok previous
      → previous ≡ receipt_option now (latest db.receipts a i)
  unfolding invocation_in invocation_reference_in receipt_in new_ref
  invocation_in-latest now db a i previous c h = elim (Option-cases (latest db.receipts a i)) [
    | inl n ↦ ground (arith, n)
    | inr (p, l) ↦ ground (arith, l, (latest-IsLatest db.receipts a i p c l).found)
  ]

  -- The ceiling of an attempt: the one of its predecessor, or else the one asked for.
  abbrev pub ceiling_of : Option (Row J) → Option ℕ → Option ℕ
  ceiling_of none attempt_limit = attempt_limit
  ceiling_of (some p) attempt_limit =
      if is_some p.attempt_limit then p.attempt_limit else attempt_limit

  -- An explicit attempt, or one behind a handoff, follows no completed one.
  abbrev pub is_open : Option (Row J) → Option ℕ → Bool → Bool
  is_open none attempt_limit handoff = true
  is_open (some p) attempt_limit handoff =
      not (is_some (ceiling_of (some p) attempt_limit) || handoff)
      || (not (is_some p.output) && not (same_state p.state settled))

  -- What a newly accepted attempt has found, and what it leaves.
  pub record Accepts (db left : Db J) (r : SpendReservation) (attempt_limit : Option ℕ)
      (handoff : Bool) : Type 0 where
    pub accounts : List (String × ℕ)
    pub ceiling : Option ℕ
    pub used : ℕ
    pub frozen : ceiling ≡ ceiling_of (latest db.receipts r.account r.invocation) attempt_limit
    pub continues : is_open (latest db.receipts r.account r.invocation) attempt_limit handoff ≡ true
    pub fresh : find db.receipts r.reference ≡ none
    pub alone : is_active db.receipts r.account r.invocation ≡ false
    pub charged :
        charge (open_account db.accounts r.account) r.account r.request_limit ≡ ok accounts
    pub follows_latest :
        follows (new_row r ceiling used) (latest db.receipts r.account r.invocation) ≡ true
    pub next : next_used ceiling (used_in (latest db.receipts r.account r.invocation)) ≡ ok used
    pub left_over : is_spent ceiling (used_in (latest db.receipts r.account r.invocation)) ≡ false
    pub inserted :
        left ≡ record { accounts = accounts; receipts = new_row r ceiling used ∷ db.receipts }

  pub record Admits (db left : Db J) (r : SpendReservation) (frozen : Option ℕ) (used : ℕ)
      (b : Bool) : Type 0 where
    pub accounts : List (String × ℕ)
    pub used_next : ℕ
    pub accepted : b ≡ true
    pub left_over : is_spent frozen used ≡ false
    pub next : next_used frozen used ≡ ok used_next
    pub charged :
        charge (open_account db.accounts r.account) r.account r.request_limit ≡ ok accounts
    pub inserted :
        left ≡ record { accounts = accounts; receipts = new_row r frozen used_next ∷ db.receipts }

  admit-Admits :
      (db left : Db J) (r : SpendReservation) (frozen : Option ℕ) (used : ℕ) (b : Bool)
      → admit db r frozen used ≡ ok (b, left)
      → Admits db left r frozen used b
  unfolding admit insert_receipt
  admit-Admits db left r frozen used b h = elim (Result-cases (next_used frozen used)) [
    | inl (x, n) ↦ ground arith
    | inr (next, n) ↦
        elim (Result-cases
          (charge (open_account db.accounts r.account) r.account r.request_limit)) [
            | inl (x, c) ↦ ground arith
            | inr (accounts, c) ↦ record {
              accounts = accounts;
              used_next = next;
              accepted = ground arith;
              left_over = ground arith;
              next = n;
              charged = c;
              inserted = ground arith;
            }
          ]
  ]

  attempt-admits :
      (now : ℕ) (db left : Db J) (r : SpendReservation) (attempt_limit : Option ℕ)
      (handoff b : Bool) (p : Row J)
      → attempt db (some (receipt_of now p)) r attempt_limit handoff ≡ ok (b, left)
      → (admit db r (ceiling_of (some p) attempt_limit) p.attempts_used ≡ ok (b, left))
        × (is_active db.receipts r.account r.invocation ≡ false)
        × (is_open (some p) attempt_limit handoff ≡ true)
  unfolding attempt check_previous
  attempt-admits now db left r attempt_limit handoff b p h = ground arith

  continued :
      (now : ℕ) (p : Row J) (r : SpendReservation) (attempt_limit : Option ℕ) (used : ℕ)
      → is_named p ≡ true
      → rebinds (some (receipt_of now p)) r ≡ false
      → follows (new_row r (ceiling_of (some p) attempt_limit) used) (some p) ≡ true
  continued now p r attempt_limit used n h =
      ground (arith, n, str_iff p.reservation.binding p.binding)

  pub attempt-Accepts :
      (now : ℕ) (db left : Db J) (r : SpendReservation) (attempt_limit : Option ℕ)
      (handoff b : Bool) (l : Option (Row J))
      → latest db.receipts r.account r.invocation ≡ l
      → find db.receipts r.reference ≡ none
      → Chained db.receipts
      → rebinds (receipt_option now l) r ≡ false
      → attempt db (receipt_option now l) r attempt_limit handoff ≡ ok (b, left)
      → (b ≡ true) × Accepts db left r attempt_limit handoff
  unfolding attempt check_previous
  attempt-Accepts now db left r attempt_limit handoff b none e f c n h =
      let d = admit-Admits db left r attempt_limit 0 b (ground arith) in
      (
        d.accepted,
        record {
          accounts = d.accounts;
          ceiling = attempt_limit;
          used = d.used_next;
          frozen = rw e refl;
          continues = rw e refl;
          fresh = f;
          alone = ground arith;
          charged = d.charged;
          follows_latest = rw e refl;
          next = rw e d.next;
          left_over = rw e d.left_over;
          inserted = d.inserted;
        },
      )
  attempt-Accepts now db left r attempt_limit handoff b (some p) e f c n h =
      let k = latest-IsLatest db.receipts r.account r.invocation p c e in
      let a = attempt-admits now db left r attempt_limit handoff b p h in
      let d = admit-Admits db left r (ceiling_of (some p) attempt_limit) p.attempts_used b a.0 in
      (
        d.accepted,
        record {
          accounts = d.accounts;
          ceiling = ceiling_of (some p) attempt_limit;
          used = d.used_next;
          frozen = rw e refl;
          continues = rw e a.2;
          fresh = f;
          alone = a.1;
          charged = d.charged;
          follows_latest = rw e (continued now p r attempt_limit d.used_next k.named n);
          next = rw e d.next;
          left_over = rw e d.left_over;
          inserted = d.inserted;
        },
      )
