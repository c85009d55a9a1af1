-- ===== src/Spend/Reserve.antt =====
-- `reserve_in`, `reserve_with_limit_in` and `reserve_handoff_in` of spend.rs. An operation in a
-- transaction answers with the tables that it leaves; an error leaves none, and the caller's
-- transaction is rolled back.
use symbiotic_foundation.Base.{
  ℕ, ◌+◌, ◌-◌, ◌^◌, String, Bool, true, false, not, ◌&&◌, ◌||◌, Option, none, some, List, ◌∷◌, ltb,
  leb, ◌==◌, string_eq, is_some, if◌then◌else◌, get, insert, modify,
}
use symbiotic_foundation.Core.Diagnostics.{
  invocation_completed, attempt_budget_exhausted, spend_budget_exhausted,
}
use symbiotic_foundation.Model.Errors.{queue, budget_exhausted}
use symbiotic_foundation.Spend.Result.{Result, ok, err, storage, conflict, ◌>>=◌, ◌>>◌, refuse_if}
use symbiotic_foundation.Spend.Types.{
  unknown, settled, same_state, SpendReservation, same_reservation, AcceptedSpendHandoff,
  SpendReceipt,
}
use symbiotic_foundation.Spend.Store.{Row, Db, find, update, is_active, receipt_in, invocation_in}

-- `INSERT OR IGNORE INTO spend_accounts(account)`
unfoldable pub open_account : List (String × ℕ) → String → List (String × ℕ)
open_account accounts account = elim (get accounts account) [
  | none ↦ insert accounts account 0
  | some _ ↦ accounts
]

abbrev pub is_within : ℕ → Option ℕ → Bool
is_within used none = true
is_within used (some limit) = ltb used limit

-- `UPDATE spend_accounts SET used=used+1 WHERE …`, which must change one row.
unfoldable pub charge : List (String × ℕ) → String → Option ℕ → Result (List (String × ℕ))
charge accounts account limit = elim (get accounts account) [
  | none ↦ err (budget_exhausted spend_budget_exhausted)
  | some used ↦
      if ltb used (2 ^ 63 - 1) && is_within used limit
      then ok (modify accounts account (λ n. n + 1))
      else err (budget_exhausted spend_budget_exhausted)
]

-- `u32::checked_add(1)`, for receipts with a ceiling only.
unfoldable pub next_used : Option ℕ → ℕ → Result ℕ
next_used none used = ok 0
next_used (some _) used = if ltb (used + 1) (2 ^ 32) then ok (used + 1) else err storage

-- `i64::try_from`
abbrev pub to_i64 : Option ℕ → Result (Option ℕ)
to_i64 none = ok none
to_i64 (some n) = if ltb n (2 ^ 63) then ok (some n) else err storage

-- `frozen.is_some_and(|limit| used >= limit)`
abbrev pub is_spent : Option ℕ → ℕ → Bool
is_spent none used = false
is_spent (some limit) used = leb limit used

abbrev pub is_input : Option String → String → Bool
is_input none input = false
is_input (some stored) input = stored == input

module _ {J : Type 0} where
  abbrev pub rebinds : Option (SpendReceipt J) → SpendReservation → Bool
  rebinds none r = false
  rebinds (some p) r = not (p.reservation.binding == r.binding)

  abbrev pub limit_of : Option (SpendReceipt J) → Option ℕ
  limit_of none = none
  limit_of (some p) = p.attempt_limit

  abbrev pub used_of : Option (SpendReceipt J) → ℕ
  used_of none = 0
  used_of (some p) = p.attempts_used

  abbrev pub is_explicit : Option (SpendReceipt J) → Option ℕ → Bool
  is_explicit previous attempt_limit = is_some attempt_limit || is_some (limit_of previous)

  -- The ceiling of the first attempt is kept.
  abbrev pub frozen_limit : Option (SpendReceipt J) → Option ℕ → Option ℕ
  frozen_limit previous attempt_limit = elim (limit_of previous) [
    | none ↦ attempt_limit
    | some limit ↦ some limit
  ]

  -- What an explicit attempt, or one behind a handoff, refuses in its predecessor.
  unfoldable pub check_previous : Option (SpendReceipt J) → Bool → Bool → Result (Unit {0})
  check_previous none explicit handoff = ok tt
  check_previous (some p) explicit handoff =
      if explicit || handoff
      then if is_some p.output
        then err (if explicit then queue invocation_completed else conflict)
        else refuse_if (same_state p.state settled) conflict
      else ok tt

  abbrev pub new_row : SpendReservation → Option ℕ → ℕ → Row J
  new_row r attempt_limit attempts_used = record {
    reference = r.reference;
    account = r.account;
    invocation = r.invocation;
    binding = r.binding;
    reservation = r;
    state = unknown;
    usage = none;
    output = none;
    handoff_input = none;
    dispatch_owner = none;
    pre_dispatch_released = false;
    attempt_limit = attempt_limit;
    attempts_used = attempts_used;
    recovery = none;
    recovery_expires_at = none;
  }

  -- `INSERT INTO spend_receipts`, under the primary key and the unique index of active invocations.
  unfoldable pub insert_receipt : List (Row J) → Row J → Result (List (Row J))
  insert_receipt rows row =
      if is_some (find rows row.reference) || is_active rows row.account row.invocation
      then err storage
      else ok (row ∷ rows)

  -- Reading the frozen ceiling to the insertion.
  unfoldable pub admit : Db J → SpendReservation → Option ℕ → ℕ → Result (Bool × Db J)
  admit db r frozen used = do
    refuse_if (is_spent frozen used) (budget_exhausted attempt_budget_exhausted)
    next ← next_used frozen used
    limit ← to_i64 r.request_limit
    accounts ← charge (open_account db.accounts r.account) r.account limit
    receipts ← insert_receipt db.receipts (new_row r frozen next)
    ok (true, record { accounts = accounts; receipts = receipts })

  unfoldable pub attempt :
      Db J → Option (SpendReceipt J) → SpendReservation → Option ℕ → Bool → Result (Bool × Db J)
  attempt db previous r attempt_limit handoff = do
    check_previous previous (is_explicit previous attempt_limit) handoff
    refuse_if (is_active db.receipts r.account r.invocation) conflict
    admit db r (frozen_limit previous attempt_limit) (used_of previous)

  -- A reference that is there is attached to again by exactly the same reservation.
  unfoldable pub reattach : Db J → SpendReceipt J → SpendReservation → Result (Bool × Db J)
  reattach db old r = if same_reservation old.reservation r then ok (false, db) else err conflict

  unfoldable pub reserve_with_limit_in :
      ℕ → Db J → SpendReservation → Option ℕ → Bool → Result (Bool × Db J)
  reserve_with_limit_in now db r attempt_limit handoff = do
    previous ← invocation_in now db r.account r.invocation
    refuse_if (rebinds previous r) conflict
    elim (receipt_in now db r.reference) [
      | some old ↦ reattach db old r
      | none ↦ attempt db previous r attempt_limit handoff
    ]

  abbrev pub reserve_in : ℕ → Db J → SpendReservation → Result (Bool × Db J)
  reserve_in now db r = reserve_with_limit_in now db r none false

  abbrev pub handoff_input_of : Db J → String → Result (Option String)
  handoff_input_of db reference = elim (find db.receipts reference) [
    | none ↦ err storage
    | some row ↦ ok row.handoff_input
  ]

  -- After the reservation: the input is stored for a new one, and must be the stored one else.
  unfoldable pub bind_handoff : AcceptedSpendHandoff → Bool × Db J → Result (Bool × Db J)
  bind_handoff h (true, db) = ok (
    true,
    record db {
      receipts =
          update db.receipts h.reservation.reference
            (λ row. record row { handoff_input = some h.input_identity });
    },
  )
  bind_handoff h (false, db) = do
    input ← handoff_input_of db h.reservation.reference
    if is_input input h.input_identity then ok (false, db) else err conflict

  unfoldable pub reserve_handoff_in : ℕ → Db J → AcceptedSpendHandoff → Result (Bool × Db J)
  reserve_handoff_in now db h =
      if h.input_identity == ""
      then err conflict
      else reserve_with_limit_in now db h.reservation none true >>= bind_handoff h
