-- ===== src/Spend/Store.antt =====
-- The tables of the ledger, spend_accounts and spend_receipts of
-- crates/symbiotic-queue-sqlite/src/lib.rs, and how spend.rs reads them. A column of JSON text
-- holds the value that was written, a date its nanoseconds. The receipts stand in falling order of
-- their rowid, so that the newest comes first.
use symbiotic_foundation.Base.{
  ℕ, String, Bool, ◌&&◌, Option, none, some, List, [], ◌∷◌, any, ltb, ◌==◌, string_eq,
  if◌then◌else◌,
}
use symbiotic_foundation.Spend.Result.{Result, ok, err, storage, ◌>>=◌}
use symbiotic_foundation.Spend.Types.{
  SpendState, unknown, same_state, SpendReservation, UsageTrace, SpendReceipt, new_ref,
}

pub record Row (J : Type 0) : Type 0 where
  pub reference : String
  pub account : String
  pub invocation : String
  pub binding : String
  pub reservation : SpendReservation
  pub state : SpendState
  pub usage : Option UsageTrace
  pub output : Option J
  pub handoff_input : Option String
  pub dispatch_owner : Option String
  pub pre_dispatch_released : Bool
  pub attempt_limit : Option ℕ
  pub attempts_used : ℕ
  pub recovery : Option J
  pub recovery_expires_at : Option ℕ

pub record Db (J : Type 0) : Type 0 where
  pub accounts : List (String × ℕ)
  pub receipts : List (Row J)

-- `SpendReceiptRef::new(r).map_err(storage)`
abbrev pub checked_ref : String → Result (Option String)
checked_ref reference = elim (new_ref reference) [ ok r ↦ ok (some r) | err _ ↦ err storage ]

module _ {J : Type 0} where
  -- `WHERE reference=?1`
  unfoldable pub find : List (Row J) → String → Option (Row J)
  find [] reference = none
  find (row ∷ rows) reference = if row.reference == reference then some row else find rows reference

  -- `UPDATE spend_receipts SET … WHERE reference=?1`
  unfoldable pub update : List (Row J) → String → (Row J → Row J) → List (Row J)
  update [] reference f = []
  update (row ∷ rows) reference f =
      (if row.reference == reference then f row else row) ∷ update rows reference f

  abbrev pub is_of : String → String → Row J → Bool
  is_of account invocation row = row.account == account && row.invocation == invocation

  -- The newest row of an account's invocation: `ORDER BY rowid DESC LIMIT 1`.
  unfoldable pub latest : List (Row J) → String → String → Option (Row J)
  latest [] account invocation = none
  latest (row ∷ rows) account invocation =
      if is_of account invocation row then some row else latest rows account invocation

  abbrev pub is_unknown : Row J → Bool
  is_unknown row = same_state row.state unknown

  -- `EXISTS(… WHERE account=?1 AND invocation=?2 AND state='unknown')`
  unfoldable pub is_active : List (Row J) → String → String → Bool
  is_active rows account invocation =
      any (λ row. is_of account invocation row && is_unknown row) rows

  -- An answer is read until its date.
  abbrev pub live_recovery : ℕ → Row J → Option J
  live_recovery now row = elim row.recovery_expires_at [
    | none ↦ none
    | some until ↦ if ltb now until then row.recovery else none
  ]

  abbrev pub receipt_of : ℕ → Row J → SpendReceipt J
  receipt_of now row = record {
    reservation = row.reservation;
    state = row.state;
    pre_dispatch_released = row.pre_dispatch_released;
    usage = row.usage;
    output = row.output;
    attempt_limit = row.attempt_limit;
    attempts_used = row.attempts_used;
    recovery = live_recovery now row;
  }

  -- `now` is the reading of the clock.
  unfoldable pub receipt_in : ℕ → Db J → String → Option (SpendReceipt J)
  receipt_in now db reference = elim (find db.receipts reference) [
    | none ↦ none
    | some row ↦ some (receipt_of now row)
  ]

  unfoldable pub invocation_reference_in : Db J → String → String → Result (Option String)
  invocation_reference_in db account invocation = elim (latest db.receipts account invocation) [
    | none ↦ ok none
    | some row ↦ checked_ref row.reference
  ]

  unfoldable pub invocation_in : ℕ → Db J → String → String → Result (Option (SpendReceipt J))
  invocation_in now db account invocation = do
    reference ← invocation_reference_in db account invocation
    elim reference [ none ↦ ok none | some r ↦ ok (receipt_in now db r) ]
