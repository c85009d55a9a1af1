-- ===== src/Spend/Finish.antt =====
-- `finish_in` and `release_in` of spend.rs. `evidence` is the JSON `{"output_received": true}`.
use symbiotic_foundation.Base.{
  ℕ, ◌-◌, String, Bool, true, false, not, ◌&&◌, ◌||◌, Option, none, some, List, ltb, Key, ◌==◌,
  string_eq, is_some, if◌then◌else◌, get, modify,
}
use symbiotic_foundation.Base.Maybe.{option_eq}
use symbiotic_foundation.Spend.Result.{
  Result, ok, err, storage, conflict, ◌>>=◌, ◌>>◌, refuse_if, ok_or,
}
use symbiotic_foundation.Spend.Types.{
  SpendState, unknown, released, settled, same_state, UsageTrace, has_measured_usage, same_usage,
  SpendReceipt,
}
use symbiotic_foundation.Spend.Store.{Row, Db, update, receipt_in}

abbrev pub is_measured : Option UsageTrace → Bool
is_measured none = false
is_measured (some u) = has_measured_usage u

abbrev pub same_usages : Option UsageTrace → Option UsageTrace → Bool
same_usages none none = true
same_usages (some u) (some v) = same_usage u v
same_usages _ _ = false

-- Only a release gives the request back to the account.
unfoldable pub refund : List (String × ℕ) → SpendState → String → Result (List (String × ℕ))
refund accounts released account = elim (get accounts account) [
  | none ↦ err storage
  | some used ↦ if ltb 0 used then ok (modify accounts account (λ n. n - 1)) else err storage
]
refund accounts _ account = ok accounts

module _ {J : Type 0} where
  -- Settling needs measured usage; an attempt with output cannot be released.
  unfoldable pub lacks_evidence : SpendState → Option UsageTrace → SpendReceipt J → Option J → Bool
  lacks_evidence state usage old output =
      (same_state state settled && not (is_measured usage))
      || (same_state state released && (is_some old.output || is_some output))

  -- Any output becomes content-free evidence, and what is stored stays.
  abbrev pub kept_output : J → Option J → SpendReceipt J → Option J
  kept_output evidence none old = old.output
  kept_output evidence (some _) old = some evidence

  unfoldable pub write_settlement :
      Db J → SpendReceipt J → String → SpendState → Option UsageTrace → Option J → Result (Db J)
  write_settlement db old reference state usage output = do
    accounts ← refund db.accounts state old.reservation.account
    ok (record {
      accounts = accounts;
      receipts =
          update db.receipts reference
            (λ row. record row { state = state; usage = usage; output = output });
    })

  -- In SQL the columns on the right are those before the update. An attempt is given back once.
  abbrev pub mark_released : Row J → Row J
  mark_released row = record row {
    pre_dispatch_released = true;
    attempts_used =
        if is_some row.attempt_limit && not row.pre_dispatch_released
        then row.attempts_used - 1
        else row.attempts_used;
  }

module _ {J : Type 0} ⦃e : Key J⦄ where
  -- A receipt that is already reconciled takes only the identical settlement.
  unfoldable pub is_repeat : SpendReceipt J → SpendState → Option UsageTrace → Option J → Bool
  is_repeat old state usage output =
      same_state old.state state && same_usages old.usage usage && old.output == output

  unfoldable pub settle :
      Db J → SpendReceipt J → String → SpendState → Option UsageTrace → Option J → Result (Db J)
  settle db old reference state usage output =
      if same_state old.state unknown
      then write_settlement db old reference state usage output
      else if is_repeat old state usage output
      then ok db
      else err conflict

  unfoldable pub finish_in :
      J → ℕ → Db J → String → SpendState → Option UsageTrace → Option J → Result (Db J)
  finish_in evidence now db reference state usage output = do
    old ← ok_or (receipt_in now db reference) conflict
    refuse_if (lacks_evidence state usage old output) conflict
    settle db old reference state usage (kept_output evidence output old)

  unfoldable pub release_in : J → ℕ → Db J → String → Result (Db J)
  release_in evidence now db reference = do
    old ← ok_or (receipt_in now db reference) conflict
    refuse_if (not (same_state old.state unknown) && not old.pre_dispatch_released) conflict
    left ← finish_in evidence now db reference released none none
    ok (record left { receipts = update left.receipts reference mark_released })
