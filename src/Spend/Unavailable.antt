-- ===== src/Spend/Unavailable.antt =====
-- `ExecutionAttemptContext` and `UnavailableSpendLedger` of crates/symbiotic-model/src/spend.rs.
use symbiotic_foundation.Base.{ℕ, String, Bool, Option, none, some, if◌then◌else◌}
use symbiotic_foundation.Spend.Result.{Result, ok, err, storage}
use symbiotic_foundation.Spend.Types.{
  SpendState, SpendReservation, AcceptedSpendHandoff, UsageTrace, SpendReceipt,
}

-- The receipt that an execution has observed, behind a lock.
pub record ExecutionAttemptContext : Type 0 where
  pub observed : Option String
  pub poisoned : Bool

unfoldable pub reference : ExecutionAttemptContext → Result (Option String)
reference c = if c.poisoned then err storage else ok c.observed

unfoldable pub clear : ExecutionAttemptContext → ExecutionAttemptContext × Result (Unit {0})
clear c = if c.poisoned then (c, err storage) else (record c { observed = none }, ok tt)

unfoldable pub capture :
    String → ExecutionAttemptContext → ExecutionAttemptContext × Result (Unit {0})
capture r c = if c.poisoned then (c, err storage) else (record c { observed = some r }, ok tt)

-- Every call is refused where no store was supplied.
unfoldable pub no_reserve : SpendReservation → Result Bool
no_reserve r = err storage

unfoldable pub no_reserve_explicit : SpendReservation → ℕ → Result Bool
no_reserve_explicit r limit = err storage

unfoldable pub no_discard_recovery : String → String → Result (Unit {0})
no_discard_recovery account invocation = err storage

unfoldable pub no_release_before_dispatch : String → Result (Unit {0})
no_release_before_dispatch reference = err storage

unfoldable pub no_acquire_handoff :
    AcceptedSpendHandoff → String → String → String → Result (Unit {0})
no_acquire_handoff h account input_identity owner = err storage

module _ {J : Type 0} where
  unfoldable pub no_purge_recovery : (J → Result Bool) → Result ℕ
  no_purge_recovery matches = err storage

  unfoldable pub no_receipt : String → Result (Option (SpendReceipt J))
  no_receipt reference = err storage

  unfoldable pub no_invocation : String → String → Result (Option (SpendReceipt J))
  no_invocation account invocation = err storage

  unfoldable pub no_finish :
      String → SpendState → Option UsageTrace → Option J → Option String → Result (Unit {0})
  no_finish reference state usage output invocation = err storage
