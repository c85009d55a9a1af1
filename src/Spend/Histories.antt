-- ===== src/Spend/Histories.antt =====
-- Calls of a ledger as data, and histories of calls.
use symbiotic_foundation.Base.{ℕ, String, Bool, Option, none, some, List, [], ◌∷◌, Key, string_eq}
use symbiotic_foundation.Spend.Result.{Result}
use symbiotic_foundation.Spend.Types.{
  SpendState, SpendReservation, AcceptedSpendHandoff, UsageTrace,
}
use symbiotic_foundation.Spend.Reserve.{reserve_handoff_in}
use symbiotic_foundation.Spend.Recovery.{World, constrain_job_recovery_in}
use symbiotic_foundation.Spend.Calls.{
  SqliteSpendLedger, transact, reserve, reserve_explicit, release_before_dispatch, acquire_handoff,
  finish, discard, purge, expire,
}

-- A call with its readings of the clock. Handoffs are reserved, and deadlines narrowed, in
-- transactions of the queue.
pub data Call (J : Type 0) : Type 0 where
  reserves : (now : ℕ) (r : SpendReservation) → Call J
  reserves_explicit : (now : ℕ) (r : SpendReservation) (limit : ℕ) → Call J
  reserves_handoff : (now : ℕ) (h : AcceptedSpendHandoff) → Call J
  acquires : (now : ℕ) (h : AcceptedSpendHandoff) (account input_identity owner : String) → Call J
  releases : (now : ℕ) (reference : String) → Call J
  finishes :
      (seen now : ℕ) (reference : String) (state : SpendState) (usage : Option UsageTrace)
      (output : Option J) (invocation : Option String)
      → Call J
  discards : (account invocation : String) → Call J
  purges : (matches : J → Result Bool) → Call J
  constrains : (reference invocation : String) (now : ℕ) → Call J
  expires : (now : ℕ) → Call J

module _ {J : Type 0} ⦃e : Key J⦄ where
  -- The ledger after a call.
  unfoldable pub step : J → World → Call J → SqliteSpendLedger J → SqliteSpendLedger J
  step evidence w (reserves now r) l = (reserve now r l).0
  step evidence w (reserves_explicit now r limit) l = (reserve_explicit now r limit l).0
  step evidence w (reserves_handoff now h) l = (transact (λ db. reserve_handoff_in now db h) l).0
  step evidence w (acquires now h account input_identity owner) l =
      (acquire_handoff now h account input_identity owner l).0
  step evidence w (releases now reference) l = (release_before_dispatch evidence now reference l).0
  step evidence w (finishes seen now reference state usage output invocation) l =
      (finish evidence w seen now reference state usage output invocation l).0
  step evidence w (discards account invocation) l = (discard account invocation l).0
  step evidence w (purges matches) l = (purge matches l).0
  step evidence w (constrains reference invocation now) l =
      (transact (λ db. constrain_job_recovery_in w db reference invocation now) l).0
  step evidence w (expires now) l = elim (expire now l) [ none ↦ l | some (after, _) ↦ after ]

  unfoldable pub run : J → World → List (Call J) → SqliteSpendLedger J → SqliteSpendLedger J
  run evidence w [] l = l
  run evidence w (c ∷ cs) l = run evidence w cs (step evidence w c l)
