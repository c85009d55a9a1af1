-- ===== src/Queue/Calls.antt =====
-- The calls that clients make of a `MemoryQueue`, one after the other: each holds the lock while it
-- works, so a history of calls in any order is a list.
use symbiotic_foundation.Base.{
  ℕ, String, Bool, true, false, Option, none, ◌≡◌, ◌≢◌, get, string_eq, get_or,
}
use symbiotic_foundation.Base.Int.{ℤ}
use symbiotic_foundation.Core.Diagnostics.{DiagnosticCode}
use symbiotic_foundation.Queue.Types.{EnqueueRequest, ClaimRequest, Failure}
use symbiotic_foundation.Queue.Reply.{Reply, panic, MemoryQueue}
use symbiotic_foundation.Queue.Claim.{Clock}
use symbiotic_foundation.Queue.Running.{retry_time}
use symbiotic_foundation.Queue.Backend.{
  enqueue, enqueue_replacing, claim, claim_item, get_item, heartbeat, complete, fail, fail_with,
  reclaim_expired_leases, cooldown_until, note_cooldown, as_i64,
}

pub data Call (V : Type 0) : Type 0 where
  enqueues : Clock → String → EnqueueRequest V → Call V
  replaces : Clock → String → EnqueueRequest V → String → Call V
  claims : Clock → ClaimRequest → Call V
  claims_item : Clock → String → String → ℕ → Option ℕ → Call V
  gets : String → Call V
  beats : Clock → String → String → ℕ → Call V
  completes : Clock → String → String → Call V
  fails_with : Clock → String → String → Failure → Call V
  fails : ℕ → Clock → String → String → DiagnosticCode → Option ℕ → Call V
  reclaims : Clock → String → Call V
  asks_cooldown : String → Call V
  notes_cooldown : String → ℕ → Call V

abbrev pub is_panic {ℓ} : {A : Type ℓ} → Reply A → Bool
is_panic panic = true
is_panic _ = false

-- The queue after a call, and whether the call panicked.
abbrev outcome : {V A : Type 0} → MemoryQueue V × Reply A → MemoryQueue V × Bool
outcome (q, r) = (q, is_panic r)

unfoldable pub step :
    {V : Type 0} → (ℕ → ℤ → Option ℕ) → Call V → MemoryQueue V → MemoryQueue V × Bool
step add (enqueues c id request) q = outcome (enqueue c id request q)
step add (replaces c id request current) q = outcome (enqueue_replacing c id request current q)
step add (claims c request) q = outcome (claim add c request q)
step add (claims_item c id worker seconds cap) q =
    outcome (claim_item add c id worker seconds cap q)
step add (gets id) q = outcome (get_item id q)
step add (beats c id worker seconds) q = outcome (heartbeat add c id worker seconds q)
step add (completes c id worker) q = outcome (complete c id worker q)
step add (fails_with c id worker failure) q = outcome (fail_with add c id worker failure q)
step add (fails called c id worker error seconds) q =
    outcome (fail add called c id worker error seconds q)
step add (reclaims c queue) q = outcome (reclaim_expired_leases c queue q)
step add (asks_cooldown queue) q = outcome (cooldown_until queue q)
step add (notes_cooldown queue until) q = outcome (note_cooldown queue until q)

-- What a call takes for granted: a drawn identifier is new, and chrono can express the date of a
-- retry.
abbrev pub Admissible : {V : Type 0} → (ℕ → ℤ → Option ℕ) → MemoryQueue V → Call V → Type 0
Admissible add q (enqueues c id request) = get q.state.items id ≡ none
Admissible add q (replaces c id request current) = get q.state.items id ≡ none
Admissible add q (fails_with c id worker failure) = retry_time add failure c.now ≢ none
Admissible add q (fails called c id worker error seconds) =
    add called (as_i64 (get_or seconds 1)) ≢ none
Admissible add q _ = Unit

-- A history of calls, each admissible when it is made.
pub data History {V : Type 0} (add : ℕ → ℤ → Option ℕ) (q : MemoryQueue V)
    : MemoryQueue V → Type 0 where
  start : History add q q
  call :
      {r : MemoryQueue V}
      → History add q r
      → (k : Call V) → Admissible add r k
      → History add q (step add k r).0
