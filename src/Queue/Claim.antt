-- ===== src/Queue/Claim.antt =====
-- `claim` and `claim_item` of memory.rs, as they work on the state under the lock.
use symbiotic_foundation.Base.{
  ℕ, ◌-◌, ◌^◌, String, Bool, true, false, not, ◌&&◌, Option, none, some, List, [], ◌∷◌, min, max,
  ltb, leb, string_eq, if◌then◌else◌, get,
}
use symbiotic_foundation.Base.Int.{ℤ, pos}
use symbiotic_foundation.Base.Outcome.{Outcome, done, expect, ◌>>=◌}
use symbiotic_foundation.Queue.Types.{QueueItem, ClaimRequest}
use symbiotic_foundation.Queue.State.{
  State, is_waiting, running_count, reclaim_expired, retire_if_exhausted, lease,
}
use symbiotic_foundation.Queue.Ready.{ready_ids}

-- What a call reads of the clock: its `now`, the second reading for the cooldown, and one for
-- each event.
pub record Clock : Type 0 where
  pub now : ℕ
  pub cooldown_now : ℕ
  pub stamp : ℕ → ℕ

-- At least one second, within `i64`, and a time that chrono can express. `add_seconds` is chrono's
-- `Duration::try_seconds` followed by `checked_add_signed`.
unfoldable pub lease_deadline : (ℕ → ℤ → Option ℕ) → ℕ → ℕ → Option ℕ
lease_deadline add_seconds now seconds =
    let n = max seconds 1 in if ltb n (2 ^ 63) then add_seconds now (pos n) else none

-- What the lock of `claim_item` yields: the reclaimed items, the retired and the claimed one,
-- and whether the requested item is gone.
pub record ItemClaim (V : Type 0) : Type 0 where
  pub reclaimed : List (QueueItem V)
  pub retired : Option (QueueItem V)
  pub claimed : Option (QueueItem V)
  pub missing : Bool

-- What the lock of `claim` yields.
pub record Claims (V : Type 0) : Type 0 where
  pub reclaimed : List (QueueItem V)
  pub claimed : List (QueueItem V)

module _ {V : Type 0} where
  abbrev pub cooling : State V → String → ℕ → Bool
  cooling s q now = elim (get s.cooldowns q) [ none ↦ false | some until ↦ ltb now until ]

  unfoldable pub claim_limit : State V → ClaimRequest → ℕ
  claim_limit s request = elim request.max_in_flight [
    | none ↦ max request.limit 1
    | some cap ↦ min (max request.limit 1) (cap - running_count s request.queue_id)
  ]

  unfoldable pub lease_each :
      State V → List String → String → ℕ → ℕ → Outcome (State V × List (QueueItem V))
  lease_each s [] worker until now = done (s, [])
  lease_each s (id ∷ ids) worker until now = do
    after ← lease s id worker until now
    item ← expect (get after.items id)
    (last, items) ← lease_each after ids worker until now
    done (last, item ∷ items)

  unfoldable pub claim_ready :
      ClaimRequest → ℕ → ℕ → State V → Outcome (State V × List (QueueItem V))
  claim_ready request until now s =
      lease_each s (ready_ids s request.queue_id now (claim_limit s request)) request.worker_id
        until now

  unfoldable pub claim_locked : ClaimRequest → ℕ → Clock → State V → Outcome (State V × Claims V)
  claim_locked request until c s =
      if cooling s request.queue_id c.cooldown_now
      then done (s, record { reclaimed = []; claimed = [] })
      else do
        (ready, reclaimed) ← reclaim_expired s request.queue_id c.now
        (last, claimed) ← claim_ready request until c.now ready
        done (last, record { reclaimed = reclaimed; claimed = claimed })

  -- The condition of `claim_item` on the item that is left after reclaiming and retiring.
  unfoldable pub claimable : State V → QueueItem V → Option ℕ → Clock → Bool
  claimable s item max_in_flight c =
      is_waiting item.status
      && leb item.run_after c.now
      && not (cooling s item.queue_id c.cooldown_now)
      && elim max_in_flight [ none ↦ true | some cap ↦ ltb (running_count s item.queue_id) cap ]

  unfoldable pub lease_claimed :
      State V → String → String → ℕ → ℕ → Outcome (State V × Option (QueueItem V))
  lease_claimed s id worker until now = do
    after ← lease s id worker until now
    item ← expect (get after.items id)
    done (after, some item)

  unfoldable pub claim_present :
      String
      → String
      → ℕ
      → Option ℕ
      → Clock
      → List (QueueItem V)
      → State V × Option (QueueItem V)
      → Outcome (State V × ItemClaim V)
  claim_present id worker until max_in_flight c reclaimed (kept, retired) = do
    item ← expect (get kept.items id)
    (last, claimed) ←
        if claimable kept item max_in_flight c
        then lease_claimed kept id worker until c.now
        else done (kept, none)
    done (
      last,
      record { reclaimed = reclaimed; retired = retired; claimed = claimed; missing = false },
    )

  -- Reclaiming may have evicted the item, which was there when the lock was taken.
  unfoldable pub claim_left :
      String
      → String
      → ℕ
      → Option ℕ
      → Clock
      → State V × List (QueueItem V)
      → Outcome (State V × ItemClaim V)
  claim_left id worker until max_in_flight c (left, reclaimed) = elim (get left.items id) [
    | none ↦
        done
          (left, record { reclaimed = reclaimed; retired = none; claimed = none; missing = true })
    | some _ ↦
        claim_present id worker until max_in_flight c reclaimed (retire_if_exhausted left id c.now)
  ]

  unfoldable pub claim_item_locked :
      String
      → String
      → ℕ
      → Option ℕ
      → Clock
      → QueueItem V
      → State V
      → Outcome (State V × ItemClaim V)
  claim_item_locked id worker until max_in_flight c item s =
      reclaim_expired s item.queue_id c.now >>= claim_left id worker until max_in_flight c
