-- ===== src/Queue/Contract/Reclaiming.antt =====
-- What `reclaim_expired_leases` leaves.
use symbiotic_foundation.Base.{
  ℕ, String, true, false, ◌&&◌, Option, List, length, string_eq, get, ◌≡◌, refl, sym, ap, subst,
  Bool-cases, inl, inr,
}
use symbiotic_foundation.Core.Diagnostics.{DiagnosticCode}
use symbiotic_foundation.Queue.Types.{QueueItem}
use symbiotic_foundation.Queue.State.{State, reclaim_expired}
use symbiotic_foundation.Queue.Reply.{Reply, ok, of_outcome, MemoryQueue, ◌>>◌, pure, emit}
use symbiotic_foundation.Queue.Claim.{Clock}
use symbiotic_foundation.Queue.Backend.{reclaim_expired_leases, lease_events}
use symbiotic_foundation.Queue.Inv.Defs.{runs_in}
use symbiotic_foundation.Queue.Inv.Reclaim.{reclaim_expired_lem, ReclaimsExpired, Stays, is_over}
use symbiotic_foundation.Queue.Safe.Rules.{IsSound, locked-answers}

module _ {V : Type 0} where
  -- What `reclaim_expired_leases` leaves: it answers, and then no item of the queue runs on a lease
  -- that has run out; an item that did not run in the queue on such a lease is as it was, or had
  -- ended and is forgotten.
  pub record Clears (queue : String) (now : ℕ) (s : State V) (r : MemoryQueue V × Reply ℕ)
      : Type 0 where
    pub count : ℕ
    pub answer : r.1 ≡ ok count
    pub none_over :
        (j : String)
        → runs_in queue (get r.0.state.items j) ≡ true
        → is_over now (get r.0.state.items j) ≡ false
    pub others :
        (j : String)
        → (runs_in queue (get s.items j) && is_over now (get s.items j)) ≡ false
        → Stays s r.0.state j

  cleared :
      (queue : String) (c : Clock) (q : MemoryQueue V)
      (es : List (QueueItem V × Option DiagnosticCode)) (r : ReclaimsExpired q.state queue c.now)
      → Clears queue c.now q.state
          ((emit c.stamp es >> pure (length r.items)) (record q { state = r.last }))
  unfolding emit
  cleared queue c q es r = elim (Bool-cases q.event_sink) [
    | inl b ↦ rw b (record {
      count = length r.items;
      answer = refl;
      none_over = r.none_over;
      others = r.others;
    })
    | inr b ↦ rw b (record {
      count = length r.items;
      answer = refl;
      none_over = r.none_over;
      others = r.others;
    })
  ]

  -- On a sound queue, `reclaim_expired_leases` answers and leaves no item of the queue running on a
  -- lease that has run out, while every item that was not such a one is as it was, or had ended and
  -- is forgotten.
  pub reclaim-Clears :
      (c : Clock) (queue : String) (q : MemoryQueue V)
      → IsSound q
      → Clears queue c.now q.state (reclaim_expired_leases c queue q)
  unfolding reclaim_expired_leases
  reclaim-Clears c queue q v =
      let r = reclaim_expired_lem q.state queue c.now v.inv in
      subst (Clears queue c.now q.state)
        (sym (
          locked-answers (λ s. of_outcome (reclaim_expired s queue c.now))
            (λ items. emit c.stamp (lease_events items) >> pure (length items)) q r.last r.items
            v.unpoisoned (ap of_outcome r.returns)))
        (cleared queue c q (lease_events r.items) r)
