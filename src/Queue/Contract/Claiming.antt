-- ===== src/Queue/Contract/Claiming.antt =====
-- What `claim` hands out, and what the worker that got an item can do with it.
use symbiotic_foundation.Base.{
  ℕ, true, false, Option, some, List, [], ◌∷◌, ◌++◌, map, max, length, get_elem?, All, zero, suc,
  string_eq, str_iff, str_refl, get, is_blank, ◌≡◌, refl, sym, ap, subst, ◌∙◌, ◌≤◌, arith,
  Bool-cases, inl, inr,
}
use symbiotic_foundation.Base.Int.{ℤ}
use symbiotic_foundation.Base.Outcome.{done}
use symbiotic_foundation.Core.Diagnostics.{DiagnosticCode}
use symbiotic_foundation.Queue.Types.{QueueItem, ClaimRequest, succeeded}
use symbiotic_foundation.Queue.State.{State, is_running, running_count, reclaim_expired}
use symbiotic_foundation.Queue.Reply.{Reply, ok, of_outcome, MemoryQueue, ◌>>◌, pure, emit}
use symbiotic_foundation.Queue.Ready.{is_ready}
use symbiotic_foundation.Queue.Claim.{Clock, lease_deadline, cooling, claim_locked}
use symbiotic_foundation.Queue.Running.{completed_item}
use symbiotic_foundation.Queue.Backend.{claim, complete, lease_events, claim_events}
use symbiotic_foundation.Queue.Inv.Evolves.{Evolves-Inv}
use symbiotic_foundation.Queue.Inv.Lease.{claimed_item}
use symbiotic_foundation.Queue.Inv.Reclaim.{reclaim_expired_lem}
use symbiotic_foundation.Queue.Inv.Claims.{WithinCap, claim_ready_lem, length-map}
use symbiotic_foundation.Queue.Safe.Rules.{IsSound, locked-answers}
use symbiotic_foundation.Queue.Safe.Calls.{claim-Fine}
use symbiotic_foundation.Queue.Contract.Settling.{Settles, holds_lease, complete-held}

module _ {V : Type 0} where
  -- `got` is as the claim left it: it stands in the state and runs for the worker until the deadline,
  -- belongs to the queue asked for, was due, and has used one attempt more, of those that it has.
  pub record IsClaimed (request : ClaimRequest) (until now : ℕ) (s : State V) (got : QueueItem V)
      : Type 0 where
    pub stored : get s.items got.item_id ≡ some got
    pub runs : is_running got.status ≡ true
    pub owner : got.lease_owner ≡ some request.worker_id
    pub deadline : got.lease_until ≡ some until
    pub queue : got.queue_id ≡ request.queue_id
    pub due : got.run_after ≤ now
    pub budget : (1 ≤ got.attempt) × (got.attempt ≤ got.max_attempts)

  -- A claim that does not wait for a cooldown: it first reclaims the expired leases of the queue, and
  -- hands out what it leases from the state that this leaves.
  pub record Hands (request : ClaimRequest) (until : ℕ) (c : Clock) (s : State V)
      (r : MemoryQueue V × Reply (List (QueueItem V))) : Type 0 where
    pub middle : State V
    pub expired : List (QueueItem V)
    pub reclaims : reclaim_expired s request.queue_id c.now ≡ done (middle, expired)
    pub items : List (QueueItem V)
    pub answer : r.1 ≡ ok items
    pub claimed : All (IsClaimed request until c.now r.0.state) items
    pub within_limit : length items ≤ max request.limit 1
    pub within_cap :
        WithinCap request.max_in_flight
          (running_count middle request.queue_id)
          (running_count r.0.state request.queue_id)

  all_claimed :
      (request : ClaimRequest) (until now : ℕ) (s t : State V) (taken : List (QueueItem V))
      → All
          (λ (x : QueueItem V).
            (get s.items x.item_id ≡ some x) × (is_ready request.queue_id now x ≡ true))
          taken
      → All
          (λ (x : QueueItem V).
            get t.items x.item_id ≡ some (claimed_item x request.worker_id until now))
          taken
      → All
          (IsClaimed request until now t)
          (map (λ item. claimed_item item request.worker_id until now) taken)
  unfolding is_ready
  all_claimed request until now s t [] h k = tt
  all_claimed request until now s t (x ∷ xs) h k = (
    record {
      stored = k.0;
      runs = refl;
      owner = refl;
      deadline = refl;
      queue = ground (arith, h.0.1, str_iff x.queue_id request.queue_id);
      due = ground (arith, h.0.1);
      budget = ground (arith, h.0.1);
    },
    all_claimed request until now s t xs h.1 k.1,
  )

  handed :
      (request : ClaimRequest) (until : ℕ) (c : Clock) (s t : State V) (q : MemoryQueue V)
      (es : List (QueueItem V × Option DiagnosticCode)) (items expired : List (QueueItem V))
      (middle : State V)
      → reclaim_expired s request.queue_id c.now ≡ done (middle, expired)
      → All (IsClaimed request until c.now q.state) items
      → length items ≤ max request.limit 1
      → WithinCap request.max_in_flight
          (running_count middle request.queue_id)
          (running_count q.state request.queue_id)
      → Hands request until c s ((emit c.stamp es >> pure items) q)
  unfolding emit
  handed request until c s t q es items expired middle e a l w = elim (Bool-cases q.event_sink) [
    | inl b ↦ simp b (record {
      middle = middle;
      expired = expired;
      reclaims = e;
      items = items;
      answer = refl;
      claimed = a;
      within_limit = l;
      within_cap = w;
    })
    | inr b ↦ simp b (record {
      middle = middle;
      expired = expired;
      reclaims = e;
      items = items;
      answer = refl;
      claimed = a;
      within_limit = l;
      within_cap = w;
    })
  ]

  -- On a sound queue that does not cool down, `claim` by a named worker with a deadline that chrono
  -- can express answers with items that now run for that worker until the deadline: all of the queue
  -- asked for, due, and within their attempts; at most `limit` of them, or one when `limit` is zero;
  -- and no more items of the queue run than the cap allows, or than ran once
  -- the expired leases of the queue were reclaimed.
  pub claim-Hands :
      (add : ℕ → ℤ → Option ℕ) (c : Clock) (request : ClaimRequest) (until : ℕ) (q : MemoryQueue V)
      → IsSound q
      → is_blank request.worker_id ≡ false
      → lease_deadline add c.now request.lease_seconds ≡ some until
      → cooling q.state request.queue_id c.cooldown_now ≡ false
      → Hands request until c q.state (claim add c request q)
  unfolding claim claim_locked
  claim-Hands add c request until q v b d f =
      let r = reclaim_expired_lem q.state request.queue_id c.now v.inv in
      let k = claim_ready_lem request until c.now r.last (Evolves-Inv v.inv r.evolves) in
      let items = map (λ item. claimed_item item request.worker_id until c.now) k.taken in
      rw b (
        rw d (
          subst (Hands request until c q.state)
            (sym (
              locked-answers (λ s. of_outcome (claim_locked request until c s))
                (λ work.
                  emit c.stamp (lease_events work.reclaimed ++ claim_events work.claimed)
                  >> pure work.claimed)
                q k.last (record { reclaimed = r.items; claimed = items }) v.unpoisoned
                (rw (f, claim_locked) (rw r.returns (rw k.returns refl)))))
            (handed request until c q.state k.last (record q { state = k.last })
              (lease_events r.items ++ claim_events items) items r.items r.last r.returns
              (all_claimed request until c.now r.last k.last k.taken k.were_ready k.held)
              (rw
                (length-map
                  (λ (item : QueueItem V). claimed_item item request.worker_id until c.now) k.taken)
                k.within_limit)
              k.within_cap)))

  at_index :
      (P : QueueItem V → Type 0) (xs : List (QueueItem V)) (i : ℕ) (x : QueueItem V)
      → All P xs
      → get_elem? xs i ≡ some x
      → P x
  at_index P [] i x h e = absurd (cc (e))
  at_index P (y ∷ ys) zero x h e = subst P (ground (arith, e)) h.0
  at_index P (y ∷ ys) (suc i) x h e = at_index P ys i x h.1 e

  claimed-holds :
      (request : ClaimRequest) (until now later : ℕ) (s : State V) (got : QueueItem V)
      → IsClaimed request until now s got
      → later ≤ until
      → holds_lease (get s.items got.item_id) request.worker_id later ≡ true
  claimed-holds request until now later s got k l =
      ground (arith, k.stored, k.runs, k.owner, k.deadline, str_refl request.worker_id)

  -- On a sound queue that does not cool down, each item that `claim` answers with is completed by the
  -- worker that claimed it, when that worker calls `complete` next and not after the deadline of the
  -- lease: the item has then succeeded.
  pub claim-complete :
      (add : ℕ → ℤ → Option ℕ) (c later : Clock) (request : ClaimRequest) (until i : ℕ)
      (items : List (QueueItem V)) (got : QueueItem V) (q : MemoryQueue V)
      → IsSound q
      → is_blank request.worker_id ≡ false
      → lease_deadline add c.now request.lease_seconds ≡ some until
      → cooling q.state request.queue_id c.cooldown_now ≡ false
      → (claim add c request q).1 ≡ ok items
      → get_elem? items i ≡ some got
      → later.now ≤ until
      → Settles
          (claim add c request q).0
          got.item_id
          (record (completed_item got later.now) { status = succeeded })
          tt
          (complete later got.item_id request.worker_id (claim add c request q).0)
  claim-complete add c later request until i items got q v b d f a g l =
      let h = claim-Hands add c request until q v b d f in
      let same : h.items ≡ items = cc (h.answer, a) in
      let k =
        at_index (IsClaimed request until c.now (claim add c request q).0.state) h.items i got
          h.claimed (ap (λ (xs : List (QueueItem V)). get_elem? xs i) same ∙ g) in
      complete-held later got.item_id request.worker_id (claim add c request q).0 got
        (claim-Fine add c request q v).sound k.stored
        (claimed-holds request until c.now later.now _ got k l)
