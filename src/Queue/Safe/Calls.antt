-- ===== src/Queue/Safe/Calls.antt =====
-- Each call of `QueueBackend` on a sound queue.
use symbiotic_foundation.Base.{
  ℕ, String, Bool, true, false, Option, none, some, ◌++◌, length, if◌then◌else◌, is_blank, get,
  string_eq, ◌≡◌, refl, arith, Bool-cases, Option-cases, inl, inr, ◌⊎◌, sym, subst,
}
use symbiotic_foundation.Base.Int.{ℤ}
use symbiotic_foundation.Core.Diagnostics.{invalid_configuration}
use symbiotic_foundation.Queue.Types.{
  QueueItem, QueueError, not_found, EnqueueRequest, EnqueueOutcome, ClaimRequest,
}
use symbiotic_foundation.Queue.State.{State, reclaim_expired}
use symbiotic_foundation.Queue.Reply.{
  Reply, ok, err, of_outcome, MemoryQueue, pure, refuse, locked, emit,
}
use symbiotic_foundation.Queue.Enqueue.{enqueue_locked, new_item}
use symbiotic_foundation.Queue.Claim.{Clock, lease_deadline, claim_locked}
use symbiotic_foundation.Queue.Running.{fence, update_running}
use symbiotic_foundation.Queue.Backend.{
  enqueue_inner, claim, claim_item, get_item, reclaim_expired_leases, cooldown_until, note_cooldown,
  announce, claim_found, lease_events, claim_events, retired_events, to_list,
}
use symbiotic_foundation.Queue.Inv.Defs.{Inv}
use symbiotic_foundation.Queue.Inv.Evolves.{Evolves, unchanged, change, Evolves-Inv}
use symbiotic_foundation.Queue.Inv.Reclaim.{reclaim_expired_lem}
use symbiotic_foundation.Queue.Inv.Claims.{claim_locked_lem}
use symbiotic_foundation.Queue.Inv.ClaimItem.{claim_item_lem}
use symbiotic_foundation.Queue.Inv.Update.{Updates}
use symbiotic_foundation.Queue.Inv.Enqueues.{Refused, Added, enqueue_locked_lem}
use symbiotic_foundation.Queue.Safe.Rules.{
  IsSound, moves, adds, cools, Fine, Works, IsQuiet, pure-IsQuiet, refuse-IsQuiet, stay,
  locked-Fine, then-Fine, report-IsQuiet,
}

module _ {V : Type 0} where
  announce-IsQuiet :
      (c : Clock) (o : EnqueueOutcome V) (q : MemoryQueue V) → IsQuiet q (announce c o q)
  unfolding emit
  announce-IsQuiet c o q = ground arith

  pub enqueue_inner-Fine :
      (c : Clock) (id : String) (request : EnqueueRequest V) (replacing : Option String)
      (q : MemoryQueue V)
      → IsSound q
      → get q.state.items id ≡ none
      → Fine q.state (enqueue_inner c id request replacing q)
  unfolding enqueue_inner
  enqueue_inner-Fine c id request replacing q v fresh = elim (Bool-cases (is_blank request.kind)) [
    | inl b ↦ rw b (stay q _ v (refuse-IsQuiet _ q))
    | inr b ↦ rw b (
        then-Fine q.state (locked (λ s. ok (enqueue_locked request replacing id c.now s)))
          (announce c) q
          (locked-Fine _ q v
            (enqueue_works (enqueue_locked_lem request replacing id c.now q.state v.inv fresh)))
          (announce-IsQuiet c))
  ]
    where
      enqueue_works :
          Refused request replacing id c.now q.state ⊎ Added request replacing id c.now q.state
          → Works q.state (ok (enqueue_locked request replacing id c.now q.state))
      enqueue_works (inl r) = rw r.returns (v.inv, moves unchanged)
      enqueue_works (inr a) =
          rw a.returns
            (a.adds.inv, adds a.middle (new_item request id c.now) fresh a.evolves a.adds)

  pub note_cooldown-Fine :
      (queue : String) (until : ℕ) (q : MemoryQueue V)
      → IsSound q
      → Fine q.state (note_cooldown queue until q)
  unfolding note_cooldown
  note_cooldown-Fine queue until q v = locked-Fine _ q v (
    record {
      shaped = record {
        indexed = record {
          once = v.inv.shaped.indexed.once;
          named = v.inv.shaped.indexed.named;
          runs = v.inv.shaped.indexed.runs;
          runs_once = v.inv.shaped.indexed.runs_once;
          ended = v.inv.shaped.indexed.ended;
          ended_once = v.inv.shaped.indexed.ended_once;
          keyed = v.inv.shaped.indexed.keyed;
        };
        bounded = v.inv.shaped.bounded;
        retains = v.inv.shaped.retains;
      };
      leased = v.inv.leased;
    },
    cools _ refl,
  )

  pub get_item-Fine : (id : String) (q : MemoryQueue V) → IsSound q → Fine q.state (get_item id q)
  unfolding get_item
  get_item-Fine id q v = locked-Fine _ q v (v.inv, moves unchanged)

  pub cooldown_until-Fine :
      (queue : String) (q : MemoryQueue V) → IsSound q → Fine q.state (cooldown_until queue q)
  unfolding cooldown_until
  cooldown_until-Fine queue q v = locked-Fine _ q v (v.inv, moves unchanged)

  pub reclaim-Fine :
      (c : Clock) (queue : String) (q : MemoryQueue V)
      → IsSound q
      → Fine q.state (reclaim_expired_leases c queue q)
  unfolding reclaim_expired_leases
  reclaim-Fine c queue q v =
      let r = reclaim_expired_lem q.state queue c.now v.inv in
      then-Fine q.state (locked (λ s. of_outcome (reclaim_expired s queue c.now))) _ q
        (locked-Fine _ q v (rw r.returns (Evolves-Inv v.inv r.evolves, moves r.evolves)))
        (λ items q'.
          report-IsQuiet c.stamp (lease_events items) (pure (length items)) q'
            (pure-IsQuiet (length items)))

  pub claim-Fine :
      (add : ℕ → ℤ → Option ℕ) (c : Clock) (request : ClaimRequest) (q : MemoryQueue V)
      → IsSound q
      → Fine q.state (claim add c request q)
  unfolding claim
  claim-Fine add c request q v = elim (Bool-cases (is_blank request.worker_id)) [
    | inl b ↦ rw b (stay q _ v (refuse-IsQuiet _ q))
    | inr b ↦ elim (Option-cases (lease_deadline add c.now request.lease_seconds)) [
      | inl d ↦ rw b (rw d (stay q _ v (refuse-IsQuiet _ q)))
      | inr (until, d) ↦
          let r = claim_locked_lem request until c q.state v.inv in
          rw b (
            rw d (
              then-Fine q.state (locked (λ s. of_outcome (claim_locked request until c s))) _ q
                (locked-Fine _ q v (rw r.returns (Evolves-Inv v.inv r.evolves, moves r.evolves)))
                (λ work q'.
                  report-IsQuiet c.stamp (lease_events work.reclaimed ++ claim_events work.claimed)
                    (pure work.claimed) q' (pure-IsQuiet work.claimed))))
    ]
  ]

  answer-IsQuiet :
      (missing : Bool) (a : Option (QueueItem V)) (q : MemoryQueue V)
      → IsQuiet q ((if missing then refuse (not_found invalid_configuration) else pure a) q)
  answer-IsQuiet true a q = refuse-IsQuiet (not_found invalid_configuration) q
  answer-IsQuiet false a q = pure-IsQuiet a q

  claim_found-Works :
      (id worker : String) (until : ℕ) (cap : Option ℕ) (c : Clock) (s : State V)
      (o : Option (QueueItem V))
      → Inv s
      → Works s (claim_found id worker until cap c s o)
  claim_found-Works id worker until cap c s none v = tt
  claim_found-Works id worker until cap c s (some item) v =
      let r = claim_item_lem id worker until cap c item s v in
      rw r.returns (Evolves-Inv v r.evolves, moves r.evolves)

  pub claim_item-Fine :
      (add : ℕ → ℤ → Option ℕ) (c : Clock) (id worker : String) (seconds : ℕ) (cap : Option ℕ)
      (q : MemoryQueue V)
      → IsSound q
      → Fine q.state (claim_item add c id worker seconds cap q)
  unfolding claim_item
  claim_item-Fine add c id worker seconds cap q v = elim (Bool-cases (is_blank worker)) [
    | inl b ↦ rw b (stay q _ v (refuse-IsQuiet _ q))
    | inr b ↦ elim (Option-cases (lease_deadline add c.now seconds)) [
      | inl d ↦ rw b (rw d (stay q _ v (refuse-IsQuiet _ q)))
      | inr (until, d) ↦ rw b (
          rw d (
            then-Fine q.state (locked (λ s. claim_found id worker until cap c s (get s.items id))) _
              q
              (locked-Fine _ q v
                (claim_found-Works id worker until cap c q.state (get q.state.items id) v.inv))
              (λ work q'.
                report-IsQuiet c.stamp
                  (lease_events work.reclaimed
                    ++ (retired_events work.retired ++ claim_events (to_list work.claimed)))
                  (if work.missing
                    then refuse (not_found invalid_configuration)
                    else pure work.claimed)
                  q' (answer-IsQuiet work.missing work.claimed))))
    ]
  ]

  -- A fenced update is refused without a change, or makes the move that its lemma gives.
  pub update-Works :
      (id worker : String) (now : ℕ) (update : QueueItem V → State V → Reply (State V))
      (s : State V)
      → Inv s
      → ((item : QueueItem V)
          → get s.items id ≡ some item
          → fence item worker now ≡ none
          → ((new : QueueItem V) × Updates id worker now update s item new)
            ⊎ ((e : QueueError) × (update item s ≡ err e)))
      → Works s (update_running id worker now update s)
  unfolding update_running
  update-Works id worker now update s v k = elim (Option-cases (get s.items id)) [
    | inl a ↦ rw (a, update_running) tt
    | inr (item, a) ↦ elim (Option-cases (fence item worker now)) [
      | inr (e, f) ↦ rw (a, update_running) (rw f tt)
      | inl f ↦ elim (k item a f) [
        | inl (new, u) ↦
            let ev : Evolves s u.last = change unchanged id item new a u.moves u.changes in
            subst (Works s) (sym u.returns) (Evolves-Inv v ev, moves ev)
        | inr (e, b) ↦ rw (a, update_running) (rw f (rw b tt))
      ]
    ]
  ]
