-- ===== src/Queue/Inv/Claims.antt =====
-- `claim` and `claim_item` under the lock.
use symbiotic_foundation.Base.{
  ℕ, suc, ◌+◌, max, String, true, Option, none, some, List, [], ◌∷◌, map, All, length,
  length-take-le, filter, string_eq, get, ◌≡◌, refl, ap, ◌≤◌, arith, Bool-cases, Option-cases, inl,
  inr,
}
use symbiotic_foundation.Base.Outcome.{done}
use symbiotic_foundation.Queue.Types.{QueueItem, ClaimRequest}
use symbiotic_foundation.Queue.State.{State, running_count}
use symbiotic_foundation.Queue.Ready.{is_ready, sort_ready, values, ready_ids}
use symbiotic_foundation.Queue.Claim.{
  Clock, Claims, cooling, claim_limit, claim_ready, claim_locked,
}
use symbiotic_foundation.Queue.Inv.Defs.{Inv}
use symbiotic_foundation.Queue.Inv.Evolves.{Evolves, unchanged, Evolves-trans, Evolves-Inv}
use symbiotic_foundation.Queue.Inv.Reclaim.{reclaim_expired_lem}
use symbiotic_foundation.Queue.Inv.Choose.{ids, chosen, chosen-All, chosen-distinct}
use symbiotic_foundation.Queue.Inv.Lease.{Stands, lease_each_lem, claimed_item}
use symbiotic_foundation.Queue.Inv.Count.{running_count-le}

pub length-map : {A B : Type 0} (f : A → B) (xs : List A) → length (map f xs) ≡ length xs
length-map f [] = refl
length-map f (x ∷ xs) = ap suc (length-map f xs)

-- How many items of a queue run, against the cap that a claim was given.
abbrev pub WithinCap : Option ℕ → ℕ → ℕ → Type 0
WithinCap none before after = Unit
WithinCap (some cap) before after = after ≤ max cap before

module _ {V : Type 0} where
  chosen-Stands :
      (s : State V) (q : String) (now : ℕ) (xs : List (QueueItem V))
      → All (λ (x : QueueItem V). (get s.items x.item_id ≡ some x) × (is_ready q now x ≡ true)) xs
      → All (Stands s) xs
  unfolding is_ready
  chosen-Stands s q now [] h = tt
  chosen-Stands s q now (x ∷ xs) h = ((h.0.0, ground (arith, h.0.1)), chosen-Stands s q now xs h.1)

  limit_le :
      (s : State V) (request : ClaimRequest) (n : ℕ)
      → n ≤ claim_limit s request
      → n ≤ max request.limit 1
  unfolding claim_limit
  limit_le s request n h = elim (Option-cases request.max_in_flight) [
    | inl a ↦ rw a at h
    | inr (cap, a) ↦ omega (arith, rw a at h)
  ]

  cap_le :
      (s : State V) (request : ClaimRequest) (n after : ℕ)
      → n ≤ claim_limit s request
      → after ≤ n + running_count s request.queue_id
      → WithinCap request.max_in_flight (running_count s request.queue_id) after
  unfolding claim_limit
  cap_le s request n after h k = elim (Option-cases request.max_in_flight) [
    | inl a ↦ rw a tt
    | inr (cap, a) ↦ rw a (omega (arith, rw a at h))
  ]

  -- A claim under the lock, from the state that reclaiming leaves.
  pub record ClaimsReady (request : ClaimRequest) (until now : ℕ) (s : State V) : Type 0 where
    pub last : State V
    pub taken : List (QueueItem V)
    pub returns :
        claim_ready request until now s
        ≡ done (last, map (λ item. claimed_item item request.worker_id until now) taken)
    pub evolves : Evolves s last
    pub were_ready :
        All
          (λ (x : QueueItem V).
            (get s.items x.item_id ≡ some x) × (is_ready request.queue_id now x ≡ true))
          taken
    pub held :
        All
          (λ (x : QueueItem V).
            get last.items x.item_id ≡ some (claimed_item x request.worker_id until now))
          taken
    pub within_limit : length taken ≤ max request.limit 1
    pub within_cap :
        WithinCap request.max_in_flight
          (running_count s request.queue_id)
          (running_count last request.queue_id)

  pub claim_ready_lem :
      (request : ClaimRequest) (until now : ℕ) (s : State V)
      → Inv s
      → ClaimsReady request until now s
  unfolding claim_ready ready_ids
  claim_ready_lem request until now s v =
      let q = request.queue_id in
      let n = claim_limit s request in
      let xs = chosen s q now n in
      let good = chosen-All s.terminal s q now n v.shaped.indexed in
      let r =
        lease_each_lem s xs request.worker_id until now v
          (chosen-distinct s.terminal s q now n v.shaped.indexed) (chosen-Stands s q now xs good) in
      let count =
        running_count-le s.terminal r.last.terminal s r.last q (ids xs) v.shaped.indexed
          (Evolves-Inv v r.evolves).shaped.indexed r.stays in
      let few = length-take-le n (sort_ready (filter (is_ready q now) (values s.items))) in
      record {
        last = r.last;
        taken = xs;
        returns = r.returns;
        evolves = r.evolves;
        were_ready = good;
        held = r.held;
        within_limit = limit_le s request (length xs) few;
        within_cap =
            cap_le s request (length xs) (running_count r.last q) few
              (rw (length-map (λ (x : QueueItem V). x.item_id) xs) at count);
      }

  -- `claim` under the lock returns; when the queue cools down it does nothing, and otherwise it
  -- reclaims and then claims.
  pub record ClaimsLocked (request : ClaimRequest) (until : ℕ) (c : Clock) (s : State V)
      : Type 0 where
    pub last : State V
    pub work : Claims V
    pub returns : claim_locked request until c s ≡ done (last, work)
    pub evolves : Evolves s last

  pub claim_locked_lem :
      (request : ClaimRequest) (until : ℕ) (c : Clock) (s : State V)
      → Inv s
      → ClaimsLocked request until c s
  unfolding claim_locked
  claim_locked_lem request until c s v =
      elim (Bool-cases (cooling s request.queue_id c.cooldown_now)) [
        | inl a ↦ record {
          last = s;
          work = record { reclaimed = []; claimed = [] };
          returns = rw a refl;
          evolves = unchanged;
        }
        | inr a ↦
            let r = reclaim_expired_lem s request.queue_id c.now v in
            let k = claim_ready_lem request until c.now r.last (Evolves-Inv v r.evolves) in
            record {
              last = k.last;
              work = record {
                reclaimed = r.items;
                claimed = map (λ item. claimed_item item request.worker_id until c.now) k.taken;
              };
              returns = rw a (rw r.returns (rw k.returns refl));
              evolves = Evolves-trans r.evolves k.evolves;
            }
      ]
