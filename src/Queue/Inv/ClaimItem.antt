-- ===== src/Queue/Inv/ClaimItem.antt =====
-- `claim_item` under the lock: reclaiming, retiring, and the lease of one item.
use symbiotic_foundation.Base.{
  ℕ, String, Bool, true, false, not, ◌&&◌, Option, none, some, List, ltb, string_eq, if◌then◌else◌,
  get, get_or, ◌≡◌, refl, arith, Bool-cases, Option-cases, inl, inr,
}
use symbiotic_foundation.Base.Outcome.{done}
use symbiotic_foundation.Queue.Types.{dead, QueueItem}
use symbiotic_foundation.Queue.State.{
  State, is_waiting, exhausted_item, retire_if_exhausted, set_status,
}
use symbiotic_foundation.Queue.Claim.{
  Clock, ItemClaim, claimable, lease_claimed, claim_present, claim_left, claim_item_locked,
}
use symbiotic_foundation.Queue.Inv.Defs.{Inv, IsShaped}
use symbiotic_foundation.Queue.Inv.Changes.{touch}
use symbiotic_foundation.Queue.Inv.Evolves.{
  Moves, Evolves, unchanged, change, Evolves-trans, Evolves-Inv,
}
use symbiotic_foundation.Queue.Inv.Reclaim.{reclaim_expired_lem, touch_then_set}
use symbiotic_foundation.Queue.Inv.Lease.{lease_lem, lease-Evolves, may_run, claimed_item}

module _ {V : Type 0} where
  abbrev pub retired_item : QueueItem V → ℕ → QueueItem V
  retired_item item now = record (exhausted_item item now) { status = dead }

  -- A waiting item with no attempt left.
  abbrev pub is_spent : QueueItem V → Bool
  is_spent item = is_waiting item.status && not (ltb item.attempt item.max_attempts)

  -- The item that retiring leaves: dead if it was spent, else as it was.
  abbrev pub left_item : QueueItem V → ℕ → QueueItem V
  left_item item now = if is_spent item then retired_item item now else item

  pub record Retires (s : State V) (id : String) (now : ℕ) (item : QueueItem V) : Type 0 where
    pub last : State V
    pub returns :
        retire_if_exhausted s id now
        ≡ (last, if is_spent item then some (retired_item item now) else none)
    pub evolves : Evolves s last
    pub stands : get last.items id ≡ some (left_item item now)

  retired-Moves :
      (item : QueueItem V) (now : ℕ) → is_spent item ≡ true → Moves item (retired_item item now)
  retired-Moves item now h = ground arith

  retire_spent :
      (s : State V) (id : String) (now : ℕ) (item : QueueItem V)
      → IsShaped s
      → get s.items id ≡ some item
      → is_spent item ≡ true
      → Retires s id now item
  unfolding retire_if_exhausted
  retire_spent s id now item v at h =
      let c =
        touch_then_set s id item dead (λ i. exhausted_item i now) v at (ground arith)
          (record { same_id = refl; same_queue = refl; same_key = refl }) refl in
      record {
        last = set_status (touch s id (λ i. exhausted_item i now)) id dead;
        returns = ground (arith, c.self);
        evolves = change unchanged id item _ at (retired-Moves item now h) c;
        stands = rw h c.self;
      }

  pub retire_lem :
      (s : State V) (id : String) (now : ℕ) (item : QueueItem V)
      → IsShaped s
      → get s.items id ≡ some item
      → Retires s id now item
  unfolding retire_if_exhausted
  retire_lem s id now item v at = elim (Bool-cases (is_spent item)) [
    | inl h ↦ retire_spent s id now item v at h
    | inr h ↦ record { last = s; returns = ground arith; evolves = unchanged; stands = rw h at }
  ]

  left-may_run :
      (s : State V) (item : QueueItem V) (cap : Option ℕ) (c : Clock)
      → claimable s (left_item item c.now) cap c ≡ true
      → may_run (left_item item c.now) ≡ true
  unfolding claimable
  left-may_run s item cap c h = ground arith

  -- What `claim_item` does to an item that is there.
  pub record ClaimsPresent (id worker : String) (until : ℕ) (cap : Option ℕ) (c : Clock)
      (reclaimed : List (QueueItem V)) (s : State V) (item : QueueItem V) : Type 0 where
    pub last : State V
    pub work : ItemClaim V
    pub returns :
        claim_present id worker until cap c reclaimed (retire_if_exhausted s id c.now)
        ≡ done (last, work)
    pub evolves : Evolves s last
    pub answers : work.missing ≡ false
    pub stands : get last.items id ≡ some (get_or work.claimed (left_item item c.now))
    pub leases :
        (got : QueueItem V)
        → work.claimed ≡ some got
        → (got ≡ claimed_item (left_item item c.now) worker until c.now)
          × (may_run (left_item item c.now) ≡ true)

  pub claim_present_lem :
      (id worker : String) (until : ℕ) (cap : Option ℕ) (c : Clock) (reclaimed : List (QueueItem V))
      (s : State V) (item : QueueItem V)
      → Inv s
      → get s.items id ≡ some item
      → ClaimsPresent id worker until cap c reclaimed s item
  unfolding claim_present lease_claimed
  claim_present_lem id worker until cap c reclaimed s item v at =
      let r = retire_lem s id c.now item v.shaped at in
      elim (Bool-cases (claimable r.last (left_item item c.now) cap c)) [
        | inl a ↦
            let m = left-may_run r.last item cap c a in
            let (t, e, ch) =
              lease_lem r.last id worker until c.now _ (Evolves-Inv v r.evolves).shaped r.stands
                m in
            record {
              last = t;
              work = record {
                reclaimed = reclaimed;
                retired = if is_spent item then some (retired_item item c.now) else none;
                claimed = some (claimed_item (left_item item c.now) worker until c.now);
                missing = false;
              };
              returns = rw r.returns (rw r.stands (rw a (rw e (rw ch.self refl))));
              evolves =
                  Evolves-trans r.evolves
                    (lease-Evolves r.last t id worker until c.now _ r.stands m ch);
              answers = refl;
              stands = ch.self;
              leases = λ got h. (ground (arith, h), m);
            }
        | inr a ↦ record {
          last = r.last;
          work = record {
            reclaimed = reclaimed;
            retired = if is_spent item then some (retired_item item c.now) else none;
            claimed = none;
            missing = false;
          };
          returns = rw r.returns (rw r.stands (rw a refl));
          evolves = r.evolves;
          answers = refl;
          stands = r.stands;
          leases = λ got h. cc;
        }
      ]

  -- `claim_item` under the lock returns. The item is missing afterwards only if it had ended.
  pub record ClaimsItem (id worker : String) (until : ℕ) (cap : Option ℕ) (c : Clock)
      (item : QueueItem V) (s : State V) : Type 0 where
    pub last : State V
    pub work : ItemClaim V
    pub returns : claim_item_locked id worker until cap c item s ≡ done (last, work)
    pub evolves : Evolves s last

  pub claim_item_lem :
      (id worker : String) (until : ℕ) (cap : Option ℕ) (c : Clock) (item : QueueItem V)
      (s : State V)
      → Inv s
      → ClaimsItem id worker until cap c item s
  unfolding claim_item_locked claim_left
  claim_item_lem id worker until cap c item s v =
      let r = reclaim_expired_lem s item.queue_id c.now v in
      elim (Option-cases (get r.last.items id)) [
        | inl a ↦ record {
          last = r.last;
          work = record { reclaimed = r.items; retired = none; claimed = none; missing = true };
          returns = rw r.returns (rw (a, claim_left) refl);
          evolves = r.evolves;
        }
        | inr (left, a) ↦
            let k =
              claim_present_lem id worker until cap c r.items r.last left (Evolves-Inv v r.evolves)
                a in
            record {
              last = k.last;
              work = k.work;
              returns = rw r.returns (rw (a, claim_left) k.returns);
              evolves = Evolves-trans r.evolves k.evolves;
            }
      ]
