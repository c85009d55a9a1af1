-- ===== src/Queue/Inv/Lease.antt =====
-- Leasing items: it never panics, and each item leased gets the worker's lease and one attempt.
use symbiotic_foundation.Base.{
  ℕ, String, Bool, true, false, ◌&&◌, some, List, [], ◌∷◌, map, All, contains, distinct, ltb, ◌==◌,
  string_eq, str_iff, get, ◌≡◌, refl, arith, inl,
}
use symbiotic_foundation.Base.Outcome.{done}
use symbiotic_foundation.Queue.Types.{running, QueueItem}
use symbiotic_foundation.Queue.State.{State, is_waiting, leased_item, lease}
use symbiotic_foundation.Queue.Claim.{lease_each}
use symbiotic_foundation.Queue.Inv.Defs.{IsShaped, Inv, Changes}
use symbiotic_foundation.Queue.Inv.Evolves.{
  Moves, Evolves, unchanged, change, Evolves-trans, Evolves-Inv,
}
use symbiotic_foundation.Queue.Inv.Reclaim.{set_then_touch, Stays, Stays-trans}
use symbiotic_foundation.Queue.Inv.Choose.{ids}

module _ {V : Type 0} where
  -- The item as the worker gets it.
  abbrev pub claimed_item : QueueItem V → String → ℕ → ℕ → QueueItem V
  claimed_item item worker until now =
      leased_item (record item { status = running }) worker until now

  -- Waiting, with an attempt left.
  abbrev pub may_run : QueueItem V → Bool
  may_run item = is_waiting item.status && ltb item.attempt item.max_attempts

  claimed-Moves :
      (item : QueueItem V) (worker : String) (until now : ℕ)
      → may_run item ≡ true
      → Moves item (claimed_item item worker until now)
  claimed-Moves item worker until now r = ground arith

  pub lease_lem :
      (s : State V) (id worker : String) (until now : ℕ) (item : QueueItem V)
      → IsShaped s
      → get s.items id ≡ some item
      → may_run item ≡ true
      → (s' : State V) × (lease s id worker until now ≡ done s')
        × Changes s id (claimed_item item worker until now) s'
  unfolding lease
  lease_lem s id worker until now item v at r =
      set_then_touch s id item running (λ i. leased_item i worker until now) v at (ground arith)
        (record { same_id = refl; same_queue = refl; same_key = refl }) refl

  pub lease-Evolves :
      (s s' : State V) (id worker : String) (until now : ℕ) (item : QueueItem V)
      → get s.items id ≡ some item
      → may_run item ≡ true
      → Changes s id (claimed_item item worker until now) s'
      → Evolves s s'
  lease-Evolves s s' id worker until now item at r c =
      change unchanged id item _ at (claimed-Moves item worker until now r) c

  -- The outcome of leasing the chosen items one after the other.
  pub record Leases (s : State V) (items : List (QueueItem V)) (worker : String) (until now : ℕ)
      : Type 0 where
    pub last : State V
    pub returns :
        lease_each s (ids items) worker until now
        ≡ done (last, map (λ item. claimed_item item worker until now) items)
    pub evolves : Evolves s last
    pub stays : (j : String) → contains j (ids items) ≡ false → Stays s last j
    pub held :
        All
          (λ (item : QueueItem V).
            get last.items item.item_id ≡ some (claimed_item item worker until now))
          items

  -- What is known of an item before it is leased.
  abbrev pub Stands : State V → QueueItem V → Type 0
  Stands s item = (get s.items item.item_id ≡ some item) × (may_run item ≡ true)

  Stands-after :
      (s t : State V) (id : String) (items : List (QueueItem V))
      → ((j : String) → (id == j) ≡ false → Stays s t j)
      → contains id (ids items) ≡ false
      → All (Stands s) items
      → All (Stands t) items
  Stands-after s t id [] c n h = tt
  Stands-after s t id (x ∷ xs) c n h = (
    (ground (arith, c x.item_id, str_iff id x.item_id, str_iff x.item_id id), h.0.1),
    Stands-after s t id xs c (ground arith) h.1,
  )

  lease_more :
      (s t : State V) (x : QueueItem V) (xs : List (QueueItem V)) (worker : String) (until now : ℕ)
      → Stands s x
      → contains x.item_id (ids xs) ≡ false
      → lease s x.item_id worker until now ≡ done t
      → Changes s x.item_id (claimed_item x worker until now) t
      → Leases t xs worker until now
      → Leases s (x ∷ xs) worker until now
  unfolding lease_each
  lease_more s t x xs worker until now st n e c more = record {
    last = more.last;
    returns = rw (e, lease_each) (rw c.self (rw more.returns refl));
    evolves =
        Evolves-trans (lease-Evolves s t x.item_id worker until now x st.0 st.1 c) more.evolves;
    stays =
        λ j m. Stays-trans s t more.last j (c.other j (ground arith)) (more.stays j (ground arith));
    held = (ground (arith, c.self, more.stays x.item_id n), more.held);
  }

  pub lease_each_lem :
      (s : State V) (items : List (QueueItem V)) (worker : String) (until now : ℕ)
      → Inv s
      → distinct (ids items) ≡ true
      → All (Stands s) items
      → Leases s items worker until now
  unfolding lease_each
  lease_each_lem s [] worker until now v d h = record {
    last = s;
    returns = refl;
    evolves = unchanged;
    stays = λ j m. inl refl;
    held = tt;
  }
  lease_each_lem s (x ∷ xs) worker until now v d h =
      let (t, e, c) = lease_lem s x.item_id worker until now x v.shaped h.0.0 h.0.1 in
      let n : contains x.item_id (ids xs) ≡ false = ground arith in
      let w : Inv t =
        Evolves-Inv v (lease-Evolves s t x.item_id worker until now x h.0.0 h.0.1 c) in
      lease_more s t x xs worker until now h.0 n e c (
        lease_each_lem t xs worker until now w (ground arith)
          (Stands-after s t x.item_id xs c.other n h.1))
