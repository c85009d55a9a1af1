-- ===== src/Queue/Inv/Reclaim.antt =====
-- Reclaiming expired leases: it never panics on a well-formed state, and moves exactly the expired
-- items.
use symbiotic_foundation.Base.{
  ℕ, String, Bool, true, false, ◌&&◌, Option, none, some, List, [], ◌∷◌, contains, distinct, length,
  ap, suc, string_eq, str_iff, if◌then◌else◌, get, ◌≡◌, refl, arith, Bool-cases, Option-cases, inl,
  inr, ◌⊎◌,
}
use symbiotic_foundation.Base.Outcome.{done}
use symbiotic_foundation.Queue.Types.{QueueStatus, QueueItem}
use symbiotic_foundation.Queue.State.{
  State, is_running, is_terminal, running_set, set_status, update_item, lease_over, expired_ids,
  expired_item, expired_status, reclaim_one, reclaim_each, reclaim_expired,
}
use symbiotic_foundation.Queue.Inv.Defs.{runs_in, is_ended, IsShaped, Inv, IsSame, Changes}
use symbiotic_foundation.Queue.Inv.Changes.{
  set_status-Changes, touch, touch-Changes, Changes-trans, update_item-done,
}
use symbiotic_foundation.Queue.Inv.Evolves.{
  Moves, Evolves, unchanged, change, Evolves-trans, Evolves-Inv,
}

module _ {V : Type 0} where
  -- A change of status followed by an update of the other fields.
  pub set_then_touch :
      (s : State V) (id : String) (item : QueueItem V) (status : QueueStatus)
      (f : QueueItem V → QueueItem V)
      → IsShaped s
      → get s.items id ≡ some item
      → is_terminal item.status ≡ false
      → IsSame (record item { status = status }) (f (record item { status = status }))
      → (f (record item { status = status })).status ≡ status
      → (s' : State V) × (update_item (set_status s id status) id f ≡ done s')
        × Changes s id (f (record item { status = status })) s'
  set_then_touch s id item status f v at live k e =
      let c = set_status-Changes s id item status v at live in
      (
        touch (set_status s id status) id f,
        update_item-done (set_status s id status) id f _ c.self,
        Changes-trans s (set_status s id status) _ id _ _ c
            (touch-Changes (set_status s id status) id f _ c.shaped c.self k e),
      )

  -- An update of the other fields followed by a change of status.
  pub touch_then_set :
      (s : State V) (id : String) (item : QueueItem V) (status : QueueStatus)
      (f : QueueItem V → QueueItem V)
      → IsShaped s
      → get s.items id ≡ some item
      → is_terminal item.status ≡ false
      → IsSame item (f item)
      → (f item).status ≡ item.status
      → Changes s id (record (f item) { status = status }) (set_status (touch s id f) id status)
  touch_then_set s id item status f v at live k e =
      let c = touch-Changes s id f item v at k e in
      Changes-trans s (touch s id f) _ id _ _ c
        (set_status-Changes (touch s id f) id (f item) status c.shaped c.self (rw e live))

  abbrev pub reclaimed_item : QueueItem V → ℕ → QueueItem V
  reclaimed_item item now = expired_item (record item { status = expired_status item }) now

  reclaimed-Moves :
      (item : QueueItem V) (now : ℕ)
      → is_running item.status ≡ true
      → Moves item (reclaimed_item item now)
  reclaimed-Moves item now r = ground arith

  pub reclaim_one_lem :
      (s : State V) (now : ℕ) (id : String) (item : QueueItem V)
      → IsShaped s
      → get s.items id ≡ some item
      → is_running item.status ≡ true
      → (s' : State V) × (reclaim_one s now id ≡ done s')
        × Changes s id (reclaimed_item item now) s'
  unfolding reclaim_one
  reclaim_one_lem s now id item v at r =
      let (s', e, c) =
        set_then_touch s id item (expired_status item) (λ i. expired_item i now) v at (ground arith)
          (record { same_id = refl; same_queue = refl; same_key = refl }) refl in
      (s', rw (at, reclaim_one) e, c)

  -- Whether the item's lease has run out.
  abbrev pub is_over : ℕ → Option (QueueItem V) → Bool
  is_over now none = false
  is_over now (some item) = lease_over item now

  pub expired_ids_lem :
      (s : State V) (now : ℕ) (q : String) (ids : List String)
      → ((j : String) → contains j ids ≡ true → runs_in q (get s.items j) ≡ true)
      → distinct ids ≡ true
      → (out : List String) × (expired_ids s now ids ≡ done out)
        × ((j : String) → contains j out ≡ (contains j ids && is_over now (get s.items j)))
        × (distinct out ≡ true)
  unfolding expired_ids
  expired_ids_lem s now q [] h d = ([], refl, λ j. refl, refl)
  expired_ids_lem s now q (id ∷ ids) h d =
      let (out, e, c, u) = expired_ids_lem s now q ids (λ j m. h j (ground arith)) (ground arith) in
      elim (Option-cases (get s.items id)) [
        | inl a ↦ absurd (ground (arith, h id, str_iff id id))
        | inr (item, a) ↦ (
          if lease_over item now then id ∷ out else out,
          rw (a, expired_ids) (rw (e, expired_ids) refl),
          λ j. ground (arith, c j, str_iff id j),
          ground (arith, c id),
        )
      ]

  abbrev pub runs : Option (QueueItem V) → Bool
  runs none = false
  runs (some item) = is_running item.status

  -- Item `j` is as it was, or it had ended and is forgotten.
  abbrev pub Stays : State V → State V → String → Type 0
  Stays s t j =
      (get t.items j ≡ get s.items j) ⊎ ((get t.items j ≡ none) × (is_ended (get s.items j) ≡ true))

  pub Stays-trans : (s t u : State V) (j : String) → Stays s t j → Stays t u j → Stays s u j
  Stays-trans s t u j a b = ground arith

  pub Stays-runs :
      (s t : State V) (j : String)
      → Stays s t j
      → runs (get s.items j) ≡ true
      → runs (get t.items j) ≡ true
  Stays-runs s t j a b = ground arith

  Stays-idle :
      (s t : State V) (j : String)
      → Stays s t j
      → runs (get s.items j) ≡ false
      → runs (get t.items j) ≡ false
  Stays-idle s t j a b = ground arith

  -- The outcome of reclaiming the running items `ids` one after the other.
  pub record Reclaims (s : State V) (now : ℕ) (ids : List String) : Type 0 where
    pub last : State V
    pub items : List (QueueItem V)
    pub returns : reclaim_each s now ids ≡ done (last, items)
    pub evolves : Evolves s last
    pub count : length items ≡ length ids
    pub stays : (j : String) → contains j ids ≡ false → Stays s last j
    pub idle : (j : String) → contains j ids ≡ true → runs (get last.items j) ≡ false

  reclaim_more :
      (s t : State V) (now : ℕ) (id : String) (ids : List String) (item : QueueItem V)
      → get s.items id ≡ some item
      → is_running item.status ≡ true
      → contains id ids ≡ false
      → reclaim_one s now id ≡ done t
      → Changes s id (reclaimed_item item now) t
      → Reclaims t now ids
      → Reclaims s now (id ∷ ids)
  unfolding reclaim_each
  reclaim_more s t now id ids item at r once e c more = record {
    last = more.last;
    items = reclaimed_item item now ∷ more.items;
    returns = rw (e, reclaim_each) (rw c.self (rw more.returns refl));
    evolves =
        Evolves-trans
          (change unchanged id item (reclaimed_item item now) at (reclaimed-Moves item now r) c)
          more.evolves;
    count = ap suc more.count;
    stays =
        λ j n. Stays-trans s t more.last j (c.other j (ground arith)) (more.stays j (ground arith));
    idle = λ j m. elim (Bool-cases (contains j ids)) [
      | inl i ↦ more.idle j i
      | inr i ↦ Stays-idle t more.last j (more.stays j i) (ground (arith, str_iff id j, c.self))
    ];
  }

  pub reclaim_each_lem :
      (s : State V) (now : ℕ) (ids : List String)
      → Inv s
      → distinct ids ≡ true
      → ((j : String) → contains j ids ≡ true → runs (get s.items j) ≡ true)
      → Reclaims s now ids
  unfolding reclaim_each
  reclaim_each_lem s now [] v d h = record {
    last = s;
    items = [];
    returns = refl;
    evolves = unchanged;
    count = refl;
    stays = λ j n. inl refl;
    idle = λ j m. cc;
  }
  reclaim_each_lem s now (id ∷ ids) v d h = elim (Option-cases (get s.items id)) [
    | inl a ↦ absurd (ground (arith, h id, str_iff id id))
    | inr (item, a) ↦
        let r : is_running item.status ≡ true = ground (arith, h id, str_iff id id) in
        let (t, e, c) = reclaim_one_lem s now id item v.shaped a r in
        let w : Inv t =
          Evolves-Inv v
            (change unchanged id item (reclaimed_item item now) a (reclaimed-Moves item now r) c) in
        reclaim_more s t now id ids item a r (ground arith) e c (
          reclaim_each_lem t now ids w (ground arith) (λ j m.
            Stays-runs s t j (c.other j (ground (arith, str_iff id j))) (h j (ground arith))))
  ]

  -- `reclaim_expired` on a well-formed state: it returns, and afterwards no item of the queue runs
  -- on an expired lease.
  pub record ReclaimsExpired (s : State V) (q : String) (now : ℕ) : Type 0 where
    pub last : State V
    pub items : List (QueueItem V)
    pub returns : reclaim_expired s q now ≡ done (last, items)
    pub evolves : Evolves s last
    pub none_over :
        (j : String) → runs_in q (get last.items j) ≡ true → is_over now (get last.items j) ≡ false
    pub others :
        (j : String)
        → (runs_in q (get s.items j) && is_over now (get s.items j)) ≡ false
        → Stays s last j

  pub reclaim_expired_lem : (s : State V) (q : String) (now : ℕ) → Inv s → ReclaimsExpired s q now
  unfolding reclaim_expired
  reclaim_expired_lem s q now v =
      let (ids, e, c, u) =
        expired_ids_lem s now q (running_set s q) (λ j m. ground (arith, v.shaped.indexed.runs q j))
          (v.shaped.indexed.runs_once q) in
      let r =
        reclaim_each_lem s now ids v u (λ j m. ground (arith, c j, v.shaped.indexed.runs q j)) in
      record {
        last = r.last;
        items = r.items;
        returns = rw e r.returns;
        evolves = r.evolves;
        none_over = λ j m. elim (Bool-cases (contains j ids)) [
          | inl i ↦ ground (arith, r.idle j i)
          | inr i ↦ ground (arith, r.stays j i, c j, v.shaped.indexed.runs q j)
        ];
        others = λ j m. r.stays j (ground (arith, c j, v.shaped.indexed.runs q j));
      }
