-- ===== src/Queue/Inv/Enqueues.antt =====
-- `enqueue_inner` under the lock: what it returns and what it leaves.
use symbiotic_foundation.Base.{
  ℕ, String, true, false, ◌==◌, if◌then◌else◌, ◌∙◌, Option, none, some, string_eq, pair_eq, get,
  ◌≡◌, refl, arith, Bool-cases, Option-cases, inl, inr, ◌⊎◌,
}
use symbiotic_foundation.Core.Diagnostics.{queue}
use symbiotic_foundation.Queue.Types.{stopped, QueueItem, EnqueueRequest}
use symbiotic_foundation.Queue.State.{State, set_status}
use symbiotic_foundation.Queue.Enqueue.{
  duplicate, refuses, is_failed, stop_replaced, retire_replaced, new_item, insert_item,
  fresh_outcome, duplicate_outcome, enqueue_locked,
}
use symbiotic_foundation.Queue.Inv.Defs.{is_ended, IsShaped, Inv, Changes}
use symbiotic_foundation.Queue.Inv.Changes.{set_status-Changes, touch-Changes, Changes-trans}
use symbiotic_foundation.Queue.Inv.Evolves.{Evolves, unchanged, change, Evolves-Inv, Evolves-gone}
use symbiotic_foundation.Queue.Inv.Insert.{Adds, insert_item-Adds}

module _ {V : Type 0} where
  abbrev pub stopped_item : QueueItem V → QueueItem V
  stopped_item item = record item { status = stopped; last_error_class = some queue }

  stop_replaced-Changes :
      (s : State V) (current : String) (item : QueueItem V)
      → IsShaped s
      → get s.items current ≡ some item
      → is_failed item.status ≡ true
      → Changes s current (stopped_item item) (stop_replaced s current)
  stop_replaced-Changes s current item v at f =
      let c = set_status-Changes s current item stopped v at (ground arith) in
      let t =
        touch-Changes (set_status s current stopped) current
          (λ i. record i { last_error_class = some queue }) (record item { status = stopped })
          c.shaped c.self (record { same_id = refl; same_queue = refl; same_key = refl }) refl in
      Changes-trans s (set_status s current stopped) _ current _ _ c t

  stop_replaced-Evolves :
      (s : State V) (current : String) (item : QueueItem V)
      → IsShaped s
      → get s.items current ≡ some item
      → is_failed item.status ≡ true
      → Evolves s (stop_replaced s current)
  stop_replaced-Evolves s current item v at f =
      change unchanged current item (stopped_item item) at (ground arith)
        (stop_replaced-Changes s current item v at f)

  -- The replaced item is stopped where it waited for a retry, and no other item is touched.
  pub record Retires (s : State V) (current : String) (t : State V) : Type 0 where
    pub replaced :
        (old : QueueItem V)
        → get s.items current ≡ some old
        → get t.items current ≡ some (if is_failed old.status then stopped_item old else old)
    pub others :
        (j : String)
        → (current == j) ≡ false
        → (get t.items j ≡ get s.items j)
          ⊎ ((get t.items j ≡ none) × (is_ended (get s.items j) ≡ true))

  pub retire_replaced-Retires :
      (s : State V) (current : String)
      → IsShaped s
      → Retires s current (retire_replaced s (some current))
  unfolding retire_replaced
  retire_replaced-Retires s current v = elim (Option-cases (get s.items current)) [
    | inl a ↦
        rw (a, retire_replaced)
          (record { replaced = λ old at. absurd (cc (a, at)); others = λ j n. inl refl })
    | inr (item, a) ↦ elim (Bool-cases (is_failed item.status)) [
      | inl f ↦
          let c = stop_replaced-Changes s current item v a f in
          rw (a, retire_replaced)
            (rw f (record { replaced = λ old at. c.self ∙ ground arith; others = c.other }))
      | inr f ↦
          rw (a, retire_replaced)
            (rw f (record { replaced = λ old at. ground arith; others = λ j n. inl refl }))
    ]
  ]

  pub retire_replaced-Evolves :
      (s : State V) (replacing : Option String)
      → IsShaped s
      → Evolves s (retire_replaced s replacing)
  unfolding retire_replaced
  retire_replaced-Evolves s none v = unchanged
  retire_replaced-Evolves s (some current) v = elim (Option-cases (get s.items current)) [
    | inl a ↦ rw (a, retire_replaced) unchanged
    | inr (item, a) ↦ elim (Bool-cases (is_failed item.status)) [
      | inl f ↦ rw (a, retire_replaced) (rw f (stop_replaced-Evolves s current item v a f))
      | inr f ↦ rw (a, retire_replaced) (rw f unchanged)
    ]
  ]

  -- The item that stands in the way is returned, and nothing changes.
  pub record Refused (request : EnqueueRequest V) (replacing : Option String) (id : String)
      (now : ℕ) (s : State V) : Type 0 where
    pub existing : QueueItem V
    pub found : duplicate s request ≡ some existing
    pub stands : refuses request replacing existing ≡ true
    pub returns : enqueue_locked request replacing id now s ≡ (s, duplicate_outcome existing)

  -- Nothing stands in the way: the key is free, or its newest item does not refuse.
  abbrev pub Allows : State V → EnqueueRequest V → Option String → Type 0
  Allows s request replacing =
      (duplicate s request ≡ none)
      ⊎ ((existing : QueueItem V) × (duplicate s request ≡ some existing)
          × (refuses request replacing existing ≡ false))

  -- The new item is added, after the one that it replaces was stopped if it waited for a retry.
  pub record Added (request : EnqueueRequest V) (replacing : Option String) (id : String) (now : ℕ)
      (s : State V) : Type 0 where
    pub middle : State V
    pub last : State V
    pub returns :
        enqueue_locked request replacing id now s ≡ (last, fresh_outcome (new_item request id now))
    pub allows : Allows s request replacing
    pub retires : middle ≡ retire_replaced s replacing
    pub evolves : Evolves s middle
    pub adds : Adds middle (new_item request id now) last

  added :
      (request : EnqueueRequest V) (replacing : Option String) (id : String) (now : ℕ) (s : State V)
      → Inv s
      → get s.items id ≡ none
      → Allows s request replacing
      → enqueue_locked request replacing id now s ≡ (
        insert_item (retire_replaced s replacing) (new_item request id now),
        fresh_outcome (new_item request id now),
      )
      → Added request replacing id now s
  added request replacing id now s v fresh w e =
      let ev = retire_replaced-Evolves s replacing v.shaped in
      record {
        middle = retire_replaced s replacing;
        last = insert_item (retire_replaced s replacing) (new_item request id now);
        returns = e;
        allows = w;
        retires = refl;
        evolves = ev;
        adds =
            insert_item-Adds (retire_replaced s replacing) (new_item request id now)
              (Evolves-Inv v ev) (Evolves-gone id ev fresh) refl (ground arith);
      }

  pub enqueue_locked_lem :
      (request : EnqueueRequest V) (replacing : Option String) (id : String) (now : ℕ) (s : State V)
      → Inv s
      → get s.items id ≡ none
      → Refused request replacing id now s ⊎ Added request replacing id now s
  unfolding enqueue_locked
  enqueue_locked_lem request replacing id now s v fresh =
      elim (Option-cases (duplicate s request)) [
        | inl a ↦
            inr (added request replacing id now s v fresh (inl a) (rw (a, enqueue_locked) refl))
        | inr (existing, a) ↦ elim (Bool-cases (refuses request replacing existing)) [
          | inl r ↦ inl (record {
            existing = existing;
            found = a;
            stands = r;
            returns = rw (a, enqueue_locked) (rw r refl);
          })
          | inr r ↦ inr (
              added request replacing id now s v fresh (inr (existing, a, r))
                (rw (a, enqueue_locked) (rw r refl)))
        ]
      ]
