-- ===== src/Queue/Inv/Insert.antt =====
-- `enqueue_inner` under the lock.
use symbiotic_foundation.Base.{
  String, true, false, Option, none, some, List, ◌==◌, string_eq, pair_eq, str_iff, pair_beq_iff,
  if◌then◌else◌, get, get-insert, keys-insert-distinct, ◌≡◌, refl, sym, subst, ◌∙◌, ap, arith,
  Bool-cases, Option-cases, inl, inr,
}
use symbiotic_foundation.Queue.Types.{pending, QueueItem}
use symbiotic_foundation.Queue.State.{State}
use symbiotic_foundation.Queue.Enqueue.{index_key, insert_item}
use symbiotic_foundation.Queue.Inv.Defs.{points, is_leased_right, Indexed, Inv}

module _ {V : Type 0} where
  -- A new item beside all the others.
  pub record Adds (s : State V) (item : QueueItem V) (s' : State V) : Type 0 where
    pub inv : Inv s'
    pub self : get s'.items item.item_id ≡ some item
    pub other : (j : String) → (item.item_id == j) ≡ false → get s'.items j ≡ get s.items j
    pub newest :
        (key : String)
        → item.idempotency_key ≡ some key
        → get s'.idempotency (item.queue_id, key) ≡ some item.item_id

  index_key-rest :
      (s : State V) (item : QueueItem V)
      → let s' = index_key s item in
        (s'.items ≡ s.items)
        × (s'.running_index ≡ s.running_index)
        × (s'.terminal ≡ s.terminal)
        × (s'.retain_terminal ≡ s.retain_terminal)
  unfolding index_key
  index_key-rest s item = ground arith

  points_kept :
      (s : State V) (item : QueueItem V) (key : String × String) (o : Option String)
      → get s.items item.item_id ≡ none
      → points s key o ≡ true
      → points (insert_item s item) key o ≡ true
  unfolding insert_item
  points_kept s item key none fresh h = refl
  points_kept s item key (some j) fresh h =
      ground (
        arith,
        str_iff item.item_id j,
        index_key-rest s item,
        get-insert s.items item.item_id j item,
      )

  index_key-unkeyed :
      (s : State V) (item : QueueItem V) → item.idempotency_key ≡ none → index_key s item ≡ s
  unfolding index_key
  index_key-unkeyed s item a = rw (a, index_key) refl

  index_key-get :
      (s : State V) (item : QueueItem V) (k : String) (key : String × String)
      → item.idempotency_key ≡ some k
      → get (index_key s item).idempotency key
        ≡ (if (item.queue_id, k) == key then some item.item_id else get s.idempotency key)
  unfolding index_key
  index_key-get s item k key a =
      rw (a, index_key) (get-insert s.idempotency (item.queue_id, k) key item.item_id)

  insert_item-keyed :
      (s : State V) (item : QueueItem V) (key : String × String)
      → get s.items item.item_id ≡ none
      → points s key (get s.idempotency key) ≡ true
      → points (insert_item s item) key (get (insert_item s item).idempotency key) ≡ true
  unfolding insert_item
  insert_item-keyed s item key fresh h = elim (Option-cases item.idempotency_key) [
    | inl a ↦
        subst (λ o. points (insert_item s item) key o ≡ true)
          (ap (λ (t : State V). get t.idempotency key) (sym (index_key-unkeyed s item a)))
          (points_kept s item key (get s.idempotency key) fresh h)
    | inr (k, a) ↦ elim (Bool-cases ((item.queue_id, k) == key)) [
      | inl e ↦
          rw (index_key-get s item k key a, e)
            (ground (
              arith,
              str_iff item.item_id item.item_id,
              index_key-rest s item,
              get-insert s.items item.item_id item.item_id item,
            ))
      | inr e ↦
          subst (λ o. points (insert_item s item) key o ≡ true)
            (sym (index_key-get s item k key a ∙ rw e refl))
            (points_kept s item key (get s.idempotency key) fresh h)
    ]
  ]

  insert_item-Indexed :
      (w : List String) (s : State V) (item : QueueItem V)
      → Indexed w s
      → get s.items item.item_id ≡ none
      → item.status ≡ pending
      → Indexed w (insert_item s item)
  unfolding insert_item
  insert_item-Indexed w s item v fresh p =
      let id = item.item_id in
      let same = index_key-rest s item in
      record {
        once = rw same.0 (keys-insert-distinct s.items id item v.once);
        named = λ j. ground (arith, v.named j, str_iff id j, same, get-insert s.items id j item);
        runs = λ q j. ground (arith, v.runs q j, str_iff id j, same, get-insert s.items id j item);
        runs_once = λ q. ground (arith, v.runs_once q, same);
        ended = λ j. ground (arith, v.ended j, str_iff id j, same, get-insert s.items id j item);
        ended_once = v.ended_once;
        keyed = λ key. insert_item-keyed s item key fresh (v.keyed key);
      }

  -- A fresh pending item joins a well-formed state.
  pub insert_item-Adds :
      (s : State V) (item : QueueItem V)
      → Inv s
      → get s.items item.item_id ≡ none
      → item.status ≡ pending
      → is_leased_right (some item) ≡ true
      → Adds s item (insert_item s item)
  unfolding insert_item
  insert_item-Adds s item v fresh p l =
      let id = item.item_id in
      let same = index_key-rest s item in
      record {
        inv = record {
          shaped = record {
            indexed =
                subst (λ w. Indexed w (insert_item s item)) (sym same.2)
                  (insert_item-Indexed s.terminal s item v.shaped.indexed fresh p);
            bounded = ground (arith, v.shaped.bounded, same);
            retains = ground (arith, v.shaped.retains, same);
          };
          leased =
              λ j. ground (arith, v.leased j, l, str_iff id j, same, get-insert s.items id j item);
        };
        self = ground (arith, str_iff id id, same, get-insert s.items id id item);
        other = λ j n. ground (arith, n, same, get-insert s.items id j item);
        newest = λ key a.
            index_key-get s item key (item.queue_id, key) a
            ∙ rw ((pair_beq_iff (item.queue_id, key) (item.queue_id, key)).1 refl) refl;
      }
