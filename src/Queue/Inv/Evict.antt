-- ===== src/Queue/Inv/Evict.antt =====
-- Eviction from the terminal window keeps the indices right.
use symbiotic_foundation.Base.{
  String, Bool, true, false, not, ◌&&◌, ◌||◌, Option, none, some, List, [], ◌∷◌, length, ◌++◌,
  contains, distinct, ltb, ◌==◌, string_eq, pair_eq, str_iff, pair_beq_iff, if◌then◌else◌, get,
  remove, get-remove, keys, keys-remove-distinct, ◌≡◌, refl, ◌≤◌, arith, Bool-cases, Option-cases,
  inl, inr,
}
use symbiotic_foundation.Queue.Types.{QueueItem}
use symbiotic_foundation.Queue.State.{State, drop_key, evict_item, evict_window}
use symbiotic_foundation.Queue.Inv.Defs.{has_key, points, Indexed}

contains-snoc : (w : List String) (id : String) → contains id (w ++ id ∷ []) ≡ true
contains-snoc [] id = ground (arith, str_iff id id)
contains-snoc (e ∷ w) id = ground (arith, contains-snoc w id)

abbrev is_some_of : String → Option String → Bool
is_some_of e none = false
is_some_of e (some id) = id == e

module _ {V : Type 0} where
  -- Evicting leaves every other item, and the running index, alone.
  pub evict_item-items :
      (s : State V) (e id : String)
      → get (evict_item s e).items id ≡ (if e == id then none else get s.items id)
  unfolding evict_item drop_key
  evict_item-items s e id = ground (arith, str_iff e id, get-remove s.items e id)

  pub evict_item-running :
      (s : State V) (e : String) → (evict_item s e).running_index ≡ s.running_index
  unfolding evict_item drop_key
  evict_item-running s e = ground arith

  -- Forgetting an item's key forgets no other key, and forgets its own if it names the item.
  drop_key-get :
      (s : State V) (e : String) (item : QueueItem V) (key : String × String)
      → get (drop_key s e item).idempotency key ≡ (
          if has_key key (some item) && is_some_of e (get s.idempotency key)
          then none
          else get s.idempotency key)
  unfolding drop_key
  drop_key-get s e item key = elim (Option-cases item.idempotency_key) [
    | inl a ↦ rw (a, drop_key) refl
    | inr (k, a) ↦
        rw (a, drop_key)
          (ground (
            arith,
            pair_beq_iff (item.queue_id, k) key,
            get-remove s.idempotency (item.queue_id, k) key,
          ))
  ]

  drop_key-items :
      (s : State V) (e : String) (item : QueueItem V) → (drop_key s e item).items ≡ s.items
  unfolding drop_key
  drop_key-items s e item = ground arith

  points_after :
      (s : State V) (e id : String) (key : String × String)
      → get s.idempotency key ≡ some id
      → has_key key (get s.items id) ≡ true
      → points (evict_item s e) key (get (evict_item s e).idempotency key) ≡ true
  unfolding evict_item
  points_after s e id key at h = elim (Option-cases (get s.items e)) [
    | inl a ↦ rw (a, evict_item) (rw at h)
    | inr (item, a) ↦ ground (
      arith,
      str_iff e id,
      get-remove s.items e id,
      drop_key-items (record s { items = remove s.items e }) e item,
      drop_key-get (record s { items = remove s.items e }) e item key,
    )
  ]

  evict_item-unkeyed :
      (s : State V) (e : String) (key : String × String)
      → get s.idempotency key ≡ none
      → points (evict_item s e) key (get (evict_item s e).idempotency key) ≡ true
  unfolding evict_item
  evict_item-unkeyed s e key a = elim (Option-cases (get s.items e)) [
    | inl b ↦ rw (b, evict_item) (rw a)
    | inr (item, b) ↦
        ground (arith, drop_key-get (record s { items = remove s.items e }) e item key)
  ]

  evict_item-keyed :
      (s : State V) (e : String) (key : String × String)
      → ((k : String × String) → points s k (get s.idempotency k) ≡ true)
      → points (evict_item s e) key (get (evict_item s e).idempotency key) ≡ true
  evict_item-keyed s e key h = elim (Option-cases (get s.idempotency key)) [
    | inl a ↦ evict_item-unkeyed s e key a
    | inr (id, a) ↦ points_after s e id key a (rw a at (h key))
  ]

  evict_item-once :
      (s : State V) (e : String)
      → distinct (keys s.items) ≡ true
      → distinct (keys (evict_item s e).items) ≡ true
  unfolding evict_item drop_key
  evict_item-once s e d = ground (arith, keys-remove-distinct s.items e)

  -- The oldest item of the window goes, and the rest of the window stays right.
  evict_item-Indexed :
      (e : String) (rest : List String) (s : State V)
      → Indexed (e ∷ rest) s
      → Indexed rest (evict_item s e)
  evict_item-Indexed e rest s v = record {
    once = evict_item-once s e v.once;
    named = λ id. ground (arith, v.named id, evict_item-items s e id);
    runs = λ q id. ground (
      arith,
      v.runs q id,
      v.ended e,
      v.ended id,
      str_iff e id,
      evict_item-items s e id,
      evict_item-running s e,
    );
    runs_once = λ q. ground (arith, v.runs_once q, evict_item-running s e);
    ended = λ id. ground (arith, v.ended id, v.ended_once, str_iff e id, evict_item-items s e id);
    ended_once = ground (arith, v.ended_once);
    keyed = λ key. evict_item-keyed s e key v.keyed;
  }

  -- The window itself is no part of what the indices say of the items.
  pub re_window :
      (w w' : List String) (s : State V) → Indexed w s → Indexed w (record s { terminal = w' })
  re_window w w' s v = record {
    once = v.once;
    named = v.named;
    runs = v.runs;
    runs_once = v.runs_once;
    ended = v.ended;
    ended_once = v.ended_once;
    keyed = v.keyed;
  }

module _ {V : Type 0} where
  -- Eviction keeps the indices right.
  pub evict_window-Indexed :
      (w : List String) (s : State V)
      → Indexed w s
      → Indexed (evict_window w s).terminal (evict_window w s)
  unfolding evict_window
  evict_window-Indexed [] s v = re_window [] [] s v
  evict_window-Indexed (e ∷ rest) s v =
      elim (Bool-cases (ltb s.retain_terminal (length (e ∷ rest)))) [
        | inl a ↦
            rw (a, evict_window)
              (evict_window-Indexed rest (evict_item s e) (evict_item-Indexed e rest s v))
        | inr a ↦ rw (a, evict_window) (re_window (e ∷ rest) (e ∷ rest) s v)
      ]

  evict_item-retain :
      (s : State V) (e : String) → (evict_item s e).retain_terminal ≡ s.retain_terminal
  unfolding evict_item drop_key
  evict_item-retain s e = ground arith

  pub evict_window-retain :
      (w : List String) (s : State V) → (evict_window w s).retain_terminal ≡ s.retain_terminal
  unfolding evict_window
  evict_window-retain [] s = refl
  evict_window-retain (e ∷ rest) s =
      ground (arith, evict_item-retain s e, evict_window-retain rest (evict_item s e))

  -- At most the retained number of ids is left.
  pub evict_window-bounded :
      (w : List String) (s : State V) → length (evict_window w s).terminal ≤ s.retain_terminal
  unfolding evict_window
  evict_window-bounded [] s = omega arith
  evict_window-bounded (e ∷ rest) s =
      ground (arith, evict_item-retain s e, evict_window-bounded rest (evict_item s e))

  evict_window-sub :
      (w : List String) (s : State V) (id : String)
      → contains id (evict_window w s).terminal ≡ true
      → contains id w ≡ true
  unfolding evict_window
  evict_window-sub [] s id h = h
  evict_window-sub (e ∷ rest) s id h = ground (arith, evict_window-sub rest (evict_item s e) id)

  -- An item is forgotten exactly if its id has left the window.
  pub evict_window-items :
      (w : List String) (s : State V) (id : String)
      → distinct w ≡ true
      → get (evict_window w s).items id ≡ (
          if contains id (evict_window w s).terminal || not (contains id w)
          then get s.items id
          else none)
  unfolding evict_window
  evict_window-items [] s id d = refl
  evict_window-items (e ∷ rest) s id d = ground (
    arith,
    str_iff e id,
    evict_item-items s e id,
    evict_window-sub rest (evict_item s e) id,
    evict_window-items rest (evict_item s e) id,
  )

  -- The newest id stays.
  pub evict_window-last :
      (w : List String) (s : State V) (id : String)
      → 1 ≤ s.retain_terminal
      → contains id (evict_window (w ++ id ∷ []) s).terminal ≡ true
  unfolding evict_window
  evict_window-last [] s id h = ground (arith, str_iff id id)
  evict_window-last (e ∷ rest) s id h = ground (
    arith,
    contains-snoc rest id,
    evict_item-retain s e,
    evict_window-last rest (evict_item s e) id,
  )

  pub evict_window-running :
      (w : List String) (s : State V) → (evict_window w s).running_index ≡ s.running_index
  unfolding evict_window
  evict_window-running [] s = refl
  evict_window-running (e ∷ rest) s =
      ground (arith, evict_item-running s e, evict_window-running rest (evict_item s e))
