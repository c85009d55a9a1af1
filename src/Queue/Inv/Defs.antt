-- ===== src/Queue/Inv/Defs.antt =====
-- The well-formedness of the state: the running index and the terminal window mirror the items.
use symbiotic_foundation.Base.{
  String, Bool, true, false, ◌&&◌, Option, none, some, List, length, contains, distinct, leb, ◌==◌,
  string_eq, pair_eq, is_some, get, keys, ◌≡◌, ◌≤◌, ◌⊎◌,
}
use symbiotic_foundation.Queue.Types.{QueueItem}
use symbiotic_foundation.Queue.State.{State, is_running, is_terminal, running_set}

abbrev pub iff : Bool → Bool → Bool
iff true b = b
iff false true = false
iff false false = true

module _ {V : Type 0} where
  abbrev pub runs_in : String → Option (QueueItem V) → Bool
  runs_in q none = false
  runs_in q (some item) = is_running item.status && item.queue_id == q

  abbrev pub is_ended : Option (QueueItem V) → Bool
  is_ended none = false
  is_ended (some item) = is_terminal item.status

  abbrev pub is_named : String → Option (QueueItem V) → Bool
  is_named id none = true
  is_named id (some item) = item.item_id == id

  abbrev pub has_key : String × String → Option (QueueItem V) → Bool
  has_key key none = false
  has_key key (some item) = elim item.idempotency_key [
    | none ↦ false
    | some k ↦ (item.queue_id, k) == key
  ]

  abbrev pub points : State V → String × String → Option String → Bool
  points s key none = true
  points s key (some id) = has_key key (get s.items id)

  -- A lease is held exactly while the item runs, and no attempt is beyond the budget.
  abbrev pub is_leased_right : Option (QueueItem V) → Bool
  is_leased_right none = true
  is_leased_right (some item) =
      iff (is_running item.status) (is_some item.lease_owner)
      && iff (is_running item.status) (is_some item.lease_until)
      && leb item.attempt item.max_attempts
      && leb 1 item.max_attempts

  -- The indices agree with the items, where `window` is the terminal window.
  pub record Indexed (window : List String) (s : State V) : Type 0 where
    pub once : distinct (keys s.items) ≡ true
    pub named : (id : String) → is_named id (get s.items id) ≡ true
    pub runs : (q id : String) → contains id (running_set s q) ≡ runs_in q (get s.items id)
    pub runs_once : (q : String) → distinct (running_set s q) ≡ true
    pub ended : (id : String) → contains id window ≡ is_ended (get s.items id)
    pub ended_once : distinct window ≡ true
    pub keyed : (key : String × String) → points s key (get s.idempotency key) ≡ true

  pub record IsShaped (s : State V) : Type 0 where
    pub indexed : Indexed s.terminal s
    pub bounded : length s.terminal ≤ s.retain_terminal
    pub retains : 1 ≤ s.retain_terminal

  pub record Inv (s : State V) : Type 0 where
    pub shaped : IsShaped s
    pub leased : (id : String) → is_leased_right (get s.items id) ≡ true

  -- What identifies an item to the indices is the same in both.
  pub record IsSame (item item' : QueueItem V) : Type 0 where
    pub same_id : item'.item_id ≡ item.item_id
    pub same_queue : item'.queue_id ≡ item.queue_id
    pub same_key : item'.idempotency_key ≡ item.idempotency_key

  -- `id` now has the item `new`; of the others only ended ones can be gone, and none has changed.
  pub record Changes (s : State V) (id : String) (new : QueueItem V) (s' : State V) : Type 0 where
    pub shaped : IsShaped s'
    pub retain : s'.retain_terminal ≡ s.retain_terminal
    pub self : get s'.items id ≡ some new
    pub other :
        (j : String)
        → (id == j) ≡ false
        → (get s'.items j ≡ get s.items j)
          ⊎ ((get s'.items j ≡ none) × (is_ended (get s.items j) ≡ true))
