-- ===== src/Queue/Inv/Index.antt =====
-- The running index follows a change of status.
use symbiotic_foundation.Base.{
  String, Bool, true, false, not, ◌&&◌, ◌||◌, List, [], ◌∷◌, contains, delete, distinct, is_empty,
  ◌==◌, string_eq, str_iff, if◌then◌else◌, get-insert, get-remove, ◌≡◌, refl, arith,
}
use symbiotic_foundation.Queue.Types.{QueueStatus, QueueItem}
use symbiotic_foundation.Queue.State.{
  State, running_set, leave_running, enter_running, index_running, is_running,
}

pub contains-delete :
    (id j : String) (xs : List String)
    → contains j (delete id xs) ≡ (contains j xs && not (id == j))
contains-delete id j [] = refl
contains-delete id j (x ∷ xs) =
    ground (arith, str_iff x id, str_iff x j, str_iff id j, contains-delete id j xs)

distinct-delete :
    (id : String) (xs : List String) → distinct xs ≡ true → distinct (delete id xs) ≡ true
distinct-delete id [] d = refl
distinct-delete id (x ∷ xs) d = ground (arith, contains-delete id x xs, distinct-delete id xs)

empty-contains : (xs : List String) (j : String) → is_empty xs ≡ true → contains j xs ≡ false
empty-contains [] j h = refl
empty-contains (x ∷ xs) j h = ground arith

module _ {V : Type 0} where
  pub leave_running-contains :
      (s : State V) (q id q' j : String)
      → contains j (running_set (leave_running s q id) q')
        ≡ (contains j (running_set s q') && not (q == q' && id == j))
  unfolding leave_running
  leave_running-contains s q id q' j = ground (
    arith,
    str_iff q q',
    str_iff id j,
    contains-delete id j (running_set s q),
    empty-contains (delete id (running_set s q)) j,
    get-insert s.running_index q q' (delete id (running_set s q)),
    get-remove s.running_index q q',
  )

  pub leave_running-distinct :
      (s : State V) (q id q' : String)
      → distinct (running_set s q') ≡ true
      → distinct (running_set (leave_running s q id) q') ≡ true
  unfolding leave_running
  leave_running-distinct s q id q' h = ground (
    arith,
    str_iff q q',
    distinct-delete id (running_set s q),
    get-insert s.running_index q q' (delete id (running_set s q)),
    get-remove s.running_index q q',
  )

  pub enter_running-contains :
      (s : State V) (q id q' j : String)
      → contains j (running_set (enter_running s q id) q')
        ≡ (contains j (running_set s q') || (q == q' && id == j))
  unfolding enter_running
  enter_running-contains s q id q' j =
      ground
        (arith, str_iff q q', str_iff id j, get-insert s.running_index q q' (id ∷ running_set s q))

  pub enter_running-distinct :
      (s : State V) (q id q' : String)
      → distinct (running_set s q') ≡ true
      → distinct (running_set (enter_running s q id) q') ≡ true
  unfolding enter_running
  enter_running-distinct s q id q' h =
      ground (arith, str_iff q q', get-insert s.running_index q q' (id ∷ running_set s q))

  -- Whether `id` is indexed under its queue after its status changed.
  abbrev pub indexed_now : QueueItem V → QueueStatus → Bool → Bool
  indexed_now item status before =
      if is_running item.status then is_running status && before else is_running status || before

  pub index_running-contains :
      (s : State V) (item : QueueItem V) (id : String) (status : QueueStatus) (q' j : String)
      → contains j (running_set (index_running s item id status) q') ≡ (
          if item.queue_id == q' && id == j
          then indexed_now item status (contains j (running_set s q'))
          else contains j (running_set s q'))
  unfolding index_running
  index_running-contains s item id status q' j = ground (
    arith,
    leave_running-contains s item.queue_id id q' j,
    enter_running-contains s item.queue_id id q' j,
  )

  pub index_running-distinct :
      (s : State V) (item : QueueItem V) (id : String) (status : QueueStatus) (q' : String)
      → distinct (running_set s q') ≡ true
      → distinct (running_set (index_running s item id status) q') ≡ true
  unfolding index_running
  index_running-distinct s item id status q' h = ground (
    arith,
    leave_running-distinct s item.queue_id id q',
    enter_running-distinct s item.queue_id id q',
  )

  -- The index is all that changes.
  pub index_running-rest :
      (s : State V) (item : QueueItem V) (id : String) (status : QueueStatus)
      → let s' = index_running s item id status in
        (s'.items ≡ s.items)
        × (s'.idempotency ≡ s.idempotency)
        × (s'.terminal ≡ s.terminal)
        × (s'.retain_terminal ≡ s.retain_terminal)
  unfolding index_running leave_running enter_running
  index_running-rest s item id status = ground arith
