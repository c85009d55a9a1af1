-- ===== src/Queue/Inv/Status.antt =====
-- `set_status` keeps the indices right, forgets no waiting or running item, and keeps the item
-- whose status it sets.
use symbiotic_foundation.Base.{
  String, true, false, ◌&&◌, ◌||◌, none, some, List, [], ◌∷◌, ◌++◌, length, contains, distinct,
  ◌==◌, string_eq, pair_eq, Option-cases, str_iff, if◌then◌else◌, get, get-modify, keys,
  keys-modify, map_some, ◌≡◌, ◌≤◌, arith, Bool-cases, inl, inr, ◌⊎◌,
}
use symbiotic_foundation.Queue.Types.{QueueStatus, QueueItem}
use symbiotic_foundation.Queue.State.{
  State, is_terminal, index_running, push_terminal, write_status, evict_terminal,
}
use symbiotic_foundation.Queue.Inv.Defs.{points, Indexed}
use symbiotic_foundation.Queue.Inv.Evict.{
  evict_window-Indexed, evict_window-retain, evict_window-bounded, evict_window-items,
  evict_window-last, re_window,
}
use symbiotic_foundation.Queue.Inv.Index.{
  index_running-contains, index_running-distinct, index_running-rest,
}

abbrev pub pushed : List String → String → QueueStatus → List String
pushed w id status = if is_terminal status then w ++ id ∷ [] else w

pub contains-pushed :
    (w : List String) (id : String) (status : QueueStatus) (j : String)
    → contains j (pushed w id status) ≡ (contains j w || (is_terminal status && id == j))
contains-pushed [] id status j = ground arith
contains-pushed (e ∷ w) id status j = ground (arith, contains-pushed w id status j)

distinct-pushed :
    (w : List String) (id : String) (status : QueueStatus)
    → distinct w ≡ true
    → contains id w ≡ false
    → distinct (pushed w id status) ≡ true
distinct-pushed [] id status d c = ground arith
distinct-pushed (e ∷ w) id status d c =
    ground (
      arith,
      str_iff e id,
      str_iff id e,
      contains-pushed w id status e,
      distinct-pushed w id status,
    )

module _ {V : Type 0} where
  -- The state before the window is trimmed.
  abbrev pub moved : State V → QueueItem V → String → QueueStatus → State V
  moved s item id status = index_running (write_status s id status) item id status

  pub moved-items :
      (s : State V) (item : QueueItem V) (id : String) (status : QueueStatus) (j : String)
      → get (moved s item id status).items j ≡ (
          if id == j
          then map_some (λ i. record i { status = status }) (get s.items j)
          else get s.items j)
  unfolding write_status
  moved-items s item id status j = ground (
    arith,
    index_running-rest (write_status s id status) item id status,
    get-modify s.items id j (λ i. record i { status = status }),
  )

  pub moved-keyed :
      (s : State V) (item : QueueItem V) (id : String) (status : QueueStatus)
      → ((k : String × String) → points s k (get s.idempotency k) ≡ true)
      → (key : String × String)
      → points (moved s item id status) key (get (moved s item id status).idempotency key) ≡ true
  unfolding write_status
  moved-keyed s item id status h key = elim (Option-cases (get s.idempotency key)) [
    | inl a ↦ ground (arith, index_running-rest (write_status s id status) item id status)
    | inr (j, a) ↦ ground (
      arith,
      h key,
      moved-items s item id status j,
      index_running-rest (write_status s id status) item id status,
    )
  ]

  moved-once :
      (s : State V) (item : QueueItem V) (id : String) (status : QueueStatus)
      → distinct (keys s.items) ≡ true
      → distinct (keys (moved s item id status).items) ≡ true
  unfolding write_status
  moved-once s item id status d = ground (
    arith,
    index_running-rest (write_status s id status) item id status,
    keys-modify s.items id (λ i. record i { status = status }),
  )

  pub moved-Indexed :
      (w : List String) (s : State V) (item : QueueItem V) (id : String) (status : QueueStatus)
      → Indexed w s
      → get s.items id ≡ some item
      → is_terminal item.status ≡ false
      → Indexed (pushed w id status) (moved s item id status)
  unfolding write_status
  moved-Indexed w s item id status v at live = record {
    once = moved-once s item id status v.once;
    named = λ j. ground (arith, v.named j, moved-items s item id status j);
    runs = λ q j. ground (
      arith,
      v.runs q j,
      str_iff id j,
      moved-items s item id status j,
      index_running-contains (write_status s id status) item id status q j,
    );
    runs_once =
        λ q. index_running-distinct (write_status s id status) item id status q (v.runs_once q);
    ended = λ j. ground (
      arith,
      v.ended j,
      str_iff id j,
      moved-items s item id status j,
      contains-pushed w id status j,
    );
    ended_once = distinct-pushed w id status v.ended_once (ground (arith, v.ended id));
    keyed = moved-keyed s item id status v.keyed;
  }

  pub push_terminal-Indexed :
      (s : State V) (id : String) (status : QueueStatus)
      → Indexed (pushed s.terminal id status) s
      → Indexed (push_terminal s id status).terminal (push_terminal s id status)
  unfolding push_terminal evict_terminal
  push_terminal-Indexed s id status v = elim (Bool-cases (is_terminal status)) [
    | inl a ↦
        rw (a, push_terminal)
          (evict_window-Indexed _ (record s { terminal = s.terminal ++ id ∷ [] })
            (re_window _ _ s (rw a at v)))
    | inr a ↦ rw (a, push_terminal) (rw a at v)
  ]

  pub push_terminal-bounds :
      (s : State V) (id : String) (status : QueueStatus)
      → length s.terminal ≤ s.retain_terminal
      → (length (push_terminal s id status).terminal ≤ s.retain_terminal)
        × ((push_terminal s id status).retain_terminal ≡ s.retain_terminal)
  unfolding push_terminal evict_terminal
  push_terminal-bounds s id status h = ground (
    arith,
    evict_window-bounded (s.terminal ++ id ∷ []) (record s { terminal = s.terminal ++ id ∷ [] }),
    evict_window-retain (s.terminal ++ id ∷ []) (record s { terminal = s.terminal ++ id ∷ [] }),
  )

  pub push_terminal_self :
      (s : State V) (id : String) (status : QueueStatus)
      → distinct (pushed s.terminal id status) ≡ true
      → 1 ≤ s.retain_terminal
      → get (push_terminal s id status).items id ≡ get s.items id
  unfolding push_terminal evict_terminal
  push_terminal_self s id status d r = ground (
    arith,
    evict_window-items (s.terminal ++ id ∷ []) (record s { terminal = s.terminal ++ id ∷ [] }) id,
    evict_window-last s.terminal (record s { terminal = s.terminal ++ id ∷ [] }) id,
  )

  pub push_terminal-other :
      (s : State V) (id j : String) (status : QueueStatus)
      → distinct (pushed s.terminal id status) ≡ true
      → (get (push_terminal s id status).items j ≡ get s.items j)
        ⊎ ((get (push_terminal s id status).items j ≡ none)
            × (contains j (pushed s.terminal id status) ≡ true))
  unfolding push_terminal evict_terminal
  push_terminal-other s id j status d = ground (
    arith,
    evict_window-items (s.terminal ++ id ∷ []) (record s { terminal = s.terminal ++ id ∷ [] }) j,
  )
