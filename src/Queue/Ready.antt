-- ===== src/Queue/Ready.antt =====
-- Which items `claim` may lease, and in which order: the filter and the sort of memory.rs.
use symbiotic_foundation.Base.{
  ℕ, String, Bool, ◌&&◌, ◌||◌, List, [], ◌∷◌, map, ltb, leb, ◌==◌, nat_eq, string_eq, if◌then◌else◌,
  filter, take, str_lt,
}
use symbiotic_foundation.Queue.Types.{QueueItem}
use symbiotic_foundation.Queue.State.{State, is_waiting}

module _ {V : Type 0} where
  unfoldable pub is_ready : String → ℕ → QueueItem V → Bool
  is_ready q now item =
      item.queue_id == q
      && is_waiting item.status
      && ltb item.attempt item.max_attempts
      && leb item.run_after now

  -- `(a.run_after, a.created_at, a.item_id) < (b.run_after, b.created_at, b.item_id)`
  unfoldable pub comes_before : QueueItem V → QueueItem V → Bool
  comes_before a b =
      ltb a.run_after b.run_after
      || (a.run_after == b.run_after
          && (ltb a.created_at b.created_at
              || (a.created_at == b.created_at && str_lt a.item_id b.item_id)))

  -- The stable sort, by insertion.
  unfoldable pub place : QueueItem V → List (QueueItem V) → List (QueueItem V)
  place a [] = a ∷ []
  place a (b ∷ bs) = if comes_before b a then b ∷ place a bs else a ∷ b ∷ bs

  unfoldable pub sort_ready : List (QueueItem V) → List (QueueItem V)
  sort_ready [] = []
  sort_ready (a ∷ rest) = place a (sort_ready rest)

  abbrev pub values : List (String × QueueItem V) → List (QueueItem V)
  values = map λ entry. entry.1

  unfoldable pub ready_ids : State V → String → ℕ → ℕ → List String
  ready_ids s q now limit =
      map (λ item. item.item_id)
        (take limit (sort_ready (filter (is_ready q now) (values s.items))))
