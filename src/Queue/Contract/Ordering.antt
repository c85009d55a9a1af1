-- ===== src/Queue/Contract/Ordering.antt =====
-- The order in which `claim` takes the items that are ready.
use symbiotic_foundation.Base.{
  suc, String, Bool, true, ◌&&◌, ◌||◌, List, [], ◌∷◌, map, ltb, leb, ◌==◌, nat_eq, string_eq,
  length, contains, ◌≡◌, refl, arith,
}
use symbiotic_foundation.Queue.Types.{QueueItem}
use symbiotic_foundation.Queue.Ready.{comes_before, place, sort_ready}

module _ {V : Type 0} where
  -- Due earlier, or at the same time and no younger.
  abbrev pub is_due_first : QueueItem V → QueueItem V → Bool
  is_due_first a b =
      ltb a.run_after b.run_after || (a.run_after == b.run_after && leb a.created_at b.created_at)

  abbrev pub are_due_in_order : List (QueueItem V) → Bool
  are_due_in_order [] = true
  are_due_in_order (a ∷ []) = true
  are_due_in_order (a ∷ b ∷ bs) = is_due_first a b && are_due_in_order (b ∷ bs)

  abbrev pub names : List (QueueItem V) → List String
  names = map λ item. item.item_id

  place-in_order :
      (a : QueueItem V) (bs : List (QueueItem V))
      → are_due_in_order bs ≡ true
      → are_due_in_order (place a bs) ≡ true
  unfolding place comes_before
  place-in_order a [] h = refl
  place-in_order a (b ∷ []) h = ground arith
  place-in_order a (b ∷ c ∷ bs) h = ground (arith, place-in_order a (c ∷ bs))

  place-names :
      (id : String) (a : QueueItem V) (bs : List (QueueItem V))
      → contains id (names (place a bs)) ≡ (a.item_id == id || contains id (names bs))
  unfolding place
  place-names id a [] = refl
  place-names id a (b ∷ bs) = ground (arith, place-names id a bs)

  length-place_ready :
      (a : QueueItem V) (bs : List (QueueItem V)) → length (place a bs) ≡ suc (length bs)
  unfolding place
  length-place_ready a [] = refl
  length-place_ready a (b ∷ bs) = ground (arith, length-place_ready a bs)

  -- Sorting the ready items, from whose front `claim` takes, keeps them all and puts those first that
  -- are due earlier, and of those due at the same time the older ones.
  pub sort_ready-in_order :
      (items : List (QueueItem V))
      → (are_due_in_order (sort_ready items) ≡ true)
        × (length (sort_ready items) ≡ length items)
        × ((id : String) → contains id (names (sort_ready items)) ≡ contains id (names items))
  unfolding sort_ready
  sort_ready-in_order [] = (refl, refl, λ id. refl)
  sort_ready-in_order (a ∷ rest) =
      let (order, count, kept) = sort_ready-in_order rest in
      (
        place-in_order a (sort_ready rest) order,
        omega (arith, count, length-place_ready a (sort_ready rest)),
        λ id. ground (arith, place-names id a (sort_ready rest), kept id),
      )
