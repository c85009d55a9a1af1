-- ===== src/Queue/Inv/Choose.antt =====
-- The items that `claim` chooses are distinct, ready, and the first in order.
use symbiotic_foundation.Base.{
  ℕ, zero, suc, String, Bool, true, ◌||◌, some, List, [], ◌∷◌, map, All, contains, distinct, filter,
  take, ◌==◌, string_eq, str_iff, get, keys, get-entries, ◌≡◌, refl, arith, Bool-cases, inl, inr,
}
use symbiotic_foundation.Queue.Types.{QueueItem}
use symbiotic_foundation.Queue.State.{State}
use symbiotic_foundation.Queue.Ready.{is_ready, comes_before, place, sort_ready, values}
use symbiotic_foundation.Queue.Inv.Defs.{is_named, Indexed}

module _ {V : Type 0} (P : QueueItem V → Type 0) where
  All-filter :
      (p : QueueItem V → Bool) (xs : List (QueueItem V))
      → All P xs
      → All (λ x. P x × (p x ≡ true)) (filter p xs)
  All-filter p [] h = tt
  All-filter p (x ∷ xs) h = elim (Bool-cases (p x)) [
    | inl a ↦ rw a ((h.0, a), All-filter p xs h.1)
    | inr a ↦ rw a (All-filter p xs h.1)
  ]

  All-take : (n : ℕ) (xs : List (QueueItem V)) → All P xs → All P (take n xs)
  All-take zero xs h = tt
  All-take (suc n) [] h = tt
  All-take (suc n) (x ∷ xs) h = (h.0, All-take n xs h.1)

  All-place : (a : QueueItem V) (xs : List (QueueItem V)) → P a → All P xs → All P (place a xs)
  unfolding place
  All-place a [] p h = (p, tt)
  All-place a (b ∷ bs) p h = elim (Bool-cases (comes_before b a)) [
    | inl e ↦ rw e (h.0, All-place a bs p h.1)
    | inr e ↦ rw e (p, h)
  ]

  All-sort : (xs : List (QueueItem V)) → All P xs → All P (sort_ready xs)
  unfolding sort_ready
  All-sort [] h = tt
  All-sort (x ∷ xs) h = All-place x (sort_ready xs) h.0 (All-sort xs h.1)

module _ {V : Type 0} where
  abbrev pub ids : List (QueueItem V) → List String
  ids = map λ item. item.item_id

  contains-filter :
      (p : QueueItem V → Bool) (xs : List (QueueItem V)) (j : String)
      → contains j (ids (filter p xs)) ≡ true
      → contains j (ids xs) ≡ true
  contains-filter p [] j h = h
  contains-filter p (x ∷ xs) j h = ground (arith, contains-filter p xs j)

  distinct-filter :
      (p : QueueItem V → Bool) (xs : List (QueueItem V))
      → distinct (ids xs) ≡ true
      → distinct (ids (filter p xs)) ≡ true
  distinct-filter p [] d = refl
  distinct-filter p (x ∷ xs) d =
      ground (arith, contains-filter p xs x.item_id, distinct-filter p xs)

  contains-place :
      (a : QueueItem V) (xs : List (QueueItem V)) (j : String)
      → contains j (ids (place a xs)) ≡ (a.item_id == j || contains j (ids xs))
  unfolding place
  contains-place a [] j = refl
  contains-place a (b ∷ bs) j = ground (arith, contains-place a bs j)

  distinct-place :
      (a : QueueItem V) (xs : List (QueueItem V))
      → distinct (ids (a ∷ xs)) ≡ true
      → distinct (ids (place a xs)) ≡ true
  unfolding place
  distinct-place a [] d = refl
  distinct-place a (b ∷ bs) d = ground (
    arith,
    str_iff a.item_id b.item_id,
    str_iff b.item_id a.item_id,
    contains-place a bs b.item_id,
    distinct-place a bs,
  )

  contains-sort :
      (xs : List (QueueItem V)) (j : String)
      → contains j (ids (sort_ready xs)) ≡ contains j (ids xs)
  unfolding sort_ready
  contains-sort [] j = refl
  contains-sort (x ∷ xs) j = ground (arith, contains-place x (sort_ready xs) j, contains-sort xs j)

  distinct-sort :
      (xs : List (QueueItem V)) → distinct (ids xs) ≡ true → distinct (ids (sort_ready xs)) ≡ true
  unfolding sort_ready
  distinct-sort [] d = refl
  distinct-sort (x ∷ xs) d =
      ground (arith, contains-sort xs x.item_id, distinct-sort xs, distinct-place x (sort_ready xs))

  contains-take :
      (n : ℕ) (xs : List (QueueItem V)) (j : String)
      → contains j (ids (take n xs)) ≡ true
      → contains j (ids xs) ≡ true
  contains-take zero xs j h = ground arith
  contains-take (suc n) [] j h = h
  contains-take (suc n) (x ∷ xs) j h = ground (arith, contains-take n xs j)

  distinct-take :
      (n : ℕ) (xs : List (QueueItem V))
      → distinct (ids xs) ≡ true
      → distinct (ids (take n xs)) ≡ true
  distinct-take zero xs d = refl
  distinct-take (suc n) [] d = refl
  distinct-take (suc n) (x ∷ xs) d =
      ground (arith, contains-take n xs x.item_id, distinct-take n xs)

  -- The values of the items are named by their keys.
  ids-values :
      (m full : List (String × QueueItem V))
      → All (λ (e : String × QueueItem V). get full e.0 ≡ some e.1) m
      → ((j : String) → is_named j (get full j) ≡ true)
      → ids (values m) ≡ keys m
  ids-values [] full h n = refl
  ids-values ((k, v) ∷ m) full h n =
      ground (arith, n k, str_iff v.item_id k, h.0, ids-values m full h.1 n)

  All-values :
      (m full : List (String × QueueItem V))
      → All (λ (e : String × QueueItem V). get full e.0 ≡ some e.1) m
      → ((j : String) → is_named j (get full j) ≡ true)
      → All (λ (x : QueueItem V). get full x.item_id ≡ some x) (values m)
  All-values [] full h n = tt
  All-values ((k, v) ∷ m) full h n =
      (ground (arith, n k, str_iff v.item_id k, h.0), All-values m full h.1 n)

  -- What `claim` would lease.
  abbrev pub chosen : State V → String → ℕ → ℕ → List (QueueItem V)
  chosen s q now limit = take limit (sort_ready (filter (is_ready q now) (values s.items)))

  -- Every chosen item is in the state, as it is, and ready.
  pub chosen-All :
      (w : List String) (s : State V) (q : String) (now limit : ℕ)
      → Indexed w s
      → All
          (λ (x : QueueItem V). (get s.items x.item_id ≡ some x) × (is_ready q now x ≡ true))
          (chosen s q now limit)
  chosen-All w s q now limit v =
      let stands : QueueItem V → Type 0 = λ x. get s.items x.item_id ≡ some x in
      let holds : QueueItem V → Type 0 = λ x. stands x × (is_ready q now x ≡ true) in
      All-take holds limit (sort_ready (filter (is_ready q now) (values s.items))) (
        All-sort holds (filter (is_ready q now) (values s.items)) (
          All-filter stands (is_ready q now) (values s.items) (
            All-values s.items s.items (get-entries s.items s.items v.once (λ j c. refl)) v.named)))

  -- None is chosen twice.
  pub chosen-distinct :
      (w : List String) (s : State V) (q : String) (now limit : ℕ)
      → Indexed w s
      → distinct (ids (chosen s q now limit)) ≡ true
  chosen-distinct w s q now limit v =
      distinct-take limit (sort_ready (filter (is_ready q now) (values s.items))) (
        distinct-sort (filter (is_ready q now) (values s.items)) (
          distinct-filter (is_ready q now) (values s.items) (
            rw
              (ids-values s.items s.items (get-entries s.items s.items v.once (λ j c. refl))
                v.named)
              v.once)))
