-- ===== src/Queue/Inv/Count.antt =====
-- Counting the running items: a list without repetition is no longer than one that covers it.
use symbiotic_foundation.Base.{
  ◌+◌, String, true, false, ◌||◌, List, [], ◌∷◌, ◌++◌, length, length-append, contains, delete,
  distinct, string_eq, str_iff, get, ◌≡◌, refl, ◌≤◌, arith, Bool-cases, inl, inr,
}
use symbiotic_foundation.Queue.State.{State, running_set, running_count}
use symbiotic_foundation.Queue.Inv.Defs.{runs_in, Indexed}
use symbiotic_foundation.Queue.Inv.Index.{contains-delete}
use symbiotic_foundation.Queue.Inv.Reclaim.{Stays}

length-delete-le : (a : String) (ys : List String) → length (delete a ys) ≤ length ys
length-delete-le a [] = omega arith
length-delete-le a (y ∷ ys) = ground (arith, length-delete-le a ys)

length-delete :
    (a : String) (ys : List String) → contains a ys ≡ true → length (delete a ys) + 1 ≤ length ys
length-delete a [] h = cc
length-delete a (y ∷ ys) h = ground (arith, length-delete a ys, length-delete-le a ys)

pub length-le_of_covered :
    (xs ys : List String)
    → distinct xs ≡ true
    → ((j : String) → contains j xs ≡ true → contains j ys ≡ true)
    → length xs ≤ length ys
length-le_of_covered [] ys d h = omega arith
length-le_of_covered (x ∷ xs) ys d h =
    let rest =
      length-le_of_covered xs (delete x ys) (ground arith)
        (λ j m. ground (arith, h j, contains-delete x j ys, str_iff x j)) in
    let fewer = length-delete x ys (h x (ground (arith, str_iff x x))) in omega (arith, rest, fewer)

pub contains-append :
    (j : String) (xs ys : List String) → contains j (xs ++ ys) ≡ (contains j xs || contains j ys)
contains-append j [] ys = refl
contains-append j (x ∷ xs) ys = ground (arith, contains-append j xs ys)

module _ {V : Type 0} where
  covered :
      (s t : State V) (q : String) (ids : List String) (j : String)
      → contains j (running_set s q) ≡ runs_in q (get s.items j)
      → contains j (running_set t q) ≡ runs_in q (get t.items j)
      → contains j (running_set t q) ≡ true
      → (contains j ids ≡ false → Stays s t j)
      → contains j (ids ++ running_set s q) ≡ true
  covered s t q ids j a b m stays = elim (Bool-cases (contains j ids)) [
    | inl i ↦ ground (arith, contains-append j ids (running_set s q))
    | inr i ↦ ground (arith, contains-append j ids (running_set s q), stays i)
  ]

  -- Only the ids listed can have joined the running items of a queue.
  pub running_count-le :
      (w w' : List String) (s t : State V) (q : String) (ids : List String)
      → Indexed w s
      → Indexed w' t
      → ((j : String) → contains j ids ≡ false → Stays s t j)
      → running_count t q ≤ length ids + running_count s q
  unfolding running_count
  running_count-le w w' s t q ids v v' stays = omega (
    arith,
    length-append ids (running_set s q),
    length-le_of_covered (running_set t q) (ids ++ running_set s q) (v'.runs_once q)
        (λ j m. covered s t q ids j (v.runs q j) (v'.runs q j) m (stays j)),
  )
