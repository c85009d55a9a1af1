-- ===== src/Spend/Contract/Batches.antt =====
-- One batch of `expire_recovery`: distinct receipts, all of them expired.
use symbiotic_foundation.Base.{
  ℕ, zero, suc, String, Bool, true, false, ◌||◌, some, List, [], ◌∷◌, ◌==◌, string_eq, str_iff,
  contains, distinct, take, filter, is_empty, is_some, ◌≡◌, refl, sym, ◌∙◌, arith,
}
use symbiotic_foundation.Spend.Store.{Row, find}
use symbiotic_foundation.Spend.Recovery.{is_expired, place_due, sort_due, references, batch}
use symbiotic_foundation.Spend.Inv.Defs.{Chained}

module _ {J : Type 0} where
  pub find-contains :
      (rows : List (Row J)) (r : String) → is_some (find rows r) ≡ contains r (references rows)
  unfolding find
  find-contains [] r = refl
  find-contains (x ∷ xs) r = ground (arith, find-contains xs r)

  references-distinct : (rows : List (Row J)) → Chained rows → distinct (references rows) ≡ true
  references-distinct [] c = refl
  references-distinct (x ∷ xs) c =
      ground (arith, c.0.single, find-contains xs x.reference, references-distinct xs c.1)

  pub contains-filter :
      (p : Row J → Bool) (xs : List (Row J)) (r : String)
      → contains r (references (filter p xs)) ≡ true
      → contains r (references xs) ≡ true
  contains-filter p [] r h = h
  contains-filter p (x ∷ xs) r h = ground (arith, contains-filter p xs r)

  distinct-filter :
      (p : Row J → Bool) (xs : List (Row J))
      → distinct (references xs) ≡ true
      → distinct (references (filter p xs)) ≡ true
  distinct-filter p [] d = refl
  distinct-filter p (x ∷ xs) d =
      ground (arith, contains-filter p xs x.reference, distinct-filter p xs)

  contains-place :
      (a : Row J) (xs : List (Row J)) (r : String)
      → contains r (references (place_due a xs)) ≡ (a.reference == r || contains r (references xs))
  unfolding place_due
  contains-place a [] r = refl
  contains-place a (b ∷ bs) r = ground (arith, contains-place a bs r)

  distinct-place :
      (a : Row J) (xs : List (Row J))
      → distinct (references (a ∷ xs)) ≡ true
      → distinct (references (place_due a xs)) ≡ true
  unfolding place_due
  distinct-place a [] d = refl
  distinct-place a (b ∷ bs) d = ground (
    arith,
    str_iff a.reference b.reference,
    str_iff b.reference a.reference,
    contains-place a bs b.reference,
    distinct-place a bs,
  )

  contains-sort :
      (xs : List (Row J)) (r : String)
      → contains r (references (sort_due xs)) ≡ contains r (references xs)
  unfolding sort_due
  contains-sort [] r = refl
  contains-sort (x ∷ xs) r = ground (arith, contains-place x (sort_due xs) r, contains-sort xs r)

  distinct-sort :
      (xs : List (Row J))
      → distinct (references xs) ≡ true
      → distinct (references (sort_due xs)) ≡ true
  unfolding sort_due
  distinct-sort [] d = refl
  distinct-sort (x ∷ xs) d =
      ground (arith, contains-sort xs x.reference, distinct-sort xs, distinct-place x (sort_due xs))

  contains-take :
      (n : ℕ) (xs : List (Row J)) (r : String)
      → contains r (references (take n xs)) ≡ true
      → contains r (references xs) ≡ true
  contains-take zero xs r h = ground arith
  contains-take (suc n) [] r h = h
  contains-take (suc n) (x ∷ xs) r h = ground (arith, contains-take n xs r)

  distinct-take :
      (n : ℕ) (xs : List (Row J))
      → distinct (references xs) ≡ true
      → distinct (references (take n xs)) ≡ true
  distinct-take zero xs d = refl
  distinct-take (suc n) [] d = refl
  distinct-take (suc n) (x ∷ xs) d =
      ground (arith, contains-take n xs x.reference, distinct-take n xs)

  -- The receipts of a batch are distinct, and each is one of an expired receipt.
  pub batch-distinct :
      (now : ℕ) (rows : List (Row J)) → Chained rows → distinct (batch now rows) ≡ true
  unfolding batch
  batch-distinct now rows c = distinct-take 64 (sort_due (filter (is_expired now) rows)) (
      distinct-sort (filter (is_expired now) rows)
        (distinct-filter (is_expired now) rows (references-distinct rows c)))

  pub batch-contains :
      (now : ℕ) (rows : List (Row J)) (r : String)
      → contains r (batch now rows) ≡ true
      → contains r (references (filter (is_expired now) rows)) ≡ true
  unfolding batch
  batch-contains now rows r h =
      sym (contains-sort (filter (is_expired now) rows) r)
      ∙ contains-take 64 (sort_due (filter (is_expired now) rows)) r h

  pub expired-found :
      (now : ℕ) (rows : List (Row J)) (r : String) (row : Row J)
      → Chained rows
      → find rows r ≡ some row
      → contains r (references (filter (is_expired now) rows)) ≡ true
      → is_expired now row ≡ true
  unfolding find
  expired-found now [] r row c f h = ground arith
  expired-found now (x ∷ xs) r row c f h = ground (
    arith,
    str_iff x.reference r,
    c.0.single,
    find-contains xs r,
    contains-filter (is_expired now) xs r,
    expired-found now xs r row c.1,
  )

  -- A batch is empty only where nothing has expired.
  place-nonempty : (a : Row J) (xs : List (Row J)) → is_empty (place_due a xs) ≡ false
  unfolding place_due
  place-nonempty a [] = refl
  place-nonempty a (b ∷ bs) = ground arith

  taken-nonempty :
      (xs : List (Row J)) → is_empty xs ≡ false → is_empty (references (take 64 xs)) ≡ false
  taken-nonempty [] h = h
  taken-nonempty (x ∷ xs) h = refl

  expired-nonempty :
      (xs : List (Row J))
      → is_empty xs ≡ false
      → is_empty (references (take 64 (sort_due xs))) ≡ false
  unfolding sort_due
  expired-nonempty [] h = h
  expired-nonempty (x ∷ xs) h =
      taken-nonempty (place_due x (sort_due xs)) (place-nonempty x (sort_due xs))

  pub batch-empty :
      (now : ℕ) (rows : List (Row J))
      → is_empty (batch now rows) ≡ true
      → is_empty (filter (is_expired now) rows) ≡ true
  unfolding batch
  batch-empty now rows h = ground (arith, expired-nonempty (filter (is_expired now) rows))
