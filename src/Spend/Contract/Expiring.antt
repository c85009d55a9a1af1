-- ===== src/Spend/Contract/Expiring.antt =====
-- `expire_recovery` ends, and its batches amount to clearing every expired answer at once.
use symbiotic_foundation.Base.{
  ℕ, zero, suc, ◌+◌, ◌<◌, String, true, false, some, List, [], ◌∷◌, string_eq, str_iff, str_refl,
  contains, distinct, length, filter, is_empty, if◌then◌else◌, ◌≡◌, refl, arith, Bool-cases, inl,
  inr, sym, ◌∙◌,
}
use symbiotic_foundation.Spend.Store.{Row, Db, find}
use symbiotic_foundation.Spend.Recovery.{
  clear, is_expired, references, batch, clear_each, expire_loop, expire_recovery,
}
use symbiotic_foundation.Spend.Inv.Defs.{Chained, IsSound}
use symbiotic_foundation.Spend.Inv.Rows.{Chained-Steps}
use symbiotic_foundation.Spend.Inv.Answers.{clear_each-Steps}
use symbiotic_foundation.Spend.Contract.Batches.{
  find-contains, contains-filter, batch-distinct, batch-contains, expired-found, batch-empty,
}

empty-length : {A : Type 0} (xs : List A) → is_empty xs ≡ true → length xs ≡ 0
empty-length [] h = refl
empty-length (x ∷ xs) h = ground arith

nonempty-length : {A : Type 0} (xs : List A) → is_empty xs ≡ false → 0 < length xs
nonempty-length [] h = ground arith
nonempty-length (x ∷ xs) h = omega arith

module _ {J : Type 0} where
  -- The expired answers, cleared in one pass over the receipts.
  abbrev pub clear_expired : ℕ → List (Row J) → List (Row J)
  clear_expired now [] = []
  clear_expired now (row ∷ rows) =
      (if is_expired now row then clear row else row) ∷ clear_expired now rows

  abbrev pub expired_count : ℕ → List (Row J) → ℕ
  expired_count now rows = length (filter (is_expired now) rows)

  -- Every receipt whose reference is in `cleared` has expired.
  abbrev Covers : ℕ → List String → List (Row J) → Type 0
  Covers now cleared rows =
      (r : String) (row : Row J)
      → find rows r ≡ some row
      → contains r cleared ≡ true
      → is_expired now row ≡ true

  Covers-head :
      (now : ℕ) (cleared : List String) (x : Row J) (xs : List (Row J))
      → Covers now cleared (x ∷ xs)
      → contains x.reference cleared ≡ true
      → is_expired now x ≡ true
  unfolding find
  Covers-head now cleared x xs k c = k x.reference x (ground (arith, str_refl x.reference)) c

  Covers-tail :
      (now : ℕ) (cleared : List String) (x : Row J) (xs : List (Row J))
      → Chained (x ∷ xs)
      → Covers now cleared (x ∷ xs)
      → Covers now cleared xs
  unfolding find
  Covers-tail now cleared x xs c k r row f h =
      k r row (ground (arith, c.0.single, str_iff x.reference r)) h

  clear_expired-each :
      (now : ℕ) (cleared : List String) (rows : List (Row J))
      → Chained rows
      → Covers now cleared rows
      → clear_expired now (clear_each cleared rows) ≡ clear_expired now rows
  unfolding clear_each
  clear_expired-each now cleared [] c k = refl
  clear_expired-each now cleared (x ∷ xs) c k = ground (
    arith,
    Covers-head now cleared x xs k,
    clear_expired-each now cleared xs c.1 (Covers-tail now cleared x xs c k),
  )

  abbrev matched : List String → List (Row J) → ℕ
  matched cleared rows = length (filter (λ row. contains row.reference cleared) rows)

  expired_count-each :
      (now : ℕ) (cleared : List String) (rows : List (Row J))
      → Chained rows
      → Covers now cleared rows
      → expired_count now (clear_each cleared rows) + matched cleared rows ≡ expired_count now rows
  unfolding clear_each
  expired_count-each now cleared [] c k = refl
  expired_count-each now cleared (x ∷ xs) c k = ground (
    arith,
    Covers-head now cleared x xs k,
    expired_count-each now cleared xs c.1 (Covers-tail now cleared x xs c k),
  )

  matched_none : (rows : List (Row J)) → matched [] rows ≡ 0
  matched_none [] = refl
  matched_none (x ∷ xs) = matched_none xs

  matched_one :
      (rows : List (Row J)) (r : String)
      → Chained rows
      → matched (r ∷ []) rows ≡ (if contains r (references rows) then 1 else 0)
  matched_one [] r c = refl
  matched_one (x ∷ xs) r c = ground (
    arith,
    c.0.single,
    str_iff x.reference r,
    str_iff r x.reference,
    find-contains xs x.reference,
    matched_one xs r c.1,
  )

  matched_more :
      (r : String) (cleared : List String) (rows : List (Row J))
      → contains r cleared ≡ false
      → matched (r ∷ cleared) rows ≡ matched (r ∷ []) rows + matched cleared rows
  matched_more r cleared [] h = refl
  matched_more r cleared (x ∷ xs) h =
      ground (arith, str_iff r x.reference, matched_more r cleared xs h)

  -- Distinct references of receipts match as many receipts.
  matched-length :
      (cleared : List String) (rows : List (Row J))
      → Chained rows
      → distinct cleared ≡ true
      → ((r : String) → contains r cleared ≡ true → contains r (references rows) ≡ true)
      → matched cleared rows ≡ length cleared
  matched-length [] rows c d k = matched_none rows
  matched-length (r ∷ cleared) rows c d k = ground (
    arith,
    matched_one rows r c,
    matched_more r cleared rows,
    k r (ground (arith, str_refl r)),
    matched-length cleared rows c (ground arith) (λ s h. k s (ground arith)),
  )

  -- What one batch does: it clears that many expired answers.
  batch-Covers : (now : ℕ) (rows : List (Row J)) → Chained rows → Covers now (batch now rows) rows
  batch-Covers now rows c r row f h = expired-found now rows r row c f (batch-contains now rows r h)

  batch-length :
      (now : ℕ) (rows : List (Row J))
      → Chained rows
      → expired_count now (clear_each (batch now rows) rows) + length (batch now rows)
        ≡ expired_count now rows
  batch-length now rows c = omega (
    arith,
    expired_count-each now (batch now rows) rows c (batch-Covers now rows c),
    matched-length (batch now rows) rows c (batch-distinct now rows c)
        (λ r h. contains-filter (is_expired now) rows r (batch-contains now rows r h)),
  )

  none_expired :
      (now : ℕ) (rows : List (Row J)) → expired_count now rows ≡ 0 → clear_expired now rows ≡ rows
  none_expired now [] h = refl
  none_expired now (x ∷ xs) h = ground (arith, none_expired now xs)

  last-batch :
      (now : ℕ) (rows : List (Row J))
      → Chained rows
      → is_empty (batch now rows) ≡ true
      → (clear_each (batch now rows) rows ≡ clear_expired now rows)
        × (expired_count now rows ≡ 0)
        × (length (batch now rows) ≡ 0)
  last-batch now rows c h =
      let none_left = empty-length (filter (is_expired now) rows) (batch-empty now rows h) in
      let b = empty-length (batch now rows) h in
      (
        sym (
              none_expired now (clear_each (batch now rows) rows)
                (omega (arith, batch-length now rows c)))
            ∙ clear_expired-each now (batch now rows) rows c (batch-Covers now rows c),
        none_left,
        b,
      )

  expire_loop-ends :
      (turns now : ℕ) (rows : List (Row J)) (removed : ℕ)
      → Chained rows
      → expired_count now rows < turns
      → expire_loop turns now rows removed
        ≡ some (clear_expired now rows, removed + expired_count now rows)
  unfolding expire_loop
  expire_loop-ends zero now rows removed c h = ground arith
  expire_loop-ends (suc turns) now rows removed c h =
      let left = clear_each (batch now rows) rows in
      elim (Bool-cases (is_empty (batch now rows))) [
        | inl b ↦ let (same, n, z) = last-batch now rows c b in rw b (ground (arith, same))
        | inr b ↦ rw b (
            expire_loop-ends turns now left (removed + length (batch now rows))
              (Chained-Steps rows left (clear_each-Steps (batch now rows) rows) c)
              (omega (arith, batch-length now rows c, nonempty-length (batch now rows) b))
            ∙ ground (
              arith,
              clear_expired-each now (batch now rows) rows c (batch-Covers now rows c),
              batch-length now rows c,
            ))
      ]

  -- On sound tables `expire_recovery` ends within one turn more than there are expired answers, and
  -- its batches amount to one pass: every answer that has expired is cleared, nothing else changes,
  -- and the answer is how many there were.
  pub expire_recovery-ends :
      (now : ℕ) (db : Db J)
      → IsSound db
      → expire_recovery now db
        ≡ some
            (record db { receipts = clear_expired now db.receipts }, expired_count now db.receipts)
  unfolding expire_recovery
  expire_recovery-ends now db v =
      rw
        (
          expire_loop-ends (suc (expired_count now db.receipts)) now db.receipts 0 v.chained
              (omega arith),
          expire_recovery,
        )
        (ground arith)
