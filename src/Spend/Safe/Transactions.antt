-- ===== src/Spend/Safe/Transactions.antt =====
-- A transaction answers what its work answers, and keeps nothing of work that fails.
use symbiotic_foundation.Base.{
  Bool, true, false, not, ◌&&◌, if◌then◌else◌, ◌≡◌, sym, ap, ◌∙◌, Bool-cases, inl, inr, arith,
}
use symbiotic_foundation.Model.Errors.{ModelError}
use symbiotic_foundation.Spend.Result.{Result, ok, err, storage, Result-cases, is_ok}
use symbiotic_foundation.Spend.Store.{Db}
use symbiotic_foundation.Spend.Calls.{SqliteSpendLedger, committed, transact, unit_of}

choose-false : {B : Type 0} (b : Bool) (x y : B) → b ≡ false → (if b then x else y) ≡ y
choose-false b x y h = ground arith

choose-true : {B : Type 0} (b : Bool) (x y : B) → b ≡ true → (if b then x else y) ≡ x
choose-true b x y h = ground arith

ok-inj : {A : Type 0} (a b : A) → ok a ≡ ok b → a ≡ b
ok-inj a b h = ground arith

module _ {J A : Type 0} (work : Db J → Result (A × Db J)) (l : SqliteSpendLedger J) where
  pub transact-live : l.poisoned ≡ false → transact work l ≡ committed l (work l.db)
  unfolding transact
  transact-live p = choose-false l.poisoned (l, err storage) (committed l (work l.db)) p

  pub transact-ok :
      (a : A) (left : Db J)
      → l.poisoned ≡ false
      → work l.db ≡ ok (a, left)
      → transact work l ≡ (record l { db = left }, ok a)
  transact-ok a left p h = transact-live p ∙ ap (λ r. committed l r) h

  pub transact-err :
      (e : ModelError) → l.poisoned ≡ false → work l.db ≡ err e → transact work l ≡ (l, err e)
  transact-err e p h = transact-live p ∙ ap (λ r. committed l r) h

  pub transact-poisoned : l.poisoned ≡ true → transact work l ≡ (l, err storage)
  unfolding transact
  transact-poisoned p = choose-true l.poisoned (l, err storage) (committed l (work l.db)) p

  -- An answer of the transaction is one of its work.
  pub transact-answered :
      (a : A)
      → (transact work l).1 ≡ ok a
      → (left : Db J) × (l.poisoned ≡ false)
        × (work l.db ≡ ok (a, left))
        × (transact work l ≡ (record l { db = left }, ok a))
  transact-answered a h = elim (Bool-cases l.poisoned) [
    | inl p ↦ ground (arith, ap (λ x. x.1) (transact-poisoned p))
    | inr p ↦ elim (Result-cases (work l.db)) [
      | inl (x, r) ↦ ground (arith, ap (λ y. y.1) (transact-err x p r))
      | inr ((b, left), r) ↦
          let same = ok-inj b a (sym (ap (λ x. x.1) (transact-ok b left p r)) ∙ h) in
          (
            left,
            p,
            r ∙ ap (λ c. ok (c, left)) same,
            transact-ok b left p r ∙ ap (λ c. (record l { db = left }, ok c)) same,
          )
    ]
  ]

pub transact-granted :
    {J A : Type 0} (work : Db J → Result (A × Db J)) (l : SqliteSpendLedger J)
    → is_ok (transact work l).1 ≡ (not l.poisoned && is_ok (work l.db))
transact-granted work l = elim (Bool-cases l.poisoned) [
  | inl p ↦ ground (arith, ap (λ x. is_ok x.1) (transact-poisoned work l p))
  | inr p ↦ elim (Result-cases (work l.db)) [
    | inl (x, r) ↦ ground (arith, ap (λ y. is_ok y.1) (transact-err work l x p r))
    | inr ((a, left), r) ↦ ground (arith, ap (λ y. is_ok y.1) (transact-ok work l a left p r))
  ]
]

pub unit_of-ok :
    {J : Type 0} (r : Result (Db J)) (left : Db J) → unit_of r ≡ ok (tt, left) → r ≡ ok left
unit_of-ok (ok db) left h = ground arith
unit_of-ok (err e) left h = ground arith
