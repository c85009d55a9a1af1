-- ===== src/Spend/Inv/Rows.antt =====
-- A call changes each receipt by a step, and steps keep the chains of attempts.
use symbiotic_foundation.Base.{
  ◌+◌, String, true, false, none, some, List, [], ◌∷◌, ◌==◌, nat_eq, string_eq, str_iff, is_some,
  ◌≡◌, refl, arith, Bool-cases, inl, inr, sym, subst, ◌∙◌,
}
use symbiotic_foundation.Base.Maybe.{option_eq}
use symbiotic_foundation.Spend.Store.{Row, Db, find, update, latest, is_active, is_unknown}
use symbiotic_foundation.Spend.Inv.Defs.{
  held, counted, attempts, is_below, is_proved, follows, IsAttempt, Chained, IsSound,
}

module _ {J : Type 0} where
  -- What any step of a call may change in a receipt: its accounting only while it is unknown.
  pub record IsStep (row new : Row J) : Type 0 where
    pub reference : new.reference ≡ row.reference
    pub account : new.account ≡ row.account
    pub invocation : new.invocation ≡ row.invocation
    pub binding : new.binding ≡ row.binding
    pub limit : new.attempt_limit ≡ row.attempt_limit
    pub reservation : new.reservation ≡ row.reservation
    pub state : is_unknown row ≡ false → new.state ≡ row.state
    pub usage : is_unknown row ≡ false → new.usage ≡ row.usage
    pub output : is_unknown row ≡ false → new.output ≡ row.output
    pub owned : is_some row.dispatch_owner ≡ true → new.dispatch_owner ≡ row.dispatch_owner
    pub counts : is_unknown row ≡ false → counted new ≡ counted row
    pub tally : new.attempts_used + counted row ≡ row.attempts_used + counted new
    pub below :
        is_below row.attempts_used row.attempt_limit ≡ true
        → is_below new.attempts_used new.attempt_limit ≡ true
    pub proved : is_proved row ≡ true → is_proved new ≡ true

  -- Each receipt has made a step.
  abbrev pub Steps : List (Row J) → List (Row J) → Type 0
  Steps [] [] = Unit
  Steps (x ∷ xs) (y ∷ ys) = IsStep x y × Steps xs ys
  Steps _ _ = true ≡ false

  find-Steps :
      (xs ys : List (Row J)) (r : String) → Steps xs ys → find xs r ≡ none → find ys r ≡ none
  unfolding find
  find-Steps [] [] r s h = refl
  find-Steps (x ∷ xs) (y ∷ ys) r s h = ground (arith, s.0.reference, find-Steps xs ys r s.1)
  find-Steps [] (y ∷ ys) r s h = ground arith
  find-Steps (x ∷ xs) [] r s h = ground arith

  active-Steps :
      (xs ys : List (Row J)) (a i : String)
      → Steps xs ys
      → is_active xs a i ≡ false
      → is_active ys a i ≡ false
  unfolding is_active
  active-Steps [] [] a i s h = refl
  active-Steps (x ∷ xs) (y ∷ ys) a i s h =
      ground (arith, s.0.account, s.0.invocation, s.0.state, active-Steps xs ys a i s.1)
  active-Steps [] (y ∷ ys) a i s h = ground arith
  active-Steps (x ∷ xs) [] a i s h = ground arith

  attempts-Steps :
      (xs ys : List (Row J)) (a i : String)
      → Steps xs ys
      → is_active xs a i ≡ false
      → attempts a i ys ≡ attempts a i xs
  unfolding is_active attempts
  attempts-Steps [] [] a i s h = refl
  attempts-Steps (x ∷ xs) (y ∷ ys) a i s h =
      ground (arith, s.0.account, s.0.invocation, s.0.counts, attempts-Steps xs ys a i s.1)
  attempts-Steps [] (y ∷ ys) a i s h = ground arith
  attempts-Steps (x ∷ xs) [] a i s h = ground arith

  follows-Steps :
      (row : Row J) (xs ys : List (Row J)) (a i : String)
      → Steps xs ys
      → follows row (latest xs a i) ≡ true
      → follows row (latest ys a i) ≡ true
  unfolding latest
  follows-Steps row [] [] a i s h = refl
  follows-Steps row (x ∷ xs) (y ∷ ys) a i s h =
      ground (
        arith,
        s.0.account,
        s.0.invocation,
        s.0.binding,
        s.0.limit,
        follows-Steps row xs ys a i s.1,
      )
  follows-Steps row [] (y ∷ ys) a i s h = ground arith
  follows-Steps row (x ∷ xs) [] a i s h = ground arith

  IsAttempt-Steps :
      (x y : Row J) (xs ys : List (Row J))
      → IsStep x y
      → Steps xs ys
      → IsAttempt x xs
      → IsAttempt y ys
  IsAttempt-Steps x y xs ys k s t = record {
    single = rw k.reference (find-Steps xs ys x.reference s t.single);
    alone = rw (k.account, k.invocation) (active-Steps xs ys x.account x.invocation s t.alone);
    tally =
        rw (k.account, k.invocation, attempts-Steps xs ys x.account x.invocation s t.alone)
          (ground (arith, k.tally, t.tally));
    below = k.below t.below;
    continues = ground (
      arith,
      k.account,
      k.invocation,
      k.binding,
      k.limit,
      t.continues,
      follows-Steps x xs ys x.account x.invocation s,
    );
    named = ground (arith, k.reservation, k.reference, k.account, k.invocation, k.binding, t.named);
    proved = k.proved t.proved;
  }

  pub Chained-Steps : (xs ys : List (Row J)) → Steps xs ys → Chained xs → Chained ys
  Chained-Steps [] [] s c = tt
  Chained-Steps (x ∷ xs) (y ∷ ys) s c =
      (IsAttempt-Steps x y xs ys s.0 s.1 c.0, Chained-Steps xs ys s.1 c.1)
  Chained-Steps [] (y ∷ ys) s c = ground arith
  Chained-Steps (x ∷ xs) [] s c = ground arith

  pub step_refl : (row : Row J) → IsStep row row
  step_refl row = record {
    reference = refl;
    account = refl;
    invocation = refl;
    binding = refl;
    limit = refl;
    reservation = refl;
    state = λ u. refl;
    usage = λ u. refl;
    output = λ u. refl;
    owned = λ o. refl;
    counts = λ u. refl;
    tally = refl;
    below = λ b. b;
    proved = λ p. p;
  }

  pub Steps-refl : (rows : List (Row J)) → Steps rows rows
  Steps-refl [] = tt
  Steps-refl (row ∷ rows) = (step_refl row, Steps-refl rows)

  pub find-reference :
      (rows : List (Row J)) (r : String) (row : Row J) → find rows r ≡ some row → row.reference ≡ r
  unfolding find
  find-reference [] r row h = ground arith
  find-reference (x ∷ rows) r row h =
      ground (arith, str_iff x.reference r, find-reference rows r row)

  pub update_none :
      (rows : List (Row J)) (r : String) (f : Row J → Row J)
      → find rows r ≡ none
      → update rows r f ≡ rows
  unfolding find update
  update_none [] r f h = refl
  update_none (x ∷ rows) r f h = ground (arith, update_none rows r f)

  pub find-here :
      (x : Row J) (xs : List (Row J)) (r : String) (row : Row J)
      → (x.reference == r) ≡ true
      → find (x ∷ xs) r ≡ some row
      → x ≡ row
  unfolding find
  find-here x xs r row e h = ground arith

  pub find-there :
      (x : Row J) (xs : List (Row J)) (r : String)
      → (x.reference == r) ≡ false
      → find (x ∷ xs) r ≡ find xs r
  unfolding find
  find-there x xs r e = ground arith

  update-rest :
      (x : Row J) (xs : List (Row J)) (r : String) (f : Row J → Row J)
      → (x.reference == r) ≡ true
      → find xs x.reference ≡ none
      → update xs r f ≡ xs
  update-rest x xs r f e h = update_none xs r f (rw (sym ((str_iff x.reference r).0 e)) h)

  -- References are unique, so that an update changes the receipt that is found and no other.
  pub update-Steps :
      (rows : List (Row J)) (r : String) (f : Row J → Row J) (row : Row J)
      → Chained rows
      → find rows r ≡ some row
      → IsStep row (f row)
      → Steps rows (update rows r f)
  unfolding update
  update-Steps [] r f row c h k = tt
  update-Steps (x ∷ xs) r f row c h k = elim (Bool-cases (x.reference == r)) [
    | inl e ↦
        rw (e, update-rest x xs r f e c.0.single)
          (subst (λ y. IsStep y (f y)) (sym (find-here x xs r row e h)) k, Steps-refl xs)
    | inr ne ↦ rw ne (step_refl x, update-Steps xs r f row c.1 (sym (find-there x xs r ne) ∙ h) k)
  ]

  pub held-update :
      (rows : List (Row J)) (r : String) (f : Row J → Row J) (row : Row J) (a : String)
      → Chained rows
      → find rows r ≡ some row
      → held a (update rows r f) + held a (row ∷ []) ≡ held a rows + held a (f row ∷ [])
  unfolding find update held
  held-update [] r f row a c h = ground arith
  held-update (x ∷ xs) r f row a c h =
      ground
        (arith, str_iff x.reference r, c.0.single, update_none xs r f, held-update xs r f row a c.1)

  -- The tables before and after a call.
  pub record Advances (db left : Db J) : Type 0 where
    pub steps : Steps db.receipts left.receipts
    pub sound : IsSound left
