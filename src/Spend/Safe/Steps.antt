-- ===== src/Spend/Safe/Steps.antt =====
-- Each call keeps the tables sound, and every receipt in them.
use symbiotic_foundation.Base.{
  ℕ, String, Bool, true, false, Option, none, some, Key, ◌≡◌, refl, arith, Bool-cases, Option-cases,
  inl, inr, sym, subst, is_some,
}
use symbiotic_foundation.Spend.Result.{Result, ok, ◌>>=◌, Result-cases}
use symbiotic_foundation.Spend.Types.{SpendState, AcceptedSpendHandoff, UsageTrace}
use symbiotic_foundation.Spend.Store.{Row, Db, find, update, receipt_in, receipt_of}
use symbiotic_foundation.Spend.Finish.{finish_in, release_in}
use symbiotic_foundation.Spend.Recovery.{World, save_recovery_in, expire_recovery, purge_recovery}
use symbiotic_foundation.Spend.Calls.{
  SqliteSpendLedger, transact, unit_of, swapped, reserve, reserve_explicit, release_before_dispatch,
  is_free, own, take_handoff, acquire_in, acquire_handoff, finish, discard, purge, expire,
  refuses_handoff,
}
use symbiotic_foundation.Spend.Histories.{
  Call, reserves, reserves_explicit, reserves_handoff, acquires, releases, finishes, discards,
  purges, constrains, expires, step,
}
use symbiotic_foundation.Spend.Inv.Defs.{IsSound}
use symbiotic_foundation.Spend.Inv.Settling.{finish_in-Advances}
use symbiotic_foundation.Spend.Inv.Releasing.{release_in-Advances, quiet-Advances}
use symbiotic_foundation.Spend.Inv.Rows.{IsStep}
use symbiotic_foundation.Spend.Inv.Growing.{
  Grows, Grows-refl, Grows-trans, Advances-Grows, reserve-Grows,
}
use symbiotic_foundation.Spend.Inv.Answers.{
  reserve_handoff-Grows, constrain-Grows, discard-Grows, purge-Grows, expire-Grows,
  save_recovery-Grows,
}

transact-Grows :
    {J A : Type 0} (work : Db J → Result (A × Db J)) (l : SqliteSpendLedger J)
    → IsSound l.db
    → ((a : A) (left : Db J) → work l.db ≡ ok (a, left) → Grows l.db left)
    → Grows l.db (transact work l).0.db
unfolding transact
transact-Grows work l v g = elim (Bool-cases l.poisoned) [
  | inl p ↦ rw p (Grows-refl l.db v)
  | inr p ↦ elim (Result-cases (work l.db)) [
    | inl (x, r) ↦ rw (p, r) (Grows-refl l.db v)
    | inr ((a, left), r) ↦ rw (p, r) (g a left r)
  ]
]

-- The same for work that answers with the tables alone.
transact_unit-Grows :
    {J : Type 0} (work : Db J → Result (Db J)) (l : SqliteSpendLedger J)
    → IsSound l.db
    → ((left : Db J) → work l.db ≡ ok left → Grows l.db left)
    → Grows l.db (transact (λ db. unit_of (work db)) l).0.db
transact_unit-Grows work l v g =
    transact-Grows (λ db. unit_of (work db)) l v
      (λ a left h. elim (Result-cases (work l.db)) [
        | inl (x, r) ↦ ground (arith, r)
        | inr (db, r) ↦ g left (ground (arith, r))
      ])

module _ {J : Type 0} where
  own-step :
      (owner : String) (row : Row J)
      → is_some row.dispatch_owner ≡ false
      → IsStep row (own owner row)
  own-step owner row n = record {
    reference = refl;
    account = refl;
    invocation = refl;
    binding = refl;
    limit = refl;
    reservation = refl;
    state = λ k. refl;
    usage = λ k. refl;
    output = λ k. refl;
    owned = λ o. ground arith;
    counts = λ k. refl;
    tally = refl;
    below = λ b. b;
    proved = λ p. p;
  }

  -- What `acquire_in` has found when it answers.
  pub record Acquires (now : ℕ) (db left : Db J) (h : AcceptedSpendHandoff)
      (account input owner : String) (row : Row J) : Type 0 where
    pub found : find db.receipts h.reservation.reference ≡ some row
    pub accepted : refuses_handoff (receipt_of now row) h account input owner ≡ false
    pub free : is_free row input ≡ true
    pub taken :
        left ≡ record db { receipts = update db.receipts h.reservation.reference (own owner) }

  pub acquire_in-Acquires :
      (now : ℕ) (db left : Db J) (h : AcceptedSpendHandoff) (account input owner : String)
      → acquire_in now db h account input owner ≡ ok left
      → (row : Row J) × Acquires now db left h account input owner row
  unfolding acquire_in take_handoff receipt_in
  acquire_in-Acquires now db left h account input owner k =
      elim (Option-cases (find db.receipts h.reservation.reference)) [
        | inl n ↦ ground arith
        | inr (row, f) ↦ (
          row,
          record { found = f; accepted = ground arith; free = ground arith; taken = ground arith },
        )
      ]

  is_free-unowned :
      (row : Row J) (input : String) → is_free row input ≡ true → is_some row.dispatch_owner ≡ false
  unfolding is_free
  is_free-unowned row input h = ground arith

  acquire-Grows :
      (now : ℕ) (db left : Db J) (h : AcceptedSpendHandoff) (account input owner : String)
      → IsSound db
      → acquire_in now db h account input owner ≡ ok left
      → Grows db left
  acquire-Grows now db left h account input owner v k =
      let (row, a) = acquire_in-Acquires now db left h account input owner k in
      subst (λ l. Grows db l) (sym a.taken)
        (Advances-Grows db
          (record db { receipts = update db.receipts h.reservation.reference (own owner) })
          (quiet-Advances db h.reservation.reference row (own owner) v a.found
            (own-step owner row (is_free-unowned row input a.free)) refl))

module _ {J : Type 0} ⦃e : Key J⦄ where
  finish-Grows :
      (evidence : J) (w : World) (seen now : ℕ) (db left : Db J) (reference : String)
      (state : SpendState) (usage : Option UsageTrace) (output : Option J) (retention : ℕ)
      (invocation : Option String)
      → IsSound db
      → (save_recovery_in evidence w seen db reference output retention none invocation now
          >>= λ saved. finish_in evidence seen saved reference state usage output)
        ≡ ok left
      → Grows db left
  finish-Grows evidence w seen now db left reference state usage output retention invocation v h =
      elim (Result-cases
        (save_recovery_in evidence w seen db reference output retention none invocation now)) [
          | inl (x, r) ↦ ground (arith, r)
          | inr (saved, r) ↦
              let g =
                save_recovery-Grows evidence w seen db saved reference output retention none
                  invocation now v r in
              Grows-trans db saved left g (
                Advances-Grows saved left (
                  finish_in-Advances evidence seen saved left reference state usage output g.sound
                    (ground (arith, r))))
        ]

  purge_swapped-Grows :
      (matches : J → Result Bool) (db left : Db J) (count : ℕ)
      → IsSound db
      → swapped (purge_recovery matches db) ≡ ok (count, left)
      → Grows db left
  purge_swapped-Grows matches db left count v h = elim (Result-cases (purge_recovery matches db)) [
    | inl (x, r) ↦ ground (arith, r)
    | inr ((saved, removed), r) ↦ purge-Grows matches db left removed v (ground (arith, r))
  ]

  expires-Grows :
      (evidence : J) (w : World) (now : ℕ) (l : SqliteSpendLedger J)
      → IsSound l.db
      → Grows l.db (step evidence w (expires now) l).db
  unfolding step expire
  expires-Grows evidence w now l v = elim (Bool-cases l.poisoned) [
    | inl p ↦ rw (p, step, expire) (Grows-refl l.db v)
    | inr p ↦ elim (Option-cases (expire_recovery now l.db)) [
      | inl n ↦ rw (p, n, step, expire) (Grows-refl l.db v)
      | inr ((db, removed), r) ↦ rw (p, r, step, expire) (expire-Grows now l.db db removed v r)
    ]
  ]

  pub step-Grows :
      (evidence : J) (w : World) (c : Call J) (l : SqliteSpendLedger J)
      → IsSound l.db
      → Grows l.db (step evidence w c l).db
  unfolding step reserve reserve_explicit acquire_handoff release_before_dispatch finish discard
      purge
  step-Grows evidence w (reserves now r) l v =
      transact-Grows _ l v (λ b left h. reserve-Grows now l.db left r none false b v h)
  step-Grows evidence w (reserves_explicit now r limit) l v =
      transact-Grows _ l v (λ b left h. reserve-Grows now l.db left r (some limit) false b v h)
  step-Grows evidence w (reserves_handoff now h) l v =
      transact-Grows _ l v (λ b left k. reserve_handoff-Grows now l.db left h b v k)
  step-Grows evidence w (acquires now h account input_identity owner) l v =
      transact_unit-Grows (λ db. acquire_in now db h account input_identity owner) l v
        (λ left k. acquire-Grows now l.db left h account input_identity owner v k)
  step-Grows evidence w (releases now reference) l v =
      transact_unit-Grows (λ db. release_in evidence now db reference) l v
        (λ left h.
          Advances-Grows l.db left (release_in-Advances evidence now l.db left reference v h))
  step-Grows evidence w (finishes seen now reference state usage output invocation) l v =
      transact_unit-Grows
        (λ db.
          save_recovery_in evidence w seen db reference output l.retention none invocation now
          >>= λ saved. finish_in evidence seen saved reference state usage output)
        l v
        (λ left h.
          finish-Grows evidence w seen now l.db left reference state usage output l.retention
            invocation v h)
  step-Grows evidence w (discards account invocation) l v = transact-Grows _ l v (λ a left h.
      subst (λ m. Grows l.db m) (ground arith) (discard-Grows l.db account invocation v))
  step-Grows evidence w (purges matches) l v =
      transact-Grows _ l v (λ count left h. purge_swapped-Grows matches l.db left count v h)
  step-Grows evidence w (constrains reference invocation now) l v =
      transact-Grows _ l v
        (λ policy left h. constrain-Grows w l.db left reference invocation now policy v h)
  step-Grows evidence w (expires now) l v = expires-Grows evidence w now l v
