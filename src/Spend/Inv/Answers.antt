-- ===== src/Spend/Inv/Answers.antt =====
-- Saved answers, handoffs and their deadlines stand beside the accounting.
use symbiotic_foundation.Base.{
  ℕ, ◌+◌, String, Bool, true, false, Option, none, some, List, [], ◌∷◌, ◌==◌, string_eq, Key,
  contains, ◌≡◌, refl, arith, Bool-cases, Option-cases, inl, inr, sym, subst, ◌∙◌, zero, suc,
  length, filter, is_some, is_empty, ◌||◌,
}
use symbiotic_foundation.Base.Maybe.{option_eq}
use symbiotic_foundation.Spend.Result.{Result, ok, Result-cases}
use symbiotic_foundation.Spend.Types.{AcceptedSpendHandoff, SpendReceipt}
use symbiotic_foundation.Spend.Store.{Row, Db, find, update, latest, receipt_in, receipt_of}
use symbiotic_foundation.Spend.Reserve.{reserve_with_limit_in, bind_handoff, reserve_handoff_in}
use symbiotic_foundation.Spend.Recovery.{
  World, clear, is_due, narrow, narrowed, job_recovery_policy, constrain_job_recovery_in,
  save_until, save_first, save_output, save_recovery_in, is_expired, batch, clear_each, expire_loop,
  expire_recovery, discard_recovery, matching, clear_all, purge_recovery, until_of, earlier,
}
use symbiotic_foundation.Spend.Inv.Defs.{held, IsSound}
use symbiotic_foundation.Spend.Inv.Rows.{step_refl, Steps, Chained-Steps}
use symbiotic_foundation.Spend.Inv.Growing.{
  Grows, Grows-refl, Grows-trans, Advances-Grows, reserve-Grows, quiet-Grows, noted-step,
  clear-step, cleared-Grows,
}

module _ {J : Type 0} where
  handed-Grows :
      (db : Db J) (reference input : String)
      → IsSound db
      → Grows db (record db {
        receipts = update db.receipts reference (λ row. record row { handoff_input = some input });
      })
  handed-Grows db reference input v =
      quiet-Grows db reference (λ row. record row { handoff_input = some input }) v
        (λ row. (noted-step (some input) row.recovery row.recovery_expires_at row, refl))

  bind_handoff-Grows :
      (db left : Db J) (h : AcceptedSpendHandoff) (b c : Bool)
      → IsSound db
      → bind_handoff h (c, db) ≡ ok (b, left)
      → Grows db left
  unfolding bind_handoff
  bind_handoff-Grows db left h b true v k =
      subst (λ l. Grows db l) (ground arith)
        (handed-Grows db h.reservation.reference h.input_identity v)
  bind_handoff-Grows db left h b false v k =
      subst (λ l. Grows db l) (ground arith) (Grows-refl db v)

  pub reserve_handoff-Grows :
      (now : ℕ) (db left : Db J) (h : AcceptedSpendHandoff) (b : Bool)
      → IsSound db
      → reserve_handoff_in now db h ≡ ok (b, left)
      → Grows db left
  unfolding reserve_handoff_in
  reserve_handoff-Grows now db left h b v k =
      elim (Result-cases (reserve_with_limit_in now db h.reservation none true)) [
        | inl (x, e) ↦ ground arith
        | inr ((c, middle), e) ↦
            let g = reserve-Grows now db middle h.reservation none true c v e in
            Grows-trans db middle left g
              (bind_handoff-Grows middle left h b c g.sound (ground arith))
      ]

  narrow-Grows :
      (db : Db J) (reference : String) (prohibited : Bool) (deadline : Option ℕ) (now : ℕ)
      → IsSound db
      → Grows db (record db { receipts = narrow db.receipts reference prohibited deadline now })
  unfolding narrow
  narrow-Grows db reference prohibited none now v = elim (Bool-cases prohibited) [
    | inl p ↦ rw p (cleared-Grows db reference v)
    | inr p ↦ rw p (Grows-refl db v)
  ]
  narrow-Grows db reference prohibited (some until) now v =
      elim (Bool-cases (prohibited || is_due now (some until))) [
        | inl p ↦ rw p (cleared-Grows db reference v)
        | inr p ↦ rw p (
            quiet-Grows db reference (λ row. record row { recovery_expires_at = some until }) v
              (λ row. (noted-step row.handoff_input row.recovery (some until) row, refl)))
      ]

  pub constrain-Grows :
      (w : World) (db left : Db J) (reference invocation : String) (now : ℕ)
      (policy : Bool × Option ℕ)
      → IsSound db
      → constrain_job_recovery_in w db reference invocation now ≡ ok (policy, left)
      → Grows db left
  unfolding constrain_job_recovery_in
  constrain-Grows w db left reference invocation now policy v h =
      elim (Option-cases (find db.receipts reference)) [
        | inl n ↦ ground arith
        | inr (row, f) ↦
            elim (Result-cases (job_recovery_policy w (some invocation) row.invocation)) [
              | inl (x, e) ↦ ground arith
              | inr ((prohibited, deadline), e) ↦
                  subst (λ l. Grows db l) (ground arith)
                    (narrow-Grows db reference prohibited
                      (narrowed row.recovery_expires_at deadline) now v)
            ]
      ]

  save_first-Grows :
      (w : World) (db left : Db J) (reference : String) (value : J) (retention now : ℕ)
      (erased : Bool) (deadline : Option ℕ)
      → IsSound db
      → save_first w db reference value retention now erased deadline ≡ ok left
      → Grows db left
  unfolding save_first
  save_first-Grows w db left reference value retention now erased deadline v h =
      elim (Option-cases (w.add_duration now retention)) [
        | inl n ↦ ground arith
        | inr (expires, e) ↦ elim (Bool-cases (erased || is_due now deadline)) [
          | inl p ↦ subst (λ l. Grows db l) (ground arith) (Grows-refl db v)
          | inr p ↦
              let until = until_of deadline expires in
              subst (λ l. Grows db l) (ground arith)
                (quiet-Grows db reference (save_until value until) v
                  (λ row. (noted-step row.handoff_input (some value) (some until) row, refl)))
        ]
      ]

  -- Clearing answers, some at once.
  pub clear_each-Steps :
      (cleared : List String) (rows : List (Row J)) → Steps rows (clear_each cleared rows)
  unfolding clear_each
  clear_each-Steps cleared [] = tt
  clear_each-Steps cleared (row ∷ rows) = elim (Bool-cases (contains row.reference cleared)) [
    | inl c ↦ rw c (clear-step row, clear_each-Steps cleared rows)
    | inr c ↦ rw c (step_refl row, clear_each-Steps cleared rows)
  ]

  held-clear_each :
      (a : String) (cleared : List String) (rows : List (Row J))
      → held a (clear_each cleared rows) ≡ held a rows
  unfolding held clear_each
  held-clear_each a cleared [] = refl
  held-clear_each a cleared (row ∷ rows) = ground (arith, held-clear_each a cleared rows)

  pub clear_each-Grows :
      (db : Db J) (cleared : List String)
      → IsSound db
      → Grows db (record db { receipts = clear_each cleared db.receipts })
  clear_each-Grows db cleared v =
      let steps = clear_each-Steps cleared db.receipts in
      Advances-Grows db (record db { receipts = clear_each cleared db.receipts })
        (record {
          steps = steps;
          sound = record {
            chained = Chained-Steps db.receipts (clear_each cleared db.receipts) steps v.chained;
            balanced = λ a. v.balanced a ∙ sym (held-clear_each a cleared db.receipts);
            bounded = v.bounded;
          };
        })

  pub discard-Grows :
      (db : Db J) (account invocation : String)
      → IsSound db
      → Grows db (discard_recovery db account invocation)
  unfolding discard_recovery
  discard-Grows db account invocation v =
      elim (Option-cases (latest db.receipts account invocation)) [
        | inl n ↦ rw (n, discard_recovery) (Grows-refl db v)
        | inr (row, f) ↦ rw (f, discard_recovery) (cleared-Grows db row.reference v)
      ]

  clear_all-Grows :
      (selected : List String) (db : Db J) (removed : ℕ)
      → IsSound db
      → Grows db (record db { receipts = (clear_all selected db.receipts removed).0 })
  unfolding clear_all
  clear_all-Grows [] db removed v = Grows-refl db v
  clear_all-Grows (reference ∷ rest) db removed v =
      let g = cleared-Grows db reference v in
      let middle = record db { receipts = update db.receipts reference clear } in
      let count = removed + elim (find db.receipts reference) [ none ↦ 0 | some _ ↦ 1 ] in
      Grows-trans db middle (record db { receipts = (clear_all rest middle.receipts count).0 }) g
        (clear_all-Grows rest middle count g.sound)

  pub purge-Grows :
      (matches : J → Result Bool) (db left : Db J) (removed : ℕ)
      → IsSound db
      → purge_recovery matches db ≡ ok (left, removed)
      → Grows db left
  unfolding purge_recovery
  purge-Grows matches db left removed v h = elim (Result-cases (matching matches db.receipts)) [
    | inl (x, e) ↦ ground arith
    | inr (selected, e) ↦ subst (λ l. Grows db l) (ground arith) (clear_all-Grows selected db 0 v)
  ]

  expire_loop-Grows :
      (turns now : ℕ) (db : Db J) (removed : ℕ) (rows : List (Row J)) (count : ℕ)
      → IsSound db
      → expire_loop turns now db.receipts removed ≡ some (rows, count)
      → Grows db (record db { receipts = rows })
  unfolding expire_loop
  expire_loop-Grows zero now db removed rows count v h = ground arith
  expire_loop-Grows (suc turns) now db removed rows count v h =
      let cleared = batch now db.receipts in
      let g = clear_each-Grows db cleared v in
      elim (Bool-cases (is_empty cleared)) [
        | inl c ↦ subst (λ l. Grows db (record db { receipts = l })) (ground arith) g
        | inr c ↦
            let middle = record db { receipts = clear_each cleared db.receipts } in
            Grows-trans db middle (record db { receipts = rows }) g
              (expire_loop-Grows turns now middle (removed + length cleared) rows count g.sound
                (ground arith))
      ]

  pub expire-Grows :
      (now : ℕ) (db left : Db J) (count : ℕ)
      → IsSound db
      → expire_recovery now db ≡ some (left, count)
      → Grows db left
  unfolding expire_recovery
  expire-Grows now db left count v h =
      elim (Option-cases
        (expire_loop (suc (length (filter (is_expired now) db.receipts))) now db.receipts 0)) [
          | inl n ↦ ground arith
          | inr ((rows, c), e) ↦
              subst (λ l. Grows db l) (ground arith)
                (expire_loop-Grows (suc (length (filter (is_expired now) db.receipts))) now db 0
                  rows c v e)
        ]

module _ {J : Type 0} ⦃e : Key J⦄ where
  save_output-Grows :
      (w : World) (db left : Db J) (reference : String) (value : J) (retention now : ℕ)
      (old : SpendReceipt J) (erased : Bool) (deadline : Option ℕ)
      → IsSound db
      → save_output w db reference value retention now old erased deadline ≡ ok left
      → Grows db left
  unfolding save_output
  save_output-Grows w db left reference value retention now old erased deadline v h =
      elim (Bool-cases (is_some old.attempt_limit)) [
        | inr l ↦ subst (λ l. Grows db l) (ground arith) (Grows-refl db v)
        | inl l ↦ elim (Bool-cases (is_some old.output)) [
          | inr o ↦
              save_first-Grows w db left reference value retention now erased deadline v
                (ground arith)
          | inl o ↦ subst (λ l. Grows db l) (ground arith) (Grows-refl db v)
        ]
      ]

  pub save_recovery-Grows :
      (evidence : J) (w : World) (seen : ℕ) (db left : Db J) (reference : String)
      (output : Option J) (retention : ℕ) (deadline : Option ℕ) (invocation : Option String)
      (now : ℕ)
      → IsSound db
      → save_recovery_in evidence w seen db reference output retention deadline invocation now
        ≡ ok left
      → Grows db left
  unfolding save_recovery_in receipt_in
  save_recovery-Grows evidence w seen db left reference none retention deadline invocation now v h =
      elim (Option-cases (find db.receipts reference)) [
        | inl n ↦ ground arith
        | inr (row, f) ↦
            elim (Result-cases (job_recovery_policy w invocation row.reservation.invocation)) [
              | inl (x, p) ↦ ground arith
              | inr (policy, p) ↦ subst (λ l. Grows db l) (ground arith) (Grows-refl db v)
            ]
      ]
  save_recovery-Grows evidence w seen db left reference (some value) retention deadline invocation
        now v h =
      elim (Bool-cases (value == evidence)) [
        | inl q ↦ subst (λ l. Grows db l) (ground arith) (Grows-refl db v)
        | inr q ↦ elim (Option-cases (find db.receipts reference)) [
          | inl n ↦ ground arith
          | inr (row, f) ↦
              elim (Result-cases (job_recovery_policy w invocation row.reservation.invocation)) [
                | inl (x, p) ↦ ground arith
                | inr ((erased, job_deadline), p) ↦
                    save_output-Grows w db left reference value retention now (receipt_of seen row)
                      erased (earlier deadline job_deadline) v (ground arith)
              ]
        ]
      ]
