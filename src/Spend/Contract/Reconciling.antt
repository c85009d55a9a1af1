-- ===== src/Spend/Contract/Reconciling.antt =====
-- `finish_in` settles once, and repeating it changes nothing.
use symbiotic_foundation.Base.{
  ℕ, ◌+◌, String, true, false, ◌&&◌, Option, none, some, List, Key, ◌==◌, nat_eq, string_eq,
  is_some, if◌then◌else◌, ◌≡◌, refl, arith, inl, inr, sym, subst, ap, ◌∙◌,
}
use symbiotic_foundation.Base.Int.{int_eq}
use symbiotic_foundation.Base.Maybe.{option_eq, option_beq_iff}
use symbiotic_foundation.Spend.Result.{ok}
use symbiotic_foundation.Spend.Types.{
  SpendState, unknown, released, settled, same_state, UsageTrace, same_usage, SpendReceipt,
}
use symbiotic_foundation.Spend.Store.{Row, Db, find, update, is_unknown, receipt_in, receipt_of}
use symbiotic_foundation.Spend.Finish.{
  same_usages, refund, lacks_evidence, kept_output, is_repeat, write_settlement, settle, finish_in,
}
use symbiotic_foundation.Spend.Inv.Defs.{used_of, IsSound}
use symbiotic_foundation.Spend.Inv.Settling.{
  returned, refund-used, settled_row, Finishes, finish_in-Finishes, settle-inv, written-inv,
  row-account,
}
use symbiotic_foundation.Spend.Inv.Releasing.{update-update}
use symbiotic_foundation.Spend.Contract.Handoffs.{find-update}

same_state-eq : (s t : SpendState) → same_state s t ≡ true → s ≡ t
same_state-eq unknown unknown h = refl
same_state-eq released released h = refl
same_state-eq settled settled h = refl
same_state-eq unknown released h = ground arith
same_state-eq unknown settled h = ground arith
same_state-eq released unknown h = ground arith
same_state-eq released settled h = ground arith
same_state-eq settled unknown h = ground arith
same_state-eq settled released h = ground arith

same_state_refl : (s : SpendState) → same_state s s ≡ true
same_state_refl unknown = refl
same_state_refl released = refl
same_state_refl settled = refl

key_refl : {A : Type 0} ⦃e : Key A⦄ (a : A) → (a == a) ≡ true
key_refl ⦃e⦄ a = (e.same_iff a a).1 refl

same_usages_refl : (u : Option UsageTrace) → same_usages u u ≡ true
unfolding same_usage
same_usages_refl none = refl
same_usages_refl (some u) = ground (
  arith,
  key_refl u.cache_hit_tokens,
  key_refl u.cache_miss_tokens,
  key_refl u.response_id,
  key_refl u.served_model,
  key_refl u.created,
  key_refl u.input_tokens,
  key_refl u.output_tokens,
  key_refl u.reasoning_tokens,
  key_refl u.media_units,
  key_refl u.cost_micro_usd,
  key_refl u.reported_cost_usd,
)

module _ {J : Type 0} where
  kept-again :
      (later : ℕ) (evidence : J) (output : Option J) (st : SpendState) (usage : Option UsageTrace)
      (old : SpendReceipt J) (row : Row J)
      → kept_output evidence output
          (receipt_of later (settled_row st usage (kept_output evidence output old) row))
        ≡ kept_output evidence output old
  kept-again later evidence none st usage old row = refl
  kept-again later evidence (some o) st usage old row = refl

  lacks-later :
      (now later : ℕ) (st : SpendState) (usage : Option UsageTrace) (row : Row J)
      (output : Option J)
      → lacks_evidence st usage (receipt_of now row) output ≡ false
      → lacks_evidence st usage (receipt_of later row) output ≡ false
  unfolding lacks_evidence
  lacks-later now later st usage row output h = h

  kept-later :
      (evidence : J) (now later : ℕ) (row : Row J) (output : Option J)
      → kept_output evidence output (receipt_of now row)
        ≡ kept_output evidence output (receipt_of later row)
  kept-later evidence now later row none = refl
  kept-later evidence now later row (some o) = refl

  kept-is :
      (evidence : J) (output : Option J) (old : SpendReceipt J)
      → kept_output evidence output old ≡ (if is_some output then some evidence else old.output)
  kept-is evidence none old = refl
  kept-is evidence (some o) old = refl

  settled-used :
      (db left : Db J) (accounts : List (String × ℕ)) (st : SpendState) (row : Row J)
      (receipts : List (Row J)) (a : String)
      → is_unknown row ≡ true
      → row.reservation.account ≡ row.account
      → left ≡ record { accounts = accounts; receipts = receipts }
      → refund db.accounts st row.reservation.account ≡ ok accounts
      → used_of left.accounts a + (if is_unknown row && row.account == a then returned st else 0)
        ≡ used_of db.accounts a
  settled-used db left accounts st row receipts a u n eq r = ground (
    arith,
    refund-used db.accounts accounts st row.reservation.account a r,
    ap (λ d. used_of d.accounts a) eq,
  )

  lacks-again :
      (later : ℕ) (evidence : J) (output : Option J) (st : SpendState) (usage : Option UsageTrace)
      (old : SpendReceipt J) (row : Row J)
      → lacks_evidence st usage old output ≡ false
      → lacks_evidence st usage
          (receipt_of later (settled_row st usage (kept_output evidence output old) row))
          output
        ≡ false
  unfolding lacks_evidence
  lacks-again later evidence none st usage old row h = ground arith
  lacks-again later evidence (some o) st usage old row h = ground arith

module _ {J : Type 0} ⦃e : Key J⦄ where
  -- What `finish_in` leaves of the receipt `row`.
  pub record Settled (evidence : J) (db left : Db J) (reference : String) (st : SpendState)
      (output : Option J) (row : Row J) : Type 0 where
    pub before : find db.receipts reference ≡ some row
    pub new : Row J
    pub after : find left.receipts reference ≡ some new
    pub state : new.state ≡ st
    pub output_is : new.output ≡ (if is_some output then some evidence else row.output)
    pub used :
        (a : String)
        → used_of left.accounts a + (if is_unknown row && row.account == a then returned st else 0)
          ≡ used_of db.accounts a

  settle-repeats :
      (later : ℕ) (db left : Db J) (reference : String) (st : SpendState)
      (usage : Option UsageTrace) (kept : Option J) (row : Row J) (accounts : List (String × ℕ))
      → left ≡ record {
        accounts = accounts;
        receipts = update db.receipts reference (settled_row st usage kept);
      }
      → settle left (receipt_of later (settled_row st usage kept row)) reference st usage kept
        ≡ ok left
  unfolding settle write_settlement is_repeat refund
  settle-repeats later db left reference unknown usage kept row accounts eq =
      subst
        (λ m.
          settle m (receipt_of later (settled_row unknown usage kept row)) reference unknown usage
            kept
          ≡ ok m)
        (sym eq)
        (ap (λ rows. ok (record { accounts = accounts; receipts = rows }))
          (update-update db.receipts reference (settled_row unknown usage kept)
            (settled_row unknown usage kept) (λ x. refl)))
  settle-repeats later db left reference released usage kept row accounts eq =
      ground (arith, same_usages_refl usage, key_refl kept)
  settle-repeats later db left reference settled usage kept row accounts eq =
      ground (arith, same_usages_refl usage, key_refl kept)

  found-again :
      (evidence : J) (later : ℕ) (left : Db J) (reference : String) (st : SpendState)
      (usage : Option UsageTrace) (output : Option J) (row : Row J)
      → find left.receipts reference ≡ some row
      → lacks_evidence st usage (receipt_of later row) output ≡ false
      → settle left
          (receipt_of later row)
          reference
          st
          usage
          (kept_output evidence output (receipt_of later row))
        ≡ ok left
      → finish_in evidence later left reference st usage output ≡ ok left
  unfolding finish_in receipt_in
  found-again evidence later left reference st usage output row f l s = ground arith

  written-Settled :
      (evidence : J) (now later : ℕ) (db left : Db J) (reference : String) (st : SpendState)
      (usage : Option UsageTrace) (output : Option J) (row : Row J)
      → IsSound db
      → Finishes now db left reference st usage evidence output row
      → is_unknown row ≡ true
      → write_settlement db
          (receipt_of now row)
          reference
          st
          usage
          (kept_output evidence output (receipt_of now row))
        ≡ ok left
      → Settled evidence db left reference st output row
        × (finish_in evidence later left reference st usage output ≡ ok left)
  written-Settled evidence now later db left reference st usage output row v c u h =
      let kept = kept_output evidence output (receipt_of now row) in
      let (accounts, r, eq) = written-inv db left (receipt_of now row) reference st usage kept h in
      let named = row-account db.receipts reference row v.chained c.found in
      let after =
        ap (λ d. find d.receipts reference) eq
        ∙ find-update db.receipts reference (settled_row st usage kept) row (λ x. refl) c.found in
      (
        record {
          before = c.found;
          new = settled_row st usage kept row;
          after = after;
          state = refl;
          output_is = kept-is evidence output (receipt_of now row);
          used = λ a.
              settled-used db left accounts st row
                (update db.receipts reference (settled_row st usage kept)) a u named eq r;
        },
        found-again evidence later left reference st usage output (settled_row st usage kept row)
            after (lacks-again later evidence output st usage (receipt_of now row) row c.proved)
            (subst
              (λ k.
                settle left (receipt_of later (settled_row st usage kept row)) reference st usage k
                ≡ ok left)
              (sym (kept-again later evidence output st usage (receipt_of now row) row))
              (settle-repeats later db left reference st usage kept row accounts eq)),
      )

  repeat-state :
      (old : SpendReceipt J) (st : SpendState) (usage : Option UsageTrace) (kept : Option J)
      → is_repeat old st usage kept ≡ true
      → old.state ≡ st
  unfolding is_repeat
  repeat-state old st usage kept h = same_state-eq old.state st (ground arith)

  repeat-output :
      (old : SpendReceipt J) (st : SpendState) (usage : Option UsageTrace) (kept : Option J)
      → is_repeat old st usage kept ≡ true
      → old.output ≡ kept
  unfolding is_repeat
  repeat-output old st usage kept h = (option_beq_iff old.output kept).0 (ground arith)

  kept-repeats :
      (now later : ℕ) (left : Db J) (reference : String) (st : SpendState)
      (usage : Option UsageTrace) (kept : Option J) (row : Row J)
      → is_unknown row ≡ false
      → is_repeat (receipt_of now row) st usage kept ≡ true
      → settle left (receipt_of later row) reference st usage kept ≡ ok left
  unfolding settle is_repeat
  kept-repeats now later left reference st usage kept row u r = ground arith

  kept-Settled :
      (evidence : J) (now later : ℕ) (db left : Db J) (reference : String) (st : SpendState)
      (usage : Option UsageTrace) (output : Option J) (row : Row J)
      → Finishes now db left reference st usage evidence output row
      → is_unknown row ≡ false
      → left ≡ db
      → is_repeat (receipt_of now row) st usage (kept_output evidence output (receipt_of now row))
        ≡ true
      → Settled evidence db left reference st output row
        × (finish_in evidence later left reference st usage output ≡ ok left)
  kept-Settled evidence now later db left reference st usage output row c u eq r =
      let kept = kept_output evidence output (receipt_of now row) in
      (
        record {
          before = c.found;
          new = row;
          after = ap (λ d. find d.receipts reference) eq ∙ c.found;
          state = repeat-state (receipt_of now row) st usage kept r;
          output_is =
              repeat-output (receipt_of now row) st usage kept r
              ∙ kept-is evidence output (receipt_of now row);
          used = λ a. ground (arith, u, ap (λ d. used_of d.accounts a) eq);
        },
        found-again evidence later left reference st usage output row
            (ap (λ d. find d.receipts reference) eq ∙ c.found)
            (lacks-later now later st usage row output c.proved)
            (subst (λ k. settle left (receipt_of later row) reference st usage k ≡ ok left)
              (kept-later evidence now later row output)
              (kept-repeats now later left reference st usage kept row u r)),
      )

  found-Settled :
      (evidence : J) (now later : ℕ) (db left : Db J) (reference : String) (st : SpendState)
      (usage : Option UsageTrace) (output : Option J) (row : Row J)
      → IsSound db
      → Finishes now db left reference st usage evidence output row
      → Settled evidence db left reference st output row
        × (finish_in evidence later left reference st usage output ≡ ok left)
  found-Settled evidence now later db left reference st usage output row v c =
      elim (settle-inv db left (receipt_of now row) reference st usage
        (kept_output evidence output (receipt_of now row)) c.settles) [
          | inl (u, h) ↦
              written-Settled evidence now later db left reference st usage output row v c u h
          | inr (u, eq, r) ↦
              kept-Settled evidence now later db left reference st usage output row c u eq r
        ]

  pub finished-Settled :
      (evidence : J) (now later : ℕ) (db left : Db J) (reference : String) (st : SpendState)
      (usage : Option UsageTrace) (output : Option J)
      → IsSound db
      → finish_in evidence now db reference st usage output ≡ ok left
      → ((row : Row J) × Settled evidence db left reference st output row)
        × (finish_in evidence later left reference st usage output ≡ ok left)
  finished-Settled evidence now later db left reference st usage output v h =
      let (row, c) = finish_in-Finishes evidence now db left reference st usage output h in
      let (s, again) = found-Settled evidence now later db left reference st usage output row v c in
      ((row, s), again)
