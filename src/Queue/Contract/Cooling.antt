-- ===== src/Queue/Contract/Cooling.antt =====
-- Cooldowns: `note_cooldown`, `cooldown_until`, and how they hold `claim` back.
use symbiotic_foundation.Base.{
  ℕ, String, true, false, Option, some, List, [], ◌++◌, max, ◌==◌, string_eq, if◌then◌else◌, get,
  insert, get-insert, get_or, is_blank, ◌≡◌, refl, sym, subst, ◌<◌, ◌≤◌, arith, Bool-cases, inl,
  inr, str_iff, str_refl, false,
}
use symbiotic_foundation.Base.Int.{ℤ}
use symbiotic_foundation.Queue.Types.{QueueItem, ClaimRequest}
use symbiotic_foundation.Queue.State.{State}
use symbiotic_foundation.Queue.Reply.{Reply, ok, of_outcome, MemoryQueue, ◌>>◌, pure, locked, emit}
use symbiotic_foundation.Queue.Claim.{Clock, lease_deadline, Claims, cooling, claim_locked}
use symbiotic_foundation.Queue.Backend.{
  claim, cooldown_until, note_cooldown, later_cooldown, lease_events, claim_events,
}
use symbiotic_foundation.Queue.Safe.Rules.{IsSound, locked-answers}

module _ {V : Type 0} where
  noted : (queue : String) (until : ℕ) (q : MemoryQueue V) → MemoryQueue V
  noted queue until q = record q {
    state = record q.state {
      cooldowns =
          insert q.state.cooldowns queue (later_cooldown (get q.state.cooldowns queue) until);
    };
  }

  -- On a queue whose lock is not poisoned, `note_cooldown` only ever extends the cooldown of its
  -- queue: `cooldown_until` then answers with the later of the old and the new end, and with what it
  -- answered before for every other queue.
  pub note_cooldown-cooldown_until :
      (queue other : String) (until : ℕ) (q : MemoryQueue V)
      → IsSound q
      → (cooldown_until other (note_cooldown queue until q).0).1
        ≡ ok (
            if queue == other
            then some (max (get_or (get q.state.cooldowns queue) 0) until)
            else get q.state.cooldowns other)
  unfolding note_cooldown cooldown_until locked
  note_cooldown-cooldown_until queue other until q v = ground (
    arith,
    v.unpoisoned,
    get-insert q.state.cooldowns queue other (later_cooldown (get q.state.cooldowns queue) until),
  )

  cooling_work :
      (request : ClaimRequest) (until : ℕ) (c : Clock) (s : State V)
      → cooling s request.queue_id c.cooldown_now ≡ true
      → Path
          (Reply (State V × Claims V))
          (of_outcome (claim_locked request until c s))
          (ok (s, record { reclaimed = []; claimed = [] }))
  unfolding claim_locked
  cooling_work request until c s h = rw (h, claim_locked) refl

  cooling_claim :
      (add : ℕ → ℤ → Option ℕ) (c : Clock) (request : ClaimRequest) (until end : ℕ)
      (q : MemoryQueue V)
      → q.poisoned ≡ false
      → is_blank request.worker_id ≡ false
      → lease_deadline add c.now request.lease_seconds ≡ some until
      → get q.state.cooldowns request.queue_id ≡ some end
      → c.cooldown_now < end
      → ((claim add c request q).1 ≡ ok []) × ((claim add c request q).0.state ≡ q.state)
  unfolding claim emit
  cooling_claim add c request until end q v b d g l = rw b (
      rw d (
        subst
          (λ (r : MemoryQueue V × Reply (List (QueueItem V))).
            (r.1 ≡ ok []) × (r.0.state ≡ q.state))
          (sym (
            locked-answers (λ s. of_outcome (claim_locked request until c s))
              (λ work.
                emit c.stamp (lease_events work.reclaimed ++ claim_events work.claimed)
                >> pure work.claimed)
              q q.state (record { reclaimed = []; claimed = [] }) v
              (cooling_work request until c q.state (ground arith))))
          (ground arith)))

  -- The end of the cooldown of `queue`.
  CoolsUntil : MemoryQueue V → String → ℕ → Type 0
  CoolsUntil q queue end =
      (q.poisoned ≡ false)
      × ((later : ℕ) × (get q.state.cooldowns queue ≡ some later) × (end ≤ later))

  note_cooldown-CoolsUntil :
      (queue : String) (end : ℕ) (q : MemoryQueue V)
      → q.poisoned ≡ false
      → CoolsUntil (note_cooldown queue end q).0 queue end
  unfolding note_cooldown locked CoolsUntil
  note_cooldown-CoolsUntil queue end q u =
      let later = later_cooldown (get q.state.cooldowns queue) end in
      rw u (
        refl,
        (
          later,
          ground (arith, get-insert q.state.cooldowns queue queue later, str_refl queue),
          ground arith,
        ),
      )

  CoolsUntil-kept :
      (queue other : String) (end until : ℕ) (q : MemoryQueue V)
      → CoolsUntil q queue end
      → CoolsUntil (note_cooldown other until q).0 queue end
  unfolding note_cooldown locked CoolsUntil
  CoolsUntil-kept queue other end until q (u, (now, g, l)) =
      let next = later_cooldown (get q.state.cooldowns other) until in
      elim (Bool-cases (other == queue)) [
        | inl e ↦ rw u (
          refl,
          (
            next,
            ground (arith, get-insert q.state.cooldowns other queue next),
            ground (arith, str_iff other queue),
          ),
        )
        | inr e ↦
            rw u (refl, (now, ground (arith, get-insert q.state.cooldowns other queue next), l))
      ]

  -- On a sound queue, once `note_cooldown` has noted an end, and whatever a second `note_cooldown`
  -- then notes, for this queue, earlier or later, or for another: a `claim` on the queue before that
  -- end, by a named worker with a deadline that chrono can express, answers with no item and leaves
  -- items, cooldowns and indices as they are.
  pub note_cooldown-claim :
      (add : ℕ → ℤ → Option ℕ) (c : Clock) (request : ClaimRequest) (until end next : ℕ)
      (other : String) (q : MemoryQueue V)
      → IsSound q
      → is_blank request.worker_id ≡ false
      → lease_deadline add c.now request.lease_seconds ≡ some until
      → c.cooldown_now < end
      → let r = (note_cooldown other next (note_cooldown request.queue_id end q).0).0 in
        ((claim add c request r).1 ≡ ok []) × ((claim add c request r).0.state ≡ r.state)
  unfolding CoolsUntil
  note_cooldown-claim add c request until end next other q v b d l =
      let r = (note_cooldown request.queue_id end q).0 in
      let (u, (later, g, far)) =
        CoolsUntil-kept request.queue_id other end next r
          (note_cooldown-CoolsUntil request.queue_id end q v.unpoisoned) in
      cooling_claim add c request until later (note_cooldown other next r).0 u b d g
        (omega (arith, l, far))
