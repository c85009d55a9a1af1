-- ===== src/Queue/Safe/Histories.antt =====
-- Every admissible call, and so every history of them, keeps the queue sound and never panics.
use symbiotic_foundation.Base.{
  ℕ, String, Bool, true, false, Option, none, some, get, string_eq, ◌≡◌, refl, arith, Bool-cases,
  Option-cases, inl, inr, ◌⊎◌, sym, subst, ◌==◌, str_iff,
}
use symbiotic_foundation.Base.Int.{ℤ}
use symbiotic_foundation.Queue.Types.{QueueItem}
use symbiotic_foundation.Queue.State.{State, is_terminal}
use symbiotic_foundation.Queue.Reply.{Reply, MemoryQueue}
use symbiotic_foundation.Queue.Running.{retry_time}
use symbiotic_foundation.Queue.Backend.{enqueue, enqueue_replacing, with_terminal_retention}
use symbiotic_foundation.Queue.Calls.{
  is_panic, Call, enqueues, replaces, claims, claims_item, gets, beats, completes, fails_with,
  fails, reclaims, asks_cooldown, notes_cooldown, step, Admissible, History, start, call,
}
use symbiotic_foundation.Queue.Inv.Evolves.{Evolves-ended}
use symbiotic_foundation.Queue.Safe.Rules.{IsSound, Advances, moves, adds, cools, Fine}
use symbiotic_foundation.Queue.Safe.Calls.{
  enqueue_inner-Fine, note_cooldown-Fine, get_item-Fine, cooldown_until-Fine, reclaim-Fine,
  claim-Fine, claim_item-Fine,
}
use symbiotic_foundation.Queue.Safe.Steps.{heartbeat-Fine, complete-Fine, fail_with-Fine, fail-Fine}

module _ {V : Type 0} where
  -- The step returns without a panic, in a sound queue, having advanced.
  pub record Steps (s : State V) (r : MemoryQueue V × Bool) : Type 0 where
    pub sound : IsSound r.0
    pub advances : Advances s r.0.state
    pub calm : r.1 ≡ false

  stepped :
      {A : Type 0} (s : State V) (r : MemoryQueue V × Reply A)
      → Fine s r
      → Steps s (r.0, is_panic r.1)
  stepped s r f = record { sound = f.sound; advances = f.advances; calm = f.calm }

  pub step_lem :
      (add : ℕ → ℤ → Option ℕ) (k : Call V) (q : MemoryQueue V)
      → IsSound q
      → Admissible add q k
      → Steps q.state (step add k q)
  unfolding step enqueue enqueue_replacing
  step_lem add (enqueues c id request) q v a =
      stepped q.state _ (enqueue_inner-Fine c id request none q v a)
  step_lem add (replaces c id request current) q v a =
      stepped q.state _
        (enqueue_inner-Fine c id (record request { force = true }) (some current) q v a)
  step_lem add (claims c request) q v a = stepped q.state _ (claim-Fine add c request q v)
  step_lem add (claims_item c id worker seconds limit) q v a =
      stepped q.state _ (claim_item-Fine add c id worker seconds limit q v)
  step_lem add (gets id) q v a = stepped q.state _ (get_item-Fine id q v)
  step_lem add (beats c id worker seconds) q v a =
      stepped q.state _ (heartbeat-Fine add c id worker seconds q v)
  step_lem add (completes c id worker) q v a = stepped q.state _ (complete-Fine c id worker q v)
  step_lem add (fails_with c id worker failure) q v a =
      elim (Option-cases (retry_time add failure c.now)) [
        | inl t ↦ absurd (a t)
        | inr (time, t) ↦ stepped q.state _ (fail_with-Fine add c id worker failure time q v t)
      ]
  step_lem add (fails called c id worker error seconds) q v a =
      stepped q.state _ (fail-Fine add called c id worker error seconds q v a)
  step_lem add (reclaims c queue) q v a = stepped q.state _ (reclaim-Fine c queue q v)
  step_lem add (asks_cooldown queue) q v a = stepped q.state _ (cooldown_until-Fine queue q v)
  step_lem add (notes_cooldown queue until) q v a =
      stepped q.state _ (note_cooldown-Fine queue until q v)

  -- The empty queue is sound.
  pub empty-IsSound : (retain : ℕ) → IsSound (with_terminal_retention {V = V} retain)
  unfolding with_terminal_retention get
  empty-IsSound retain = record {
    inv = record {
      shaped = record {
        indexed = record {
          once = refl;
          named = λ id. refl;
          runs = λ q id. refl;
          runs_once = λ q. refl;
          ended = λ id. refl;
          ended_once = refl;
          keyed = λ key. refl;
        };
        bounded = ground arith;
        retains = ground arith;
      };
      leased = λ id. refl;
    };
    unpoisoned = refl;
  }

  History-IsSound :
      (add : ℕ → ℤ → Option ℕ) (q r : MemoryQueue V) → IsSound q → History add q r → IsSound r
  History-IsSound add q _ v start = v
  History-IsSound add q _ v (call {r = r} h k a) =
      (step_lem add k r (History-IsSound add q r v h) a).sound

  -- A queue made by `with_terminal_retention` is sound after any history of admissible calls: its
  -- running index and terminal window mirror its items, every entry of the idempotency index names
  -- an item with that key, the window is within the retention, exactly the running items hold leases,
  -- no attempt is beyond the budget, and the lock is not poisoned.
  pub every_history-IsSound :
      (add : ℕ → ℤ → Option ℕ) (retain : ℕ) (r : MemoryQueue V)
      → History add (with_terminal_retention retain) r
      → IsSound r
  every_history-IsSound add retain r h = History-IsSound add _ r (empty-IsSound retain) h

  -- After any history of admissible calls on a queue made by `with_terminal_retention`, no
  -- admissible call panics.
  pub no_call_panics :
      (add : ℕ → ℤ → Option ℕ) (retain : ℕ) (r : MemoryQueue V) (k : Call V)
      → History add (with_terminal_retention retain) r
      → Admissible add r k
      → (step add k r).1 ≡ false
  no_call_panics add retain r k h a =
      (step_lem add k r (every_history-IsSound add retain r h) a).calm

  Advances-ended :
      (s t : State V) (id : String) (old : QueueItem V)
      → Advances s t
      → get s.items id ≡ some old
      → is_terminal old.status ≡ true
      → (get t.items id ≡ some old) ⊎ (get t.items id ≡ none)
  Advances-ended s t id old (moves e) at h = Evolves-ended id old e (inl at) h
  Advances-ended s t id old (adds m item fresh e a) at h = elim (Bool-cases (item.item_id == id)) [
    | inl same ↦ absurd (ground (arith, str_iff item.item_id id))
    | inr ne ↦ elim (Evolves-ended id old e (inl at) h) [
      | inl stays ↦ ground (arith, a.other id ne)
      | inr gone ↦ ground (arith, a.other id ne)
    ]
  ]
  Advances-ended s t id old (cools c e) at h =
      inl (subst (λ (u : State V). get u.items id ≡ some old) (sym e) at)

  -- On a sound queue, no admissible call changes an item that has succeeded, died or been stopped:
  -- afterwards it is as it ended or has been forgotten.
  pub ended_item_settled :
      (add : ℕ → ℤ → Option ℕ) (k : Call V) (q : MemoryQueue V) (id : String) (old : QueueItem V)
      → IsSound q
      → Admissible add q k
      → get q.state.items id ≡ some old
      → is_terminal old.status ≡ true
      → (get (step add k q).0.state.items id ≡ some old)
        ⊎ (get (step add k q).0.state.items id ≡ none)
  ended_item_settled add k q id old v a at h =
      Advances-ended q.state _ id old (step_lem add k q v a).advances at h
