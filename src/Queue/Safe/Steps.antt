-- ===== src/Queue/Safe/Steps.antt =====
-- The calls on a running item keep a sound queue sound and return.
use symbiotic_foundation.Base.{
  ℕ, String, Option, none, some, [], ◌∷◌, string_eq, ◌≡◌, ◌≢◌, refl, arith, Option-cases, inl, inr,
  get_or,
}
use symbiotic_foundation.Base.Int.{ℤ}
use symbiotic_foundation.Core.Diagnostics.{DiagnosticCode, invalid_configuration}
use symbiotic_foundation.Queue.Types.{invalid_request, Failure}
use symbiotic_foundation.Queue.State.{State}
use symbiotic_foundation.Queue.Reply.{MemoryQueue, pure, locked}
use symbiotic_foundation.Queue.Claim.{Clock, lease_deadline}
use symbiotic_foundation.Queue.Running.{update_running, beat, completing, failing, retry_time}
use symbiotic_foundation.Queue.Backend.{heartbeat, complete, fail_locked, fail, fail_with, as_i64}
use symbiotic_foundation.Queue.Inv.Update.{beat_lem, completing_lem, failing_lem}
use symbiotic_foundation.Queue.Safe.Rules.{
  IsSound, Fine, Works, emit-IsQuiet, pure-IsQuiet, locked-Fine, then-Fine, report-IsQuiet,
}
use symbiotic_foundation.Queue.Safe.Calls.{update-Works}

module _ {V : Type 0} where
  pub heartbeat-Fine :
      (add : ℕ → ℤ → Option ℕ) (c : Clock) (id worker : String) (seconds : ℕ) (q : MemoryQueue V)
      → IsSound q
      → Fine q.state (heartbeat add c id worker seconds q)
  unfolding heartbeat beat
  heartbeat-Fine add c id worker seconds q v =
      then-Fine q.state (locked (update_running id worker c.now (beat add id seconds c.now))) _ q
        (locked-Fine _ q v (
          update-Works id worker c.now (beat add id seconds c.now) q.state v.inv (λ item a f.
            elim (Option-cases (lease_deadline add c.now seconds)) [
              | inl d ↦ inr (invalid_request invalid_configuration, rw (d, beat) refl)
              | inr (until, d) ↦
                  inl
                    (_, beat_lem add id worker seconds c.now until q.state item v.inv.shaped a f d)
            ])))
        (λ item q'. emit-IsQuiet c.stamp ((item, none) ∷ []) q')

  pub complete-Fine :
      (c : Clock) (id worker : String) (q : MemoryQueue V)
      → IsSound q
      → Fine q.state (complete c id worker q)
  unfolding complete
  complete-Fine c id worker q v =
      then-Fine q.state (locked (update_running id worker c.now (completing id c.now))) _ q
        (locked-Fine _ q v (
          update-Works id worker c.now (completing id c.now) q.state v.inv
            (λ item a f. inl (_, completing_lem id worker c.now q.state item v.inv.shaped a f))))
        (λ item q'. emit-IsQuiet c.stamp ((item, none) ∷ []) q')

  fail_locked-Works :
      (add : ℕ → ℤ → Option ℕ) (c : Clock) (id worker : String) (failure : Failure) (s : State V)
      → Works s (update_running id worker c.now (failing add id failure c.now) s)
      → Works s (fail_locked add c id worker failure s)
  unfolding fail_locked
  fail_locked-Works add c id worker failure s w = ground arith

  pub fail_with-Fine :
      (add : ℕ → ℤ → Option ℕ) (c : Clock) (id worker : String) (failure : Failure) (time : ℕ)
      (q : MemoryQueue V)
      → IsSound q
      → retry_time add failure c.now ≡ some time
      → Fine q.state (fail_with add c id worker failure q)
  unfolding fail_with
  fail_with-Fine add c id worker failure time q v t =
      then-Fine q.state (locked (fail_locked add c id worker failure)) _ q
        (locked-Fine _ q v (
          fail_locked-Works add c id worker failure q.state (
            update-Works id worker c.now (failing add id failure c.now) q.state v.inv (λ item a f.
              inl (
                _,
                failing_lem add id worker failure c.now time q.state item v.inv.shaped a f t,
              )))))
        (λ r q'.
          report-IsQuiet c.stamp ((r.0, some failure.error) ∷ []) (pure r.1) q' (pure-IsQuiet r.1))

  pub fail-Fine :
      (add : ℕ → ℤ → Option ℕ) (called : ℕ) (c : Clock) (id worker : String)
      (error : DiagnosticCode) (seconds : Option ℕ) (q : MemoryQueue V)
      → IsSound q
      → add called (as_i64 (get_or seconds 1)) ≢ none
      → Fine q.state (fail add called c id worker error seconds q)
  unfolding fail
  fail-Fine add called c id worker error seconds q v t =
      elim (Option-cases (add called (as_i64 (get_or seconds 1)))) [
        | inl a ↦ absurd (t a)
        | inr (time, a) ↦ rw (a, fail) (fail_with-Fine add c id worker _ time q v refl)
      ]
