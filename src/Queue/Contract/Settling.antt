-- ===== src/Queue/Contract/Settling.antt =====
-- `heartbeat`, `complete` and `fail_with` for the worker that holds the lease, and for all others.
use symbiotic_foundation.Base.{
  ℕ, String, Bool, true, false, ◌&&◌, Option, none, some, List, [], ◌∷◌, ltb, leb, ◌==◌, string_eq,
  if◌then◌else◌, get, ◌≡◌, refl, sym, arith, Bool-cases, Option-cases, inl, inr, ◌⊎◌, is_some,
  subst, ◌∙◌,
}
use symbiotic_foundation.Base.Int.{ℤ, pos}
use symbiotic_foundation.Core.Diagnostics.{DiagnosticCode, invalid_configuration}
use symbiotic_foundation.Queue.Types.{
  QueueStatus, succeeded, failed, dead, QueueItem, Failure, FailOutcome, retry_scheduled,
  moved_to_dead, QueueError, not_found, lease_mismatch, not_running, invalid_request,
}
use symbiotic_foundation.Queue.State.{State, is_running}
use symbiotic_foundation.Queue.Reply.{Reply, ok, err, MemoryQueue, ◌>>◌, pure, emit}
use symbiotic_foundation.Queue.Claim.{Clock, lease_deadline}
use symbiotic_foundation.Queue.Running.{
  fence, update_running, beat, completing, failing, fail_verdict, retry_time,
}
use symbiotic_foundation.Queue.Backend.{heartbeat, complete, fail_locked, fail_outcome, fail_with}
use symbiotic_foundation.Queue.Inv.Defs.{is_ended}
use symbiotic_foundation.Queue.Inv.Update.{
  Updates, renewed_item, ended_item, succeeded_item, beat_lem, completing_lem, failing_lem,
}
use symbiotic_foundation.Queue.Safe.Rules.{IsSound, locked-refused, locked-answers}

-- The status that a failure leads to, and what the worker is told, written out on its own.
abbrev pub verdict : (deadline : Bool) (attempts_left : Bool) → QueueStatus × FailOutcome
verdict false left = (QueueStatus.stopped, FailOutcome.stopped)
verdict true true = (failed, retry_scheduled)
verdict true false = (dead, moved_to_dead)

-- The deadline that a failure has, or the date a second ahead.
abbrev pub retry_date : (ℕ → ℤ → Option ℕ) → Option ℕ → ℕ → Option ℕ
retry_date add none now = add now (pos 1)
retry_date add (some deadline) now = some deadline

retry_time_lem :
    (add : ℕ → ℤ → Option ℕ) (failure : Failure) (now : ℕ)
    → retry_time add failure now ≡ retry_date add failure.run_after now
retry_time_lem add failure now = ground arith

module _ {V : Type 0} where
  -- Whether `worker` holds the lease of an item at `now`.
  abbrev pub holds_lease : Option (QueueItem V) → String → ℕ → Bool
  holds_lease none worker now = false
  holds_lease (some item) worker now =
      is_running item.status
      && elim item.lease_owner [ none ↦ false | some owner ↦ owner == worker ]
      && elim item.lease_until [ none ↦ false | some until ↦ leb now until ]

  -- What a worker without the lease is told.
  abbrev pub refusal : Option (QueueItem V) → QueueError
  refusal none = not_found invalid_configuration
  refusal (some item) =
      if is_running item.status
      then lease_mismatch invalid_configuration
      else not_running invalid_configuration

  update-refused :
      (id worker : String) (now : ℕ) (update : QueueItem V → State V → Reply (State V))
      (s : State V)
      → holds_lease (get s.items id) worker now ≡ false
      → update_running id worker now update s ≡ err (refusal (get s.items id))
  unfolding update_running fence
  update-refused id worker now update s h = ground arith

  fail-refused :
      (add : ℕ → ℤ → Option ℕ) (c : Clock) (id worker : String) (failure : Failure) (s : State V)
      (e : QueueError)
      → update_running id worker c.now (failing add id failure c.now) s ≡ err e
      → fail_locked add c id worker failure s ≡ err e
  unfolding fail_locked
  fail-refused add c id worker failure s e h = rw (h, fail_locked) refl

  fail-answers :
      (add : ℕ → ℤ → Option ℕ) (c : Clock) (id worker : String) (failure : Failure) (s t : State V)
      (item new : QueueItem V)
      → get s.items id ≡ some item
      → update_running id worker c.now (failing add id failure c.now) s ≡ ok (t, new)
      → fail_locked add c id worker failure s ≡ ok (t, (new, (fail_verdict item failure).1))
  unfolding fail_locked
  fail-answers add c id worker failure s t item new at h =
      rw (h, fail_locked) (rw (at, fail_outcome) refl)

  -- On a sound queue, a worker that does not hold the lease of an item when it calls is refused by
  -- `complete`, `heartbeat` and `fail_with` alike: it is told `not_found` if there is no such item,
  -- `not_running` if the item does not run, else `lease_mismatch`, and the queue, with the events
  -- that it has sent, is unchanged.
  pub without_lease-refused :
      (add : ℕ → ℤ → Option ℕ) (c : Clock) (id worker : String) (seconds : ℕ) (failure : Failure)
      (q : MemoryQueue V)
      → IsSound q
      → holds_lease (get q.state.items id) worker c.now ≡ false
      → (complete c id worker q ≡ (q, err (refusal (get q.state.items id))))
        × (heartbeat add c id worker seconds q ≡ (q, err (refusal (get q.state.items id))))
        × (fail_with add c id worker failure q ≡ (q, err (refusal (get q.state.items id))))
  unfolding complete heartbeat fail_with
  without_lease-refused add c id worker seconds failure q v h = (
    locked-refused _ (λ item. emit c.stamp ((item, none) ∷ [])) q _ v.unpoisoned
        (update-refused id worker c.now (completing id c.now) q.state h),
    locked-refused _ (λ item. emit c.stamp ((item, none) ∷ [])) q _ v.unpoisoned
        (update-refused id worker c.now (beat add id seconds c.now) q.state h),
    locked-refused _ (λ r. emit c.stamp ((r.0, some failure.error) ∷ []) >> pure r.1) q _
        v.unpoisoned
        (fail-refused add c id worker failure q.state _
          (update-refused id worker c.now (failing add id failure c.now) q.state h)),
  )

  held-fence :
      (s : State V) (id worker : String) (now : ℕ) (item : QueueItem V)
      → get s.items id ≡ some item
      → holds_lease (get s.items id) worker now ≡ true
      → fence item worker now ≡ none
  unfolding fence
  held-fence s id worker now item at h = ground arith

  beat-refused :
      (add : ℕ → ℤ → Option ℕ) (id worker : String) (seconds now : ℕ) (s : State V)
      (item : QueueItem V)
      → get s.items id ≡ some item
      → fence item worker now ≡ none
      → lease_deadline add now seconds ≡ none
      → update_running id worker now (beat add id seconds now) s
        ≡ err (invalid_request invalid_configuration)
  unfolding update_running beat
  beat-refused add id worker seconds now s item at f d =
      rw (at, update_running) (rw f (rw (d, beat) refl))

  -- After a call on the item `id`, which leaves it as `new`: the answer, the item, and the others.
  pub record Settles {A : Type 0} (q : MemoryQueue V) (id : String) (new : QueueItem V) (a : A)
      (r : MemoryQueue V × Reply A) : Type 0 where
    pub answer : r.1 ≡ ok a
    pub item : get r.0.state.items id ≡ some new
    pub others :
        (j : String)
        → (id == j) ≡ false
        → (get r.0.state.items j ≡ get q.state.items j)
          ⊎ ((get r.0.state.items j ≡ none) × (is_ended (get q.state.items j) ≡ true))

  reported :
      {A : Type 0} (stamp : ℕ → ℕ) (es : List (QueueItem V × Option DiagnosticCode)) (a : A)
      (q : MemoryQueue V) (id worker : String) (now : ℕ)
      (update : QueueItem V → State V → Reply (State V)) (old new : QueueItem V)
      (u : Updates id worker now update q.state old new)
      → Settles q id new a ((emit stamp es >> pure a) (record q { state = u.last }))
  unfolding emit
  reported stamp es a q id worker now update old new u = elim (Bool-cases q.event_sink) [
    | inl b ↦ rw b (record { answer = refl; item = u.changes.self; others = u.changes.other })
    | inr b ↦ rw b (record { answer = refl; item = u.changes.self; others = u.changes.other })
  ]

  -- On a sound queue, the worker that holds the lease of an item completes it: the item has then
  -- succeeded, with no lease, no error and no class of one, is dated now and keeps all else, and no
  -- other item is touched, except that ended ones may be forgotten.
  pub complete-held :
      (c : Clock) (id worker : String) (q : MemoryQueue V) (item : QueueItem V)
      → IsSound q
      → get q.state.items id ≡ some item
      → holds_lease (get q.state.items id) worker c.now ≡ true
      → Settles q id
          (record item {
            status = succeeded;
            lease_owner = none;
            lease_until = none;
            last_error = none;
            last_error_class = none;
            updated_at = c.now;
          })
          tt
          (complete c id worker q)
  unfolding complete emit
  complete-held c id worker q item v at h =
      let u =
        completing_lem id worker c.now q.state item v.inv.shaped at
          (held-fence q.state id worker c.now item at h) in
      subst (Settles q id (succeeded_item item c.now) tt)
        (sym (
          locked-answers _ (λ new. emit c.stamp ((new, none) ∷ [])) q u.last _ v.unpoisoned
            u.returns))
        (reported c.stamp ((succeeded_item item c.now, none) ∷ []) tt q id worker c.now
          (completing id c.now) item _ u)

  -- On a sound queue, the worker that holds the lease of an item renews it, as far as chrono can
  -- express the deadline: the item keeps running until the new deadline, and otherwise the call is
  -- refused as invalid and changes nothing.
  pub heartbeat-held :
      (add : ℕ → ℤ → Option ℕ) (c : Clock) (id worker : String) (seconds : ℕ) (q : MemoryQueue V)
      (item : QueueItem V)
      → IsSound q
      → get q.state.items id ≡ some item
      → holds_lease (get q.state.items id) worker c.now ≡ true
      → ((until : ℕ) × (lease_deadline add c.now seconds ≡ some until)
          × Settles q id (renewed_item item until c.now) tt (heartbeat add c id worker seconds q))
        ⊎ ((lease_deadline add c.now seconds ≡ none)
            × (heartbeat add c id worker seconds q
                ≡ (q, err (invalid_request invalid_configuration))))
  unfolding heartbeat emit
  heartbeat-held add c id worker seconds q item v at h =
      let f = held-fence q.state id worker c.now item at h in
      elim (Option-cases (lease_deadline add c.now seconds)) [
        | inl d ↦ inr (
          d,
          locked-refused _ (λ new. emit c.stamp ((new, none) ∷ [])) q _ v.unpoisoned
              (beat-refused add id worker seconds c.now q.state item at f d),
        )
        | inr (until, d) ↦
            let u = beat_lem add id worker seconds c.now until q.state item v.inv.shaped at f d in
            inl (
              until,
              d,
              subst (Settles q id (renewed_item item until c.now) tt)
                  (sym (
                    locked-answers _ (λ new. emit c.stamp ((new, none) ∷ [])) q u.last _
                      v.unpoisoned u.returns))
                  (reported c.stamp ((renewed_item item until c.now, none) ∷ []) tt q id worker
                    c.now (beat add id seconds c.now) item _ u),
            )
      ]

  fail_verdict-table :
      (item : QueueItem V) (failure : Failure)
      → fail_verdict item failure
        ≡ verdict (is_some failure.run_after) (ltb item.attempt item.max_attempts)
  unfolding fail_verdict
  fail_verdict-table item failure = ground arith

  -- On a sound queue, when the worker that holds the lease of an item fails it, and chrono can
  -- express the date of the retry: without a deadline for a retry the item is stopped; with one it
  -- waits for the retry while attempts are left, and else is dead. The worker is told which, and the
  -- item keeps the error of the failure, its class and its deadline, or the date a second ahead where
  -- it has none, no lease, and all else as it was.
  pub fail_with-held :
      (add : ℕ → ℤ → Option ℕ) (c : Clock) (id worker : String) (failure : Failure) (time : ℕ)
      (q : MemoryQueue V) (item : QueueItem V)
      → IsSound q
      → get q.state.items id ≡ some item
      → holds_lease (get q.state.items id) worker c.now ≡ true
      → retry_date add failure.run_after c.now ≡ some time
      → let v = verdict (is_some failure.run_after) (ltb item.attempt item.max_attempts) in
        Settles q id
          (record item {
            status = v.0;
            run_after = time;
            lease_owner = none;
            lease_until = none;
            last_error = some failure.error;
            last_error_class = failure.error_class;
            updated_at = c.now;
          })
          v.1
          (fail_with add c id worker failure q)
  unfolding fail_with
  fail_with-held add c id worker failure time q item v at h t =
      let u =
        failing_lem add id worker failure c.now time q.state item v.inv.shaped at
          (held-fence q.state id worker c.now item at h) (retry_time_lem add failure c.now ∙ t) in
      rw⁻¹ (fail_verdict-table item failure) (
        subst (Settles q id (ended_item item failure time c.now) (fail_verdict item failure).1)
          (sym (
            locked-answers _ (λ r. emit c.stamp ((r.0, some failure.error) ∷ []) >> pure r.1) q
              u.last _ v.unpoisoned
              (fail-answers add c id worker failure q.state u.last item _ at u.returns)))
          (reported c.stamp ((ended_item item failure time c.now, some failure.error) ∷ [])
            (fail_verdict item failure).1 q id worker c.now (failing add id failure c.now) item _
            u))
