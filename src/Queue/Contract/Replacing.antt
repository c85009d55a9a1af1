-- ===== src/Queue/Contract/Replacing.antt =====
-- `enqueue_replacing` on every branch: when it replaces, what it leaves, and what it answers.
use symbiotic_foundation.Base.{
  ℕ, String, Bool, true, false, ◌&&◌, not, Option, none, some, max, ◌==◌, string_eq, pair_eq,
  str_iff, get, get_or, is_blank, if◌then◌else◌, ◌≡◌, refl, sym, ap, subst, ◌∙◌, arith, Bool-cases,
  inl, inr, ◌⊎◌,
}
use symbiotic_foundation.Core.Diagnostics.{DiagnosticCode, lease_expired, queue}
use symbiotic_foundation.Queue.Types.{
  QueueStatus, pending, running, failed, stopped, QueueItem, EnqueueRequest, EnqueueOutcome,
  inserted, active_duplicate, terminal_duplicate,
}
use symbiotic_foundation.Queue.State.{State}
use symbiotic_foundation.Queue.Reply.{Reply, ok, MemoryQueue, emit}
use symbiotic_foundation.Queue.Claim.{Clock}
use symbiotic_foundation.Queue.Enqueue.{duplicate, refuses, enqueue_locked, new_item, fresh_outcome}
use symbiotic_foundation.Queue.Backend.{enqueue_inner, enqueue_replacing, announce}
use symbiotic_foundation.Queue.Inv.Defs.{is_ended}
use symbiotic_foundation.Queue.Inv.Enqueues.{
  Allows, Added, Retires, retire_replaced-Retires, enqueue_locked_lem,
}
use symbiotic_foundation.Queue.Safe.Rules.{IsSound, locked-answers}
use symbiotic_foundation.Queue.Contract.Enqueueing.{enqueue_refused}

-- Whether an item with this status and last error may be replaced: it has ended, or its lease has
-- run out.
abbrev pub gives_way : QueueStatus → Option DiagnosticCode → Bool
gives_way pending error = false
gives_way running error = false
gives_way failed (some lease_expired) = true
gives_way failed _ = false
gives_way _ error = true

abbrev pub in_progress : QueueStatus → Bool
in_progress pending = true
in_progress running = true
in_progress failed = true
in_progress _ = false

abbrev pub waits_for_retry : QueueStatus → Bool
waits_for_retry failed = true
waits_for_retry _ = false

module _ {V : Type 0} where
  -- The newest item with a key.
  abbrev pub holder : State V → String → Option String → Option (QueueItem V)
  holder s queue_id none = none
  holder s queue_id (some key) = elim (get s.idempotency (queue_id, key)) [
    | none ↦ none
    | some id ↦ get s.items id
  ]

  -- A key is free, or its newest item is the one to be replaced and gives way.
  abbrev pub may_replace : Option (QueueItem V) → String → Bool
  may_replace none current = true
  may_replace (some item) current = item.item_id == current && gives_way item.status item.last_error

  -- The item that a request becomes.
  abbrev pub requested : EnqueueRequest V → String → ℕ → QueueItem V
  requested request id now = record {
    item_id = id;
    queue_id = request.queue_id;
    kind = request.kind;
    payload = request.payload;
    status = pending;
    attempt = 0;
    max_attempts = max (get_or request.max_attempts 3) 1;
    run_after = get_or request.run_after now;
    lease_owner = none;
    lease_until = none;
    idempotency_key = request.idempotency_key;
    last_error = none;
    last_error_class = none;
    created_at = now;
    updated_at = now;
  }

  abbrev pub retired : QueueItem V → QueueItem V
  retired old =
      if waits_for_retry old.status
      then record old { status = stopped; last_error_class = some queue }
      else old

  -- The queue has the new item, which holds its key; the replaced item is stopped where it waited for
  -- a retry; of the others, ended ones may be forgotten.
  pub record Replaces (q : MemoryQueue V) (current : String) (new : QueueItem V)
      (r : MemoryQueue V × Reply (EnqueueOutcome V)) : Type 0 where
    pub answer : r.1 ≡ ok (record { item = new; disposition = inserted })
    pub added : get r.0.state.items new.item_id ≡ some new
    pub holds :
        (key : String)
        → new.idempotency_key ≡ some key
        → holder r.0.state new.queue_id (some key) ≡ some new
    pub replaced :
        (old : QueueItem V)
        → get q.state.items current ≡ some old
        → get r.0.state.items current ≡ some (retired old)
    pub others :
        (j : String)
        → (new.item_id == j) ≡ false
        → (current == j) ≡ false
        → (get r.0.state.items j ≡ get q.state.items j)
          ⊎ ((get r.0.state.items j ≡ none) × (is_ended (get q.state.items j) ≡ true))

  duplicate-holder :
      (s : State V) (request : EnqueueRequest V)
      → duplicate s request ≡ holder s request.queue_id request.idempotency_key
  unfolding duplicate
  duplicate-holder s request = ground arith

  refuses-gives_way :
      (request : EnqueueRequest V) (current : String) (item : QueueItem V)
      → request.force ≡ true
      → refuses request (some current) item ≡ not (may_replace (some item) current)
  unfolding refuses
  refuses-gives_way request current item f = ground arith

  allowed :
      (request : EnqueueRequest V) (current : String) (s : State V)
      → request.force ≡ true
      → Allows s request (some current)
      → may_replace (holder s request.queue_id request.idempotency_key) current ≡ true
  allowed request current s f (inl n) = rw (sym (duplicate-holder s request) ∙ n) refl
  allowed request current s f (inr (item, n, r)) =
      rw (sym (duplicate-holder s request) ∙ n)
        (ground (arith, refuses-gives_way request current item f))

  Added-Replaces :
      (request : EnqueueRequest V) (id current : String) (c : Clock) (q : MemoryQueue V)
      (a : Added request (some current) id c.now q.state)
      → IsSound q
      → get q.state.items id ≡ none
      → Replaces q current
          (requested request id c.now)
          (announce c (fresh_outcome (new_item request id c.now)) (record q { state = a.last }))
  unfolding emit
  Added-Replaces request id current c q a v fresh =
      let k =
        subst (Retires q.state current) (sym a.retires)
          (retire_replaced-Retires q.state current v.inv.shaped) in
      let replaced : (old : QueueItem V)
          → get q.state.items current ≡ some old
          → get a.last.items current ≡ some (retired old) =
        λ old at. a.adds.other current (ground (arith, str_iff id current)) ∙ k.replaced old at in
      let others : (j : String)
          → (id == j) ≡ false
          → (current == j) ≡ false
          → (get a.last.items j ≡ get q.state.items j)
            ⊎ ((get a.last.items j ≡ none) × (is_ended (get q.state.items j) ≡ true)) =
        λ j n m.
          subst
            (λ o.
              (o ≡ get q.state.items j) ⊎ ((o ≡ none) × (is_ended (get q.state.items j) ≡ true)))
            (sym (a.adds.other j n)) (k.others j m) in
      let holds : (key : String)
          → request.idempotency_key ≡ some key
          → holder a.last request.queue_id (some key) ≡ some (requested request id c.now) =
        λ key e. rw (a.adds.newest key e, holder) a.adds.self in
      elim (Bool-cases q.event_sink) [
        | inl b ↦ simp b (record {
          answer = refl;
          added = a.adds.self;
          holds = holds;
          replaced = replaced;
          others = others;
        })
        | inr b ↦ simp b (record {
          answer = refl;
          added = a.adds.self;
          holds = holds;
          replaced = replaced;
          others = others;
        })
      ]

  -- What `enqueue_replacing` has done, by whether the newest item of the key lets it replace.
  abbrev pub Outcome :
      EnqueueRequest V
      → String
      → String
      → ℕ
      → MemoryQueue V
      → MemoryQueue V × Reply (EnqueueOutcome V)
      → Type 0
  Outcome request id current now q r =
      let newest = holder q.state request.queue_id request.idempotency_key in
      ((may_replace newest current ≡ true) × Replaces q current (requested request id now) r)
      ⊎ ((existing : QueueItem V) × (newest ≡ some existing)
          × (may_replace (some existing) current ≡ false)
          × (r ≡ (
            q,
            ok (record {
              item = existing;
              disposition =
                  if in_progress existing.status then active_duplicate else terminal_duplicate;
            }),
          )))

  replaced_or_refused :
      (c : Clock) (id current : String) (request : EnqueueRequest V) (q : MemoryQueue V)
      → IsSound q
      → get q.state.items id ≡ none
      → is_blank request.kind ≡ false
      → request.force ≡ true
      → Outcome request id current c.now q (enqueue_inner c id request (some current) q)
  unfolding enqueue_inner
  replaced_or_refused c id current request q v fresh b f =
      let d = duplicate-holder q.state request in
      elim (enqueue_locked_lem request (some current) id c.now q.state v.inv fresh) [
        | inl r ↦ inr (
          r.existing,
          sym d ∙ r.found,
          ground (arith, r.stands, refuses-gives_way request current r.existing f),
          enqueue_refused c id request (some current) q r.existing v.unpoisoned b r.found r.stands,
        )
        | inr a ↦ rw b (
            inl (
              allowed request current q.state f a.allows,
              subst (Replaces q current (requested request id c.now))
                  (sym (
                    locked-answers (λ s. ok (enqueue_locked request (some current) id c.now s))
                      (announce c) q a.last _ v.unpoisoned (ap ok a.returns)))
                  (Added-Replaces request id current c q a v fresh),
            ))
      ]

  -- On a sound queue, `enqueue_replacing` of a request of some kind, whose new identifier is unused,
  -- replaces exactly where the key is free, or its newest item is `current` and has ended or lost its
  -- lease. It answers then with the new item, which is pending, as inserted, and which holds the key;
  -- `current` is stopped where it waited for a retry and is unchanged otherwise, and no other item is
  -- touched, except that ended ones may be forgotten. Elsewhere it changes nothing and answers with
  -- the newest item, as an active duplicate while that is in progress and a terminal one once ended.
  pub enqueue_replacing-Replaces :
      (c : Clock) (id current : String) (request : EnqueueRequest V) (q : MemoryQueue V)
      → IsSound q
      → get q.state.items id ≡ none
      → is_blank request.kind ≡ false
      → Outcome request id current c.now q (enqueue_replacing c id request current q)
  unfolding enqueue_replacing
  enqueue_replacing-Replaces c id current request q v fresh b =
      replaced_or_refused c id current (record request { force = true }) q v fresh b refl
