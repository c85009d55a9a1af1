-- ===== src/Queue/Contract/Enqueueing.antt =====
-- Idempotency of `enqueue` and the guard of `enqueue_replacing`.
use symbiotic_foundation.Base.{
  ℕ, String, Bool, true, false, ◌&&◌, Option, none, some, ◌==◌, string_eq, pair_eq, str_iff, get,
  is_blank, ◌≡◌, refl, sym, ap, subst, ◌∙◌, arith, Bool-cases, Option-cases, inl, inr,
}
use symbiotic_foundation.Queue.Types.{QueueItem, EnqueueRequest, EnqueueOutcome}
use symbiotic_foundation.Queue.State.{State}
use symbiotic_foundation.Queue.Reply.{Reply, ok, MemoryQueue, emit}
use symbiotic_foundation.Queue.Claim.{Clock}
use symbiotic_foundation.Queue.Enqueue.{
  duplicate, refuses, duplicate_outcome, enqueue_locked, new_item, fresh_outcome,
}
use symbiotic_foundation.Queue.Backend.{enqueue_inner, enqueue, enqueue_replacing, announce}
use symbiotic_foundation.Queue.Inv.Enqueues.{Added, enqueue_locked_lem}
use symbiotic_foundation.Queue.Safe.Rules.{IsSound, locked-answers}

module _ {V : Type 0} where
  announce_duplicate :
      (c : Clock) (existing : QueueItem V) (q : MemoryQueue V)
      → announce c (duplicate_outcome existing) q ≡ (q, ok (duplicate_outcome existing))
  announce_duplicate c existing q = ground arith

  refused_work :
      (request : EnqueueRequest V) (replacing : Option String) (id : String) (now : ℕ) (s : State V)
      (existing : QueueItem V)
      → duplicate s request ≡ some existing
      → refuses request replacing existing ≡ true
      → Path
          (Reply (State V × EnqueueOutcome V))
          (ok (enqueue_locked request replacing id now s))
          (ok (s, duplicate_outcome existing))
  unfolding enqueue_locked
  refused_work request replacing id now s existing d r = rw (d, enqueue_locked) (rw r refl)

  pub enqueue_refused :
      (c : Clock) (id : String) (request : EnqueueRequest V) (replacing : Option String)
      (q : MemoryQueue V) (existing : QueueItem V)
      → q.poisoned ≡ false
      → is_blank request.kind ≡ false
      → duplicate q.state request ≡ some existing
      → refuses request replacing existing ≡ true
      → enqueue_inner c id request replacing q ≡ (q, ok (duplicate_outcome existing))
  unfolding enqueue_inner
  enqueue_refused c id request replacing q existing u b d r = rw b (
      locked-answers (λ s. ok (enqueue_locked request replacing id c.now s)) (announce c) q q.state
        (duplicate_outcome existing) u
        (refused_work request replacing id c.now q.state existing d r)
      ∙ announce_duplicate c existing q)

  -- Whether the two requests share the idempotency key, in one queue.
  abbrev pub is_same_key : EnqueueRequest V → EnqueueRequest V → Bool
  is_same_key a b = elim a.idempotency_key [
    | none ↦ false
    | some key ↦ elim b.idempotency_key [
      | none ↦ false
      | some key' ↦ key == key' && a.queue_id == b.queue_id
    ]
  ]

  -- `enqueue_inner` answers with an item that the key of `second` then names, and that stands in the
  -- way of `second`.
  record Enqueues (second : EnqueueRequest V) (replacing : Option String)
      (r : MemoryQueue V × Reply (EnqueueOutcome V)) : Type 0 where
    found : EnqueueOutcome V
    answer : r.1 ≡ ok found
    newest : duplicate r.0.state second ≡ some found.item
    stands : refuses second replacing found.item ≡ true
    unpoisoned : r.0.poisoned ≡ false

  announced :
      (c : Clock) (item : QueueItem V) (second : EnqueueRequest V) (replacing : Option String)
      (q : MemoryQueue V)
      → q.poisoned ≡ false
      → duplicate q.state second ≡ some item
      → refuses second replacing item ≡ true
      → Enqueues second replacing (announce c (fresh_outcome item) q)
  unfolding emit
  announced c item second replacing q u h w = elim (Bool-cases q.event_sink) [
    | inl b ↦ simp b (record {
      found = fresh_outcome item;
      answer = refl;
      newest = h;
      stands = w;
      unpoisoned = u;
    })
    | inr b ↦ simp b (record {
      found = fresh_outcome item;
      answer = refl;
      newest = h;
      stands = w;
      unpoisoned = u;
    })
  ]

  Added-duplicate :
      (request second : EnqueueRequest V) (replacing : Option String) (id : String) (now : ℕ)
      (s : State V) (a : Added request replacing id now s)
      → is_same_key request second ≡ true
      → duplicate a.last second ≡ some (new_item request id now)
  unfolding duplicate
  Added-duplicate request second replacing id now s a k =
      elim (Option-cases request.idempotency_key) [
        | inl r ↦ absurd (ground arith)
        | inr (key, r) ↦ elim (Option-cases second.idempotency_key) [
          | inl t ↦ absurd (ground arith)
          | inr (key', t) ↦ ground (
            arith,
            a.adds.newest key r,
            a.adds.self,
            str_iff key key',
            str_iff request.queue_id second.queue_id,
          )
        ]
      ]

  shared-duplicate :
      (request second : EnqueueRequest V) (s : State V) (item : QueueItem V)
      → duplicate s request ≡ some item
      → is_same_key request second ≡ true
      → duplicate s second ≡ some item
  unfolding duplicate
  shared-duplicate request second s item d k = elim (Option-cases request.idempotency_key) [
    | inl r ↦ absurd (ground arith)
    | inr (key, r) ↦ elim (Option-cases second.idempotency_key) [
      | inl t ↦ absurd (ground arith)
      | inr (key', t) ↦ ground (arith, str_iff key key', str_iff request.queue_id second.queue_id)
    ]
  ]

  enqueue_inner-Enqueues :
      (c : Clock) (id : String) (request second : EnqueueRequest V) (replacing : Option String)
      (q : MemoryQueue V)
      → IsSound q
      → get q.state.items id ≡ none
      → is_blank request.kind ≡ false
      → is_same_key request second ≡ true
      → ((existing : QueueItem V)
          → refuses request replacing existing ≡ true
          → refuses second replacing existing ≡ true)
      → refuses second replacing (new_item request id c.now) ≡ true
      → Enqueues second replacing (enqueue_inner c id request replacing q)
  unfolding enqueue_inner
  enqueue_inner-Enqueues c id request second replacing q v fresh b k old new =
      elim (enqueue_locked_lem request replacing id c.now q.state v.inv fresh) [
        | inl r ↦
            subst (Enqueues second replacing)
              (sym (
                enqueue_refused c id request replacing q r.existing v.unpoisoned b r.found
                  r.stands))
              (record {
                found = duplicate_outcome r.existing;
                answer = refl;
                newest = shared-duplicate request second q.state r.existing r.found k;
                stands = old r.existing r.stands;
                unpoisoned = v.unpoisoned;
              })
        | inr a ↦ rw b (
            subst (Enqueues second replacing)
              (sym (
                locked-answers (λ s. ok (enqueue_locked request replacing id c.now s)) (announce c)
                  q a.last _ v.unpoisoned (ap ok a.returns)))
              (announced c (new_item request id c.now) second replacing
                (record q { state = a.last }) v.unpoisoned
                (Added-duplicate request second replacing id c.now q.state a k) new))
      ]

  refused_again :
      (later : Clock) (next_id : String) (second : EnqueueRequest V) (replacing : Option String)
      (r : MemoryQueue V × Reply (EnqueueOutcome V))
      → is_blank second.kind ≡ false
      → Enqueues second replacing r
      → (first : EnqueueOutcome V) × (r.1 ≡ ok first)
        × (enqueue_inner later next_id second replacing r.0
            ≡ (r.0, ok (duplicate_outcome first.item)))
  refused_again later next_id second replacing r b e = (
    e.found,
    e.answer,
    enqueue_refused later next_id second replacing r.0 e.found.item e.unpoisoned b e.newest
        e.stands,
  )

  -- On a sound queue, `enqueue` of a request with an idempotency key answers with an item; a later
  -- `enqueue` with that key that is not forced, on the queue that the first one leaves, changes
  -- nothing and answers with the same item.
  pub enqueue_again :
      (c later : Clock) (id next_id : String) (request second : EnqueueRequest V)
      (q : MemoryQueue V)
      → IsSound q
      → get q.state.items id ≡ none
      → is_blank request.kind ≡ false
      → is_same_key request second ≡ true
      → is_blank second.kind ≡ false
      → second.force ≡ false
      → let r = enqueue c id request q in
        (first : EnqueueOutcome V) × (r.1 ≡ ok first)
        × (enqueue later next_id second r.0 ≡ (r.0, ok (duplicate_outcome first.item)))
  unfolding enqueue refuses
  enqueue_again c later id next_id request second q v fresh b k b' f =
      refused_again later next_id second none (enqueue_inner c id request none q) b' (
        enqueue_inner-Enqueues c id request second none q v fresh b k (λ existing h. ground arith)
          (ground arith))

  forced : EnqueueRequest V → EnqueueRequest V
  forced request = record request { force = true }

  forced-same_key :
      (request second : EnqueueRequest V)
      → is_same_key request second ≡ true
      → is_same_key (forced request) (forced second) ≡ true
  unfolding forced
  forced-same_key request second k = k

  -- On a sound queue, `enqueue_replacing` of a request with an idempotency key, for an item that is
  -- not the one to be added, answers with an item, be it the new one or one that stood in its way. A
  -- later `enqueue_replacing` with that key for the same item, on the queue that the first one
  -- leaves, changes nothing and answers with the item of the first: of two that replace the same
  -- item, only one does.
  enqueue_replacing_once :
      (c later : Clock) (id next_id current : String) (request second : EnqueueRequest V)
      (q : MemoryQueue V)
      → IsSound q
      → get q.state.items id ≡ none
      → (id == current) ≡ false
      → is_blank request.kind ≡ false
      → is_same_key request second ≡ true
      → is_blank second.kind ≡ false
      → let r = enqueue_replacing c id request current q in
        (first : EnqueueOutcome V) × (r.1 ≡ ok first)
        × (enqueue_replacing later next_id second current r.0
            ≡ (r.0, ok (duplicate_outcome first.item)))
  unfolding enqueue_replacing refuses forced
  enqueue_replacing_once c later id next_id current request second q v fresh n b k b' =
      refused_again later next_id (forced second) (some current)
        (enqueue_inner c id (forced request) (some current) q) b'
        (enqueue_inner-Enqueues c id (forced request) (forced second) (some current) q v fresh b
          (forced-same_key request second k) (λ existing h. ground arith) (ground arith))
