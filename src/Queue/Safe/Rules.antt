-- ===== src/Queue/Safe/Rules.antt =====
-- Rules by which an operation of the queue is shown to return and to leave a sound queue.
use symbiotic_foundation.Base.{
  ℕ, String, false, Option, none, List, get, string_eq, ◌≡◌, refl, arith, sym, ap, subst, ◌∙◌,
}
use symbiotic_foundation.Core.Diagnostics.{DiagnosticCode}
use symbiotic_foundation.Queue.Types.{QueueItem, QueueError}
use symbiotic_foundation.Queue.State.{State}
use symbiotic_foundation.Queue.Reply.{
  Reply, ok, err, panic, MemoryQueue, M, ◌>>=◌, ◌>>◌, pure, refuse, keep_state, locked, emit,
}
use symbiotic_foundation.Queue.Calls.{is_panic}
use symbiotic_foundation.Queue.Inv.Defs.{Inv}
use symbiotic_foundation.Queue.Inv.Evolves.{Evolves, unchanged}
use symbiotic_foundation.Queue.Inv.Insert.{Adds}

pub record IsSound {V : Type 0} (q : MemoryQueue V) : Type 0 where
  pub inv : Inv q.state
  pub unpoisoned : q.poisoned ≡ false

-- What one call can do to the state.
pub data Advances {V : Type 0} (s t : State V) : Type 0 where
  moves : Evolves s t → Advances s t
  adds :
      (m : State V) (item : QueueItem V)
      → get s.items item.item_id ≡ none
      → Evolves s m
      → Adds m item t
      → Advances s t
  cools : (c : List (String × ℕ)) → t ≡ record s { cooldowns = c } → Advances s t

-- Returns without a panic, in a sound queue, having advanced from `s`.
pub record Fine {V A : Type 0} (s : State V) (r : MemoryQueue V × Reply A) : Type 0 where
  pub sound : IsSound r.0
  pub advances : Advances s r.0.state
  pub calm : is_panic r.1 ≡ false

-- What the work under the lock must do.
abbrev pub Works : {V A : Type 0} → State V → Reply (State V × A) → Type 0
Works s (ok (t, a)) = Inv t × Advances s t
Works s (err e) = Unit
Works s panic = ⊥

-- Leaves the locked state alone and does not panic.
pub record IsQuiet {V A : Type 0} (q : MemoryQueue V) (r : MemoryQueue V × Reply A) : Type 0 where
  pub same : r.0.state ≡ q.state
  pub unpoisoned : r.0.poisoned ≡ q.poisoned
  pub calm : is_panic r.1 ≡ false

module _ {V : Type 0} where
  pub emit-IsQuiet :
      (stamp : ℕ → ℕ) (es : List (QueueItem V × Option DiagnosticCode)) (q : MemoryQueue V)
      → IsQuiet q (emit stamp es q)
  unfolding emit
  emit-IsQuiet stamp es q = ground arith

module _ {V A : Type 0} where
  pub pure-IsQuiet : (a : A) (q : MemoryQueue V) → IsQuiet q (pure a q)
  pure-IsQuiet a q = record { same = refl; unpoisoned = refl; calm = refl }

  pub refuse-IsQuiet : (e : QueueError) (q : MemoryQueue V) → IsQuiet {A = A} q (refuse e q)
  refuse-IsQuiet e q = record { same = refl; unpoisoned = refl; calm = refl }

  pub stay :
      (q : MemoryQueue V) (r : MemoryQueue V × Reply A) → IsSound q → IsQuiet q r → Fine q.state r
  stay q r v k = record {
    sound = record { inv = subst Inv (sym k.same) v.inv; unpoisoned = k.unpoisoned ∙ v.unpoisoned };
    advances = subst (Advances q.state) (sym k.same) (moves unchanged);
    calm = k.calm;
  }

  kept :
      (q : MemoryQueue V) (r : Reply (State V × A))
      → IsSound q
      → Works q.state r
      → Fine q.state (keep_state q r)
  kept q (ok (t, a)) v w = record {
    sound = record { inv = w.0; unpoisoned = v.unpoisoned };
    advances = w.1;
    calm = refl;
  }
  kept q (err e) v w = record { sound = v; advances = moves unchanged; calm = refl }
  kept q panic v w = absurd w

  pub locked-Fine :
      (work : State V → Reply (State V × A)) (q : MemoryQueue V)
      → IsSound q
      → Works q.state (work q.state)
      → Fine q.state (locked work q)
  unfolding locked
  locked-Fine work q v w = simp v.unpoisoned (kept q (work q.state) v w)

module _ {V A B : Type 0} where
  follow :
      (s : State V) (q : MemoryQueue V) (r : Reply A) (f : A → M V B)
      → Fine s (q, r)
      → ((a : A) → IsQuiet q (f a q))
      → Fine s (◌>>=◌ (λ (_ : MemoryQueue V). (q, r)) f q)
  follow s q (ok a) f v k = record {
    sound = record {
      inv = subst Inv (sym (k a).same) v.sound.inv;
      unpoisoned = (k a).unpoisoned ∙ v.sound.unpoisoned;
    };
    advances = subst (Advances s) (sym (k a).same) v.advances;
    calm = (k a).calm;
  }
  follow s q (err e) f v k = record { sound = v.sound; advances = v.advances; calm = refl }
  follow s q panic f v k = absurd (cc (v.calm))

  -- What follows the lock only reports.
  pub then-Fine :
      (s : State V) (m : M V A) (f : A → M V B) (q : MemoryQueue V)
      → Fine s (m q)
      → ((a : A) (q' : MemoryQueue V) → IsQuiet q' (f a q'))
      → Fine s ((m >>= f) q)
  then-Fine s m f q v k = follow s (m q).0 (m q).1 f v (λ a. k a (m q).0)

  IsQuiet-follow :
      (q q' : MemoryQueue V) (r : Reply A) (f : A → M V B)
      → IsQuiet q (q', r)
      → ((a : A) → IsQuiet q' (f a q'))
      → IsQuiet q (◌>>=◌ (λ (_ : MemoryQueue V). (q', r)) f q)
  IsQuiet-follow q q' (ok a) f v k = record {
    same = (k a).same ∙ v.same;
    unpoisoned = (k a).unpoisoned ∙ v.unpoisoned;
    calm = (k a).calm;
  }
  IsQuiet-follow q q' (err e) f v k = record {
    same = v.same;
    unpoisoned = v.unpoisoned;
    calm = refl;
  }
  IsQuiet-follow q q' panic f v k = absurd (cc (v.calm))

  pub then-IsQuiet :
      (m : M V A) (f : A → M V B) (q : MemoryQueue V)
      → IsQuiet q (m q)
      → ((a : A) (q' : MemoryQueue V) → IsQuiet q' (f a q'))
      → IsQuiet q ((m >>= f) q)
  then-IsQuiet m f q v k = IsQuiet-follow q (m q).0 (m q).1 f v (λ a. k a (m q).0)

module _ {V A : Type 0} where
  -- Sending events and then answering.
  pub report-IsQuiet :
      (stamp : ℕ → ℕ) (es : List (QueueItem V × Option DiagnosticCode)) (m : M V A)
      (q : MemoryQueue V)
      → ((p : MemoryQueue V) → IsQuiet p (m p))
      → IsQuiet q ((emit stamp es >> m) q)
  report-IsQuiet stamp es m q k =
      then-IsQuiet (emit stamp es) (λ _. m) q (emit-IsQuiet stamp es q) (λ _ p. k p)

module _ {V A : Type 0} where
  locked-keeps :
      (work : State V → Reply (State V × A)) (q : MemoryQueue V)
      → q.poisoned ≡ false
      → locked work q ≡ keep_state q (work q.state)
  unfolding locked
  locked-keeps work q u = simp u refl

module _ {V A B : Type 0} where
  -- Work that refuses ends the call.
  pub locked-refused :
      (work : State V → Reply (State V × A)) (f : A → M V B) (q : MemoryQueue V) (e : QueueError)
      → q.poisoned ≡ false
      → work q.state ≡ err e
      → (locked work >>= f) q ≡ (q, err e)
  locked-refused work f q e u w =
      ap (λ (r : MemoryQueue V × Reply A). ◌>>=◌ (λ (_ : MemoryQueue V). r) f q)
        (locked-keeps work q u ∙ ap (keep_state q) w)

  -- What follows work that answers.
  pub locked-answers :
      (work : State V → Reply (State V × A)) (f : A → M V B) (q : MemoryQueue V) (t : State V)
      (a : A)
      → q.poisoned ≡ false
      → work q.state ≡ ok (t, a)
      → (locked work >>= f) q ≡ f a (record q { state = t })
  locked-answers work f q t a u w =
      ap (λ (r : MemoryQueue V × Reply A). ◌>>=◌ (λ (_ : MemoryQueue V). r) f q)
        (locked-keeps work q u ∙ ap (keep_state q) w)
