-- ===== src/Queue/Inv/Changes.antt =====
-- The two ways in which an operation changes one item, and what they leave as it was.
use symbiotic_foundation.Base.{
  String, true, false, Option, none, some, List, ◌==◌, string_eq, pair_eq, str_iff, get, modify,
  get-modify, keys-modify, ◌≡◌, refl, sym, subst, ◌∙◌, arith, Bool-cases, inl, inr,
}
use symbiotic_foundation.Base.Outcome.{done}
use symbiotic_foundation.Queue.Types.{QueueStatus, QueueItem}
use symbiotic_foundation.Queue.State.{
  State, is_terminal, push_terminal, write_status, set_status, update_item,
}
use symbiotic_foundation.Queue.Inv.Defs.{
  points, is_leased_right, Indexed, IsShaped, IsSame, Changes,
}
use symbiotic_foundation.Queue.Inv.Index.{index_running-rest}
use symbiotic_foundation.Queue.Inv.Status.{
  pushed, contains-pushed, moved, moved-items, moved-Indexed, push_terminal-Indexed,
  push_terminal-bounds, push_terminal_self, push_terminal-other,
}

module _ {V : Type 0} where
  -- Trimming the window after `id` has become `new`.
  trim-Changes :
      (s ms : State V) (id : String) (new : QueueItem V) (status : QueueStatus)
      → IsShaped s
      → ms.terminal ≡ s.terminal
      → ms.retain_terminal ≡ s.retain_terminal
      → Indexed (pushed ms.terminal id status) ms
      → get ms.items id ≡ some new
      → ((j : String) → (id == j) ≡ false → get ms.items j ≡ get s.items j)
      → Changes s id new (push_terminal ms id status)
  trim-Changes s ms id new status v et er w self other =
      let bounds = push_terminal-bounds ms id status (rw (et, er) v.bounded) in
      let retain = bounds.1 ∙ er in
      record {
        shaped = record {
          indexed = push_terminal-Indexed ms id status w;
          bounded = rw bounds.1 bounds.0;
          retains = rw retain v.retains;
        };
        retain = retain;
        self = push_terminal_self ms id status w.ended_once (rw er v.retains) ∙ self;
        other = λ j ne. ground (
          arith,
          other j ne,
          et,
          v.indexed.ended j,
          contains-pushed ms.terminal id status j,
          push_terminal-other ms id j status w.ended_once,
        );
      }

  -- A live item takes any status.
  pub set_status-Changes :
      (s : State V) (id : String) (item : QueueItem V) (status : QueueStatus)
      → IsShaped s
      → get s.items id ≡ some item
      → is_terminal item.status ≡ false
      → Changes s id (record item { status = status }) (set_status s id status)
  unfolding set_status write_status
  set_status-Changes s id item status v at live =
      let ms = moved s item id status in
      let same = index_running-rest (write_status s id status) item id status in
      rw (at, set_status)
        (trim-Changes s ms id (record item { status = status }) status v same.2 same.3
          (subst (λ w. Indexed (pushed w id status) ms) (sym same.2)
            (moved-Indexed s.terminal s item id status v.indexed at live))
          (ground (arith, str_iff id id, at, moved-items s item id status id))
          (λ j ne. ground (arith, ne, moved-items s item id status j)))

  abbrev pub touch : State V → String → (QueueItem V → QueueItem V) → State V
  touch s id f = record s { items = modify s.items id f }

  touch-points :
      (s : State V) (id : String) (f : QueueItem V → QueueItem V) (item : QueueItem V)
      → get s.items id ≡ some item
      → IsSame item (f item)
      → (key : String × String) (o : Option String) → points s key o ≡ true
      → points (touch s id f) key o ≡ true
  touch-points s id f item at k key none h = refl
  touch-points s id f item at k key (some j) h =
      ground (arith, str_iff id j, get-modify s.items id j f)

  touch-Indexed :
      (w : List String) (s : State V) (id : String) (f : QueueItem V → QueueItem V)
      (item : QueueItem V)
      → Indexed w s
      → get s.items id ≡ some item
      → IsSame item (f item)
      → (f item).status ≡ item.status
      → Indexed w (touch s id f)
  touch-Indexed w s id f item v at k e = record {
    once = rw (keys-modify s.items id f) v.once;
    named = λ j. ground (arith, v.named j, str_iff id j, get-modify s.items id j f);
    runs = λ q j. ground (arith, v.runs q j, str_iff id j, get-modify s.items id j f);
    runs_once = v.runs_once;
    ended = λ j. ground (arith, v.ended j, str_iff id j, get-modify s.items id j f);
    ended_once = v.ended_once;
    keyed = λ key. touch-points s id f item at k key _ (v.keyed key);
  }

  -- An update of the other fields changes that item alone.
  pub touch-Changes :
      (s : State V) (id : String) (f : QueueItem V → QueueItem V) (item : QueueItem V)
      → IsShaped s
      → get s.items id ≡ some item
      → IsSame item (f item)
      → (f item).status ≡ item.status
      → Changes s id (f item) (touch s id f)
  touch-Changes s id f item v at k e = record {
    shaped = record {
      indexed = touch-Indexed s.terminal s id f item v.indexed at k e;
      bounded = v.bounded;
      retains = v.retains;
    };
    retain = refl;
    self = ground (arith, str_iff id id, get-modify s.items id id f);
    other = λ j ne. ground (arith, get-modify s.items id j f);
  }

  -- Two changes of one item, one after the other.
  pub Changes-trans :
      (s t u : State V) (id : String) (a b : QueueItem V)
      → Changes s id a t
      → Changes t id b u
      → Changes s id b u
  Changes-trans s t u id a b c d = record {
    shaped = d.shaped;
    retain = d.retain ∙ c.retain;
    self = d.self;
    other = λ j ne. ground (arith, c.other j ne, d.other j ne);
  }

  pub Changes-leased :
      (s : State V) (id : String) (new : QueueItem V) (s' : State V)
      → Changes s id new s'
      → ((j : String) → is_leased_right (get s.items j) ≡ true)
      → is_leased_right (some new) ≡ true
      → (j : String) → is_leased_right (get s'.items j) ≡ true
  Changes-leased s id new s' c l n j = elim (Bool-cases (id == j)) [
    | inl e ↦
        subst (λ k. is_leased_right (get s'.items k) ≡ true) ((str_iff id j).0 e) (rw c.self n)
    | inr ne ↦ elim (c.other j ne) [ inl e ↦ rw e (l j) | inr (e, _) ↦ rw e refl ]
  ]

  -- `update_item` on an item that is there.
  pub update_item-done :
      (s : State V) (id : String) (f : QueueItem V → QueueItem V) (item : QueueItem V)
      → get s.items id ≡ some item
      → update_item s id f ≡ done (touch s id f)
  unfolding update_item
  update_item-done s id f item at = rw (at, update_item) refl
