-- ===== src/Queue/Inv/Evolves.antt =====
-- The life of an item: the moves that its status may make, and the chains of them that the
-- operations are built from.
use symbiotic_foundation.Base.{
  String, Bool, true, false, ◌&&◌, none, some, ◌==◌, string_eq, str_iff, if◌then◌else◌, get, ◌≡◌,
  refl, ◌∙◌, arith, Bool-cases, inl, inr, ◌⊎◌,
}
use symbiotic_foundation.Queue.Types.{
  QueueStatus, pending, running, succeeded, failed, dead, stopped, QueueItem,
}
use symbiotic_foundation.Queue.State.{State, is_waiting, is_running, is_terminal, next_attempt}
use symbiotic_foundation.Queue.Inv.Defs.{is_leased_right, Inv, IsSame, Changes}
use symbiotic_foundation.Queue.Inv.Changes.{Changes-leased}

-- A waiting item runs, dies or is stopped; a running one is renewed, ends or waits again.
abbrev pub may_follow : QueueStatus → QueueStatus → Bool
may_follow pending running = true
may_follow pending dead = true
may_follow failed running = true
may_follow failed dead = true
may_follow failed stopped = true
may_follow running running = true
may_follow running succeeded = true
may_follow running failed = true
may_follow running dead = true
may_follow running stopped = true
may_follow _ _ = false

module _ {V : Type 0} where
  -- One move of an item. Only a claim takes an attempt, and what was asked for does not change.
  pub record Moves (item new : QueueItem V) : Type 0 where
    pub edge : may_follow item.status new.status ≡ true
    pub same : IsSame item new
    pub same_kind : new.kind ≡ item.kind
    pub same_payload : new.payload ≡ item.payload
    pub same_budget : new.max_attempts ≡ item.max_attempts
    pub same_birth : new.created_at ≡ item.created_at
    pub counts : new.attempt ≡ (
        if is_waiting item.status && is_running new.status
        then next_attempt item.attempt
        else item.attempt)
    pub leased : is_leased_right (some item) ≡ true → is_leased_right (some new) ≡ true

  -- A chain of moves, each of one item; of the others only ended ones can be forgotten.
  pub data Evolves (s : State V) : State V → Type 0 where
    unchanged : Evolves s s
    change :
        {t u : State V}
        → Evolves s t
        → (id : String) (item new : QueueItem V) → get t.items id ≡ some item
        → Moves item new
        → Changes t id new u
        → Evolves s u

  pub Evolves-trans : {s t u : State V} → Evolves s t → Evolves t u → Evolves s u
  Evolves-trans a unchanged = a
  Evolves-trans a (change b id item new at m c) = change (Evolves-trans a b) id item new at m c

  -- A chain of moves keeps the state well-formed.
  pub Evolves-Inv : {s t : State V} → Inv s → Evolves s t → Inv t
  Evolves-Inv v unchanged = v
  Evolves-Inv {s} v (change {t = m} e id item new at mv c) =
      let w = Evolves-Inv v e in
      record {
        shaped = c.shaped;
        leased = Changes-leased m id new _ c w.leased (mv.leased (rw at at (w.leased id)));
      }

  pub Evolves-retain : {s t : State V} → Evolves s t → t.retain_terminal ≡ s.retain_terminal
  Evolves-retain unchanged = refl
  Evolves-retain (change e id item new at mv c) = c.retain ∙ Evolves-retain e

  Changes-gone :
      {s t : State V} (id j : String) (item new : QueueItem V)
      → get s.items id ≡ some item
      → Changes s id new t
      → get s.items j ≡ none
      → get t.items j ≡ none
  Changes-gone id j item new at c gone = elim (Bool-cases (id == j)) [
    | inl e ↦ ground (arith, str_iff id j)
    | inr ne ↦ ground (arith, c.other j ne)
  ]

  Changes-ended :
      {s t : State V} (id j : String) (item new old : QueueItem V)
      → get s.items id ≡ some item
      → Moves item new
      → Changes s id new t
      → get s.items j ≡ some old
      → is_terminal old.status ≡ true
      → (get t.items j ≡ some old) ⊎ (get t.items j ≡ none)
  Changes-ended id j item new old at mv c here h = elim (Bool-cases (id == j)) [
    | inl e ↦ ground (arith, str_iff id j, mv.edge)
    | inr ne ↦ ground (arith, c.other j ne)
  ]

  -- An ended item never changes again: it stays as it ended until it is forgotten.
  pub Evolves-ended :
      {s t : State V} (j : String) (old : QueueItem V)
      → Evolves s t
      → (get s.items j ≡ some old) ⊎ (get s.items j ≡ none)
      → is_terminal old.status ≡ true
      → (get t.items j ≡ some old) ⊎ (get t.items j ≡ none)
  Evolves-ended j old unchanged h e = h
  Evolves-ended j old (change ev id item new at mv c) h e = elim (Evolves-ended j old ev h e) [
    | inl here ↦ Changes-ended id j item new old at mv c here e
    | inr gone ↦ inr (Changes-gone id j item new at c gone)
  ]

  -- An item that is not there does not appear.
  pub Evolves-gone :
      {s t : State V} (j : String) → Evolves s t → get s.items j ≡ none → get t.items j ≡ none
  Evolves-gone j unchanged h = h
  Evolves-gone j (change ev id item new at mv c) h =
      Changes-gone id j item new at c (Evolves-gone j ev h)
