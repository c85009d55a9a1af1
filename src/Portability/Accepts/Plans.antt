-- ===== src/Portability/Accepts/Plans.antt =====
-- What a change plan satisfies that passes the checks of `decode_change_plan`.
use symbiotic_foundation.Base.{
  String, Bool, true, false, not, List, [], ◌∷◌, map, any, All, contains, distinct, length, keys,
  string_eq, str_iff, IsFresh, fresh_none, fresh_more, ◌≡◌, ◌≤◌, refl, arith,
}
use symbiotic_foundation.Portability.Model.{
  Limits, RecordKey, key_eq, Change, create, update, delete, change_key, ChangePlan,
}
use symbiotic_foundation.Portability.Checked.{ok}
use symbiotic_foundation.Portability.Bundles.{check_change, check_changes, validate_plan}

module _ {V : Type 0} where
  -- No field that an update clears is also set by it.
  abbrev pub is_clear : Change V → Bool
  is_clear (create k value) = true
  is_clear (update k base_revision set clear) = not (any (λ field. contains field (keys set)) clear)
  is_clear (delete k base_revision reason) = true

  abbrev pub IsTargeted : String → Change V → Type 0
  IsTargeted space c = ((change_key c).space ≡ space) × (is_clear c ≡ true)

  pub record IsCoherent (limits : Limits) (p : ChangePlan V) : Type 0 where
    pub few : length p.changes ≤ limits.max_records
    pub targets : distinct (map change_key p.changes) ≡ true
    pub changes : All (IsTargeted p.scope.space) p.changes

  record ChangesPass (space : String) (changes : List (Change V)) (seen : List RecordKey)
      : Type 0 where
    targets : IsFresh (map change_key changes) seen
    targeted : All (IsTargeted space) changes

  check_change-clear : (c : Change V) → check_change c ≡ ok tt → is_clear c ≡ true
  unfolding check_change
  check_change-clear (create k value) h = refl
  check_change-clear (update k base_revision set clear) h = ground arith
  check_change-clear (delete k base_revision reason) h = refl

  check_changes-parts :
      (space : String) (c : Change V) (rest : List (Change V)) (seen : List RecordKey)
      → check_changes space (c ∷ rest) seen ≡ ok tt
      → ((change_key c).space ≡ space)
        × (contains (change_key c) seen ≡ false)
        × (check_change c ≡ ok tt)
        × (check_changes space rest (change_key c ∷ seen) ≡ ok tt)
  unfolding check_changes
  check_changes-parts space c rest seen h = ground (arith, str_iff (change_key c).space space)

  check_changes-pass :
      (space : String) (changes : List (Change V)) (seen : List RecordKey)
      → check_changes space changes seen ≡ ok tt
      → ChangesPass space changes seen
  check_changes-pass space [] seen h = record { targets = fresh_none seen; targeted = tt }
  check_changes-pass space (c ∷ rest) seen h =
      let p = check_changes-parts space c rest seen h in
      let more = check_changes-pass space rest (change_key c ∷ seen) p.3 in
      record {
        targets = fresh_more (change_key c) (map change_key rest) seen p.1 more.targets;
        targeted = ((p.0, check_change-clear c p.2), more.targeted);
      }

  validate_plan-parts :
      (p q : ChangePlan V) (limits : Limits)
      → validate_plan p limits ≡ ok q
      → (length p.changes ≤ limits.max_records)
        × (check_changes p.scope.space p.changes [] ≡ ok tt)
        × (q ≡ p)
  unfolding validate_plan
  validate_plan-parts p q limits h = ground arith

  -- A plan that passes the checks of `decode_change_plan` is returned as it is, has no more changes
  -- than the limit, names no record twice, targets only records in the space of its scope, and never
  -- both sets and clears a field.
  pub validate_plan-IsCoherent :
      (p q : ChangePlan V) (limits : Limits)
      → validate_plan p limits ≡ ok q
      → (q ≡ p) × IsCoherent limits p
  validate_plan-IsCoherent p q limits h =
      let (few, c, same) = validate_plan-parts p q limits h in
      let k = check_changes-pass p.scope.space p.changes [] c in
      (same, record { few = few; targets = k.targets.once; changes = k.targeted })
