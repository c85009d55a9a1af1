-- ===== src/Portability/Checks.antt =====
-- The small checks of crates/symbiotic-portability/src/validate.rs: texts, scopes, keys, provenance.
-- `is_date` is chrono's `DateTime::parse_from_rfc3339` as a test.
use symbiotic_foundation.Base.{
  ℕ, String, Bool, false, not, ◌||◌, Option, none, some, List, [], ◌∷◌, ◌++◌, any, contains, ltb,
  ◌==◌, nat_eq, string_eq, codes, is_blank, is_none,
}
use symbiotic_foundation.Portability.Model.{
  invalid_value, duplicate_identity, scope_mismatch, Sensitivity, public, shareable, private,
  restricted, Scope, RecordKey, EvidenceRef, Provenance, Bundle, ChangePlan, change_key,
}
use symbiotic_foundation.Portability.Checked.{Checked, ok, ◌>>◌, refuse_if, check_each}

unfoldable pub nonempty : String → Checked (Unit {0})
nonempty value = refuse_if (is_blank value || contains 0 (codes value)) invalid_value

-- The loop of `unique`, with the texts found so far.
unfoldable pub unique_from : List String → List String → Checked (Unit {0})
unique_from found [] = ok tt
unique_from found (v ∷ vs) =
    nonempty v >> refuse_if (contains v found) duplicate_identity >> unique_from (v ∷ found) vs

unfoldable pub unique : List String → Checked (Unit {0})
unique values = unique_from [] values

unfoldable pub scope : Scope → Checked (Unit {0})
scope s = nonempty s.space >> unique s.audience

-- The derived order of `Sensitivity`.
abbrev pub rank : Sensitivity → ℕ
rank public = 0
rank shareable = 1
rank private = 2
rank restricted = 3

unfoldable pub is_outside : Scope → Scope → Bool
is_outside child parent =
    not (child.space == parent.space)
    || ltb (rank child.sensitivity) (rank parent.sensitivity)
    || any (λ v. not (contains v parent.audience)) child.audience

unfoldable pub validate_scope : Scope → Scope → Checked (Unit {0})
validate_scope child parent =
    scope child >> scope parent >> refuse_if (is_outside child parent) scope_mismatch

unfoldable pub validate_destination : {V : Type 0} → Bundle V → String → Scope → Checked (Unit {0})
validate_destination bundle application allowed =
    nonempty application
    >> validate_scope bundle.scope allowed
    >> refuse_if (any (λ r. not (r.application == application)) bundle.records) scope_mismatch

unfoldable pub validate_plan_destination :
    {V : Type 0} → ChangePlan V → String → Scope → Checked (Unit {0})
validate_plan_destination plan application allowed =
    nonempty application
    >> validate_scope plan.scope allowed
    >> refuse_if (any (λ c. not ((change_key c).application == application)) plan.changes)
        scope_mismatch

unfoldable pub key : RecordKey → Checked (Unit {0})
key k = nonempty k.application >> nonempty k.space >> nonempty k.record_type >> nonempty k.record_id

abbrev pub timestamp : (String → Bool) → String → Checked (Unit {0})
timestamp is_date value = refuse_if (not (is_date value)) invalid_value

-- `if let Some(v) = value { check(v)? }`
abbrev pub check_some {ℓ} : {A : Type ℓ} → (A → Checked (Unit {0})) → Option A → Checked (Unit {0})
check_some check none = ok tt
check_some check (some a) = check a

abbrev pub to_list {ℓ} : {A : Type ℓ} → Option A → List A
to_list none = []
to_list (some a) = a ∷ []

unfoldable pub evidence : EvidenceRef → Checked (Unit {0})
evidence e =
    key (record {
      application = e.application;
      space = e.space;
      record_type = e.record_type;
      record_id = e.record_id;
    })
    >> check_some nonempty e.revision

unfoldable pub provenance : (String → Bool) → Provenance → Checked (Unit {0})
provenance is_date p =
    nonempty p.producer
    >> check_some (timestamp is_date) p.captured_at
    >> check_each evidence (p.derived_from ++ to_list p.supersedes)
    >> refuse_if (elim p.supersedes [ none ↦ false | some e ↦ is_none e.revision ]) invalid_value
