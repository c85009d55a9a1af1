-- ===== src/Examples/Decoding.antt =====
-- The theorems about decoding, with a reader that finds one bundle and one plan.
use symbiotic_foundation.Base.{
  ℕ, true, Option, some, List, [], ◌∷◌, refl, is_blank, is_white, string_eq,
}
use symbiotic_foundation.Portability.Model.{
  default_limits, Scope, private, selection, Bundle, ChangePlan,
}
use symbiotic_foundation.Portability.Checks.{nonempty, unique, unique_from, scope}
use symbiotic_foundation.Portability.Bundles.{
  check_artifacts, check_records, check_header, validate_bundle, check_changes, validate_plan,
}
use symbiotic_foundation.Portability.Decode.{
  Json, scalar, array, object, no_items, no_fields, field, count_items, collection_limit,
  check_field, check_fields, root_limits, decode, decode_bundle, decode_change_plan,
}
use symbiotic_foundation.Portability.Accepts.Bundles.{IsConsistent}
use symbiotic_foundation.Portability.Accepts.Plans.{IsCoherent}
use symbiotic_foundation.Portability.Accepts.Decoded.{
  Decodes, decode_bundle-IsConsistent, decode_change_plan-IsCoherent,
}

abbrev home : Scope
home = record { space = "home"; audience = []; sensitivity = private }

abbrev no_records : Bundle ℕ
no_records = record {
  contract = "data-portability/1";
  profile = "p";
  bundle_id = "x";
  producer = record { application = "notes"; version = "1" };
  exported_at = "2026-01-01T00:00:00Z";
  scope = home;
  enumeration = record {
    kind = selection;
    complete = true;
    selection = "all";
    snapshot_revision = Option.none;
    excluded_record_types = [];
  };
  capabilities = [];
  records = [];
  artifacts = [];
}

abbrev no_changes : ChangePlan ℕ
no_changes = record {
  contract = "data-portability/1";
  profile = "p";
  operation_id = "o";
  bundle_id = "x";
  scope = home;
  changes = [];
}

abbrev tree : List ℕ → Json
tree bytes = object (field "records" (array no_items) (field "profile" scalar no_fields))

decode_bundle-IsConsistent_example :
    Decodes tree tree (λ bytes. some no_records) (123 ∷ 125 ∷ []) default_limits no_records
    × IsConsistent default_limits no_records
unfolding decode_bundle decode root_limits check_fields check_field collection_limit count_items
    validate_bundle check_header check_artifacts check_records scope nonempty unique unique_from
    is_blank is_white
decode_bundle-IsConsistent_example =
    decode_bundle-IsConsistent (λ s. true) tree tree (λ bytes. some no_records) (123 ∷ 125 ∷ [])
      default_limits no_records refl

decode_change_plan-IsCoherent_example :
    Decodes tree tree (λ bytes. some no_changes) (123 ∷ 125 ∷ []) default_limits no_changes
    × IsCoherent default_limits no_changes
unfolding decode_change_plan decode root_limits check_fields check_field collection_limit
    count_items validate_plan check_changes scope nonempty unique unique_from is_blank is_white
decode_change_plan-IsCoherent_example =
    decode_change_plan-IsCoherent tree tree (λ bytes. some no_changes) (123 ∷ 125 ∷ [])
      default_limits no_changes refl
