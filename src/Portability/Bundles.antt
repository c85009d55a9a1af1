-- ===== src/Portability/Bundles.antt =====
-- `validate_bundle` and the checks of `decode_change_plan` in
-- crates/symbiotic-portability/src/validate.rs.
use symbiotic_foundation.Base.{
  String, Bool, true, false, not, ◌||◌, List, [], ◌∷◌, any, contains, ltb, ◌==◌, nat_eq, string_eq,
  is_some, if◌then◌else◌, length, keys,
}
use symbiotic_foundation.Portability.Model.{
  Limits, unsupported_version, invalid_value, duplicate_identity, scope_mismatch,
  artifact_unavailable, limit_exceeded, Scope, RecordKey, key_eq, Binding, Artifact, ArtifactTarget,
  bundle_file, PortableRecord, record_key, Capability, EnumerationKind, snapshot, Bundle, Change,
  create, update, delete, change_key, ChangePlan,
}
use symbiotic_foundation.Portability.Checked.{Checked, ok, ◌>>=◌, ◌>>◌, refuse_if, check_each}
use symbiotic_foundation.Portability.Checks.{
  nonempty, unique, scope, validate_scope, key, timestamp, provenance, check_some,
}
use symbiotic_foundation.Portability.Artifacts.{validate_artifact, max_safe_integer}

abbrev pub contract_name : String
contract_name = "data-portability/1"

-- What the loop over the artifacts has found: their identifiers, and the paths of bundled files.
pub record Found : Type 0 where
  pub artifacts : List String
  pub paths : List String

abbrev pub add_path : ArtifactTarget → Found → Checked Found
add_path (bundle_file path) found =
    refuse_if (contains path found.paths) duplicate_identity
    >> ok (record found { paths = path ∷ found.paths })
add_path _ found = ok found

unfoldable pub check_artifact : Limits → Artifact → Found → Checked Found
check_artifact limits a found =
    nonempty a.artifact_id
    >> refuse_if (contains a.artifact_id found.artifacts) duplicate_identity
    >> validate_artifact a limits
    >> add_path a.target (record found { artifacts = a.artifact_id ∷ found.artifacts })

unfoldable pub check_artifacts : Limits → List Artifact → Found → Checked Found
check_artifacts limits [] found = ok found
check_artifacts limits (a ∷ rest) found =
    check_artifact limits a found >>= check_artifacts limits rest

-- One turn of the inner loop, with the identifiers of the bindings found so far.
unfoldable pub check_binding :
    (String → Bool) → List String → Scope → Binding → List String → Checked (List String)
check_binding is_date artifacts around a found =
    nonempty a.binding_id
    >> nonempty a.asserted_media_type
    >> refuse_if (contains a.binding_id found) duplicate_identity
    >> refuse_if (not (contains a.artifact_id artifacts)) artifact_unavailable
    >> validate_scope a.scope around
    >> provenance is_date a.provenance
    >> ok (a.binding_id ∷ found)

unfoldable pub check_bindings :
    (String → Bool) → List String → Scope → List Binding → List String → Checked (List String)
check_bindings is_date artifacts around [] found = ok found
check_bindings is_date artifacts around (a ∷ rest) found =
    check_binding is_date artifacts around a found >>= check_bindings is_date artifacts around rest

-- What the loop over the records has found: their identities, and the identifiers of all bindings.
pub record Seen : Type 0 where
  pub identities : List RecordKey
  pub bindings : List String

abbrev pub check_capability : Capability → Checked (Unit {0})
check_capability c = nonempty c.profile >> unique c.editable_fields

abbrev pub is_snapshot : EnumerationKind → Bool
is_snapshot snapshot = true
is_snapshot _ = false

module _ {V : Type 0} where
  -- The checks of a record before its bindings.
  unfoldable pub check_record :
      (String → Bool) → Scope → List RecordKey → PortableRecord V → Checked (Unit {0})
  check_record is_date around identities r =
      key (record_key r)
      >> refuse_if (contains (record_key r) identities) duplicate_identity
      >> refuse_if (not (r.space == r.scope.space)) scope_mismatch
      >> validate_scope r.scope around
      >> refuse_if (r.record_schema_version == 0 || ltb max_safe_integer r.record_schema_version)
          invalid_value
      >> check_some nonempty r.revision
      >> provenance is_date r.provenance

  unfoldable pub check_records :
      (String → Bool) → List String → Scope → List (PortableRecord V) → Seen → Checked Seen
  check_records is_date artifacts around [] seen = ok seen
  check_records is_date artifacts around (r ∷ rest) seen =
      check_record is_date around seen.identities r
      >> (check_bindings is_date artifacts r.scope r.artifact_bindings seen.bindings >>= λ bindings.
          check_records is_date artifacts around rest
            (record { identities = record_key r ∷ seen.identities; bindings = bindings }))

  -- The checks of `validate_bundle` before its loops.
  unfoldable pub check_header : (String → Bool) → Bundle V → Limits → Checked (Unit {0})
  check_header is_date b limits =
      refuse_if (not (b.contract == contract_name)) unsupported_version
      >> check_each nonempty (
          b.profile ∷ b.bundle_id ∷ b.producer.application ∷ b.producer.version
          ∷ b.enumeration.selection ∷ [])
      >> scope b.scope
      >> timestamp is_date b.exported_at
      >> refuse_if
          (ltb limits.max_records (length b.records)
            || ltb limits.max_artifacts (length b.artifacts))
          limit_exceeded
      >> refuse_if
          (if is_snapshot b.enumeration.kind
            then not (is_some b.enumeration.snapshot_revision)
            else is_some b.enumeration.snapshot_revision)
          invalid_value
      >> check_some nonempty b.enumeration.snapshot_revision
      >> unique b.enumeration.excluded_record_types

  unfoldable pub validate_bundle : (String → Bool) → Bundle V → Limits → Checked (Unit {0})
  validate_bundle is_date b limits =
      check_header is_date b limits
      >> (check_artifacts limits b.artifacts (record { artifacts = []; paths = [] }) >>= λ found.
          check_records is_date found.artifacts b.scope b.records
            (record { identities = []; bindings = [] })
          >>= λ seen. check_each check_capability b.capabilities)

  -- The `match` on one change.
  unfoldable pub check_change : Change V → Checked (Unit {0})
  check_change (create k value) = ok tt
  check_change (update k base_revision set clear) =
      nonempty base_revision
      >> unique clear
      >> refuse_if (any (λ field. contains field (keys set)) clear) invalid_value
  check_change (delete k base_revision reason) = nonempty base_revision >> nonempty reason

  unfoldable pub check_changes : String → List (Change V) → List RecordKey → Checked (Unit {0})
  check_changes space [] seen = ok tt
  check_changes space (c ∷ rest) seen =
      key (change_key c)
      >> refuse_if (not ((change_key c).space == space)) scope_mismatch
      >> refuse_if (contains (change_key c) seen) duplicate_identity
      >> check_change c
      >> check_changes space rest (change_key c ∷ seen)

  -- `decode_change_plan` after the decoding.
  unfoldable pub validate_plan : ChangePlan V → Limits → Checked (ChangePlan V)
  validate_plan p limits =
      refuse_if (not (p.contract == contract_name)) unsupported_version
      >> check_each nonempty (p.profile ∷ p.bundle_id ∷ p.operation_id ∷ [])
      >> scope p.scope
      >> refuse_if (ltb limits.max_records (length p.changes)) limit_exceeded
      >> check_changes p.scope.space p.changes []
      >> ok p
