-- ===== src/Portability/Model.antt =====
-- The wire values of crates/symbiotic-portability/src/model.rs, with the limits of lib.rs.
-- `V` is the JSON value, which the library only carries; a JSON object is an association list.
use symbiotic_foundation.Base.{
  ℕ, ◌*◌, String, Bool, true, ◌&&◌, Option, List, ◌==◌, Key, string_eq, str_iff, ◌↔◌, ◌≡◌, arith,
}

pub record Limits : Type 0 where
  pub max_input_bytes : ℕ
  pub max_records : ℕ
  pub max_artifacts : ℕ
  pub max_artifact_bytes : ℕ
  pub max_table_cells : ℕ

abbrev pub default_limits : Limits
default_limits = record {
  max_input_bytes = 8 * 1024 * 1024;
  max_records = 10000;
  max_artifacts = 10000;
  max_artifact_bytes = 64 * 1024 * 1024;
  max_table_cells = 100000;
}

pub data Error : Type 0 where
  unsupported_version invalid_value duplicate_identity scope_mismatch artifact_mismatch : Error
  artifact_unavailable limit_exceeded : Error

pub data Sensitivity : Type 0 where
  public shareable private restricted : Sensitivity

pub record Scope : Type 0 where
  pub space : String
  pub audience : List String
  pub sensitivity : Sensitivity

pub record RecordKey : Type 0 where
  pub application : String
  pub space : String
  pub record_type : String
  pub record_id : String

abbrev pub key_beq : RecordKey → RecordKey → Bool
key_beq a b =
    a.application == b.application
    && a.space == b.space
    && a.record_type == b.record_type
    && a.record_id == b.record_id

pub key_beq_iff : (a b : RecordKey) → (key_beq a b ≡ true) ↔ (a ≡ b)
key_beq_iff a b = ground (
  arith,
  str_iff a.application b.application,
  str_iff a.space b.space,
  str_iff a.record_type b.record_type,
  str_iff a.record_id b.record_id,
)

instance abbrev pub key_eq : Key RecordKey
key_eq = record { is_same = key_beq; same_iff = key_beq_iff }

pub record EvidenceRef : Type 0 where
  pub application : String
  pub space : String
  pub record_type : String
  pub record_id : String
  pub revision : Option String

pub record Provenance : Type 0 where
  pub producer : String
  pub producer_record_id : Option String
  pub captured_at : Option String
  pub locator : Option String
  pub derived_from : List EvidenceRef
  pub supersedes : Option EvidenceRef

pub data Authority : Type 0 where
  application_record source derived_claim : Authority

pub data ArtifactRole : Type 0 where
  captured_original application_serialization attachment derivative : ArtifactRole

pub record Binding : Type 0 where
  pub binding_id : String
  pub artifact_id : String
  pub role : ArtifactRole
  pub scope : Scope
  pub asserted_media_type : String
  pub display_filename : Option String
  pub provenance : Provenance

pub data ArtifactTarget : Type 0 where
  bundle_file : String → ArtifactTarget
  external : String → Option String → ArtifactTarget
  unavailable : String → ArtifactTarget

pub data Preservation : Type 0 where
  included_verified external_verified reference_only unavailable : Preservation

pub record Artifact : Type 0 where
  pub artifact_id : String
  pub sha256 : Option String
  pub byte_length : Option ℕ
  pub target : ArtifactTarget
  pub preservation : Preservation

pub record PortableRecord (V : Type 0) : Type 0 where
  pub application : String
  pub space : String
  pub record_type : String
  pub record_id : String
  pub record_schema_version : ℕ
  pub authority : Authority
  pub revision : Option String
  pub scope : Scope
  pub payload : List (String × V)
  pub provenance : Provenance
  pub artifact_bindings : List Binding

abbrev pub record_key : {V : Type 0} → PortableRecord V → RecordKey
record_key r = record {
  application = r.application;
  space = r.space;
  record_type = r.record_type;
  record_id = r.record_id;
}

pub data Format : Type 0 where
  json markdown csv docx xlsx pdf original : Format

pub data ExportMode : Type 0 where
  typed presentation exact_bytes none : ExportMode

pub data ImportMode : Type 0 where
  typed mapped extract preserve_only none : ImportMode

pub data EditMode : Type 0 where
  preview apply none : EditMode

pub record Capability : Type 0 where
  pub format : Format
  pub profile : String
  pub export : ExportMode
  pub import : ImportMode
  pub edit : EditMode
  pub editable_fields : List String
  pub losses : List String

pub record Producer : Type 0 where
  pub application : String
  pub version : String

pub data EnumerationKind : Type 0 where
  selection live_traversal snapshot : EnumerationKind

pub record Enumeration : Type 0 where
  pub kind : EnumerationKind
  pub complete : Bool
  pub selection : String
  pub snapshot_revision : Option String
  pub excluded_record_types : List String

pub record Bundle (V : Type 0) : Type 0 where
  pub contract : String
  pub profile : String
  pub bundle_id : String
  pub producer : Producer
  pub exported_at : String
  pub scope : Scope
  pub enumeration : Enumeration
  pub capabilities : List Capability
  pub records : List (PortableRecord V)
  pub artifacts : List Artifact

pub data Change (V : Type 0) : Type 0 where
  create : RecordKey → List (String × V) → Change V
  update : RecordKey → String → List (String × V) → List String → Change V
  delete : RecordKey → String → String → Change V

abbrev pub change_key : {V : Type 0} → Change V → RecordKey
change_key (create k value) = k
change_key (update k base_revision set clear) = k
change_key (delete k base_revision reason) = k

pub record ChangePlan (V : Type 0) : Type 0 where
  pub contract : String
  pub profile : String
  pub operation_id : String
  pub bundle_id : String
  pub scope : Scope
  pub changes : List (Change V)
