-- ===== src/Examples/Bundles.antt =====
-- The theorems about interchange, on a bundle with one record and one file.
use symbiotic_foundation.Base.{
  ◌⊎◌, byte_count, ℕ, zero, suc, String, Bool, true, Option, none, some, List, [], ◌∷◌, All, ◌≡◌,
  ◌≢◌, refl, arith, is_blank, is_white, codes, string_eq, nat_eq,
}
use symbiotic_foundation.Portability.Model.{
  default_limits, Scope, private, key_eq, Provenance, attachment, Artifact, bundle_file,
  included_verified, PortableRecord, application_record, selection, Bundle, update, ChangePlan,
}
use symbiotic_foundation.Portability.Checked.{ok}
use symbiotic_foundation.Portability.Checks.{
  nonempty, unique, unique_from, scope, validate_scope, is_outside, validate_destination, key,
  evidence, provenance,
}
use symbiotic_foundation.Portability.Artifacts.{
  validate_artifact, validate_target, validate_path, is_sha256, split,
}
use symbiotic_foundation.Portability.Bundles.{
  check_artifact, check_artifacts, check_binding, check_bindings, check_record, check_records,
  check_header, validate_bundle,
}
use symbiotic_foundation.Portability.Bytes.{read_taken, read_all, verify_artifact_bytes}
use symbiotic_foundation.Portability.Tables.{
  Table, set_size, validate_table, collect_rows, parse_csv, spreadsheet_text, markdown_text,
}
use symbiotic_foundation.Portability.Paths.{validate_path-walk, walk}
use symbiotic_foundation.Portability.Streams.{
  IsBounded, IsVerified, verify_artifact_bytes-IsVerified, verify_artifact_bytes-total,
}
use symbiotic_foundation.Portability.Presentations.{
  IsRegular, parse_csv-IsRegular, ReadsAsFormula, spreadsheet_text-safe, count, markdown_text-lines,
}
use symbiotic_foundation.Portability.Accepts.Bundles.{
  IsConsistent, MayEnter, validate_bundle-IsConsistent, validate_destination-contains,
}

abbrev everyone : Scope
everyone = record { space = "home"; audience = "ann" ∷ "bob" ∷ []; sensitivity = private }

abbrev only_ann : Scope
only_ann = record { space = "home"; audience = "ann" ∷ []; sensitivity = private }

abbrev nobody : Scope
nobody = record { space = "home"; audience = []; sensitivity = private }

validate_path-walk_example :
    walk (codes "bundle" ∷ []) (split 47 (codes "a/b.txt"))
    ≡ codes "bundle" ∷ codes "a" ∷ codes "b.txt" ∷ []
unfolding validate_path nonempty is_blank is_white split
validate_path-walk_example = validate_path-walk "a/b.txt" (codes "bundle" ∷ []) refl

abbrev hash_text : String
hash_text = "0000000000000000000000000000000000000000000000000000000000000001"

abbrev made_by : Provenance
made_by = record {
  producer = "notes";
  producer_record_id = none;
  captured_at = none;
  locator = none;
  derived_from = [];
  supersedes = none;
}

abbrev file : Artifact
file = record {
  artifact_id = "f";
  sha256 = some hash_text;
  byte_length = some 3;
  target = bundle_file "a/b.txt";
  preservation = included_verified;
}

abbrev note : PortableRecord ℕ
note = record {
  application = "notes";
  space = "home";
  record_type = "note";
  record_id = "1";
  record_schema_version = 1;
  authority = application_record;
  revision = none;
  scope = only_ann;
  payload = [];
  provenance = made_by;
  artifact_bindings =
      record {
        binding_id = "b";
        artifact_id = "f";
        role = attachment;
        scope = only_ann;
        asserted_media_type = "text/plain";
        display_filename = none;
        provenance = made_by;
      }
      ∷ [];
}

abbrev bundle : Bundle ℕ
bundle = record {
  contract = "data-portability/1";
  profile = "p";
  bundle_id = "x";
  producer = record { application = "notes"; version = "1" };
  exported_at = "2026-01-01T00:00:00Z";
  scope = only_ann;
  enumeration = record {
    kind = selection;
    complete = true;
    selection = "all";
    snapshot_revision = none;
    excluded_record_types = [];
  };
  capabilities = [];
  records = note ∷ [];
  artifacts = file ∷ [];
}

abbrev any_date : String → Bool
any_date s = true

accepted : validate_bundle any_date bundle default_limits ≡ ok tt
unfolding validate_bundle check_header check_artifacts check_artifact validate_artifact
    validate_target validate_path is_sha256 byte_count split check_records check_record
    check_bindings check_binding key evidence provenance validate_scope scope nonempty unique
    unique_from is_outside is_blank is_white
accepted = refl

validate_bundle-IsConsistent_example : IsConsistent default_limits bundle
validate_bundle-IsConsistent_example =
    validate_bundle-IsConsistent any_date bundle default_limits accepted

validate_destination-contains_example : All (MayEnter "notes" everyone) bundle.records
unfolding validate_destination validate_scope scope nonempty unique unique_from is_outside is_blank
    is_white
validate_destination-contains_example =
    validate_destination-contains any_date bundle default_limits "notes" everyone accepted refl

abbrev plan : ChangePlan ℕ
plan = record {
  contract = "data-portability/1";
  profile = "p";
  operation_id = "o";
  bundle_id = "x";
  scope = only_ann;
  changes =
      update
        (record { application = "notes"; space = "home"; record_type = "note"; record_id = "1" })
        "r1" (("title", 1) ∷ []) ("body" ∷ [])
      ∷ [];
}

-- A reader over a list of bytes, one at a time, and a digest that knows one input.
abbrev read_one : List ℕ → ℕ → Option (List ℕ × List ℕ)
read_one [] n = some ([], [])
read_one (b ∷ bs) zero = some ([], b ∷ bs)
read_one (b ∷ bs) (suc n) = some (b ∷ [], bs)

abbrev digest : List ℕ → String
digest bytes = hash_text

read_one-IsBounded : IsBounded read_one
read_one-IsBounded [] next n chunk h = ground arith
read_one-IsBounded (b ∷ bs) next zero chunk h = ground arith
read_one-IsBounded (b ∷ bs) next (suc n) chunk h = ground arith

verify_artifact_bytes-IsVerified_example : IsVerified read_one digest (1 ∷ 2 ∷ 3 ∷ []) file
unfolding verify_artifact_bytes read_all read_taken validate_artifact validate_target validate_path
    is_sha256 byte_count split nonempty is_blank is_white
verify_artifact_bytes-IsVerified_example =
    verify_artifact_bytes-IsVerified read_one digest (1 ∷ 2 ∷ 3 ∷ []) file default_limits
      read_one-IsBounded refl

verify_artifact_bytes-total_example :
    verify_artifact_bytes read_one digest (1 ∷ 2 ∷ []) file default_limits ≢ none
verify_artifact_bytes-total_example =
    verify_artifact_bytes-total read_one digest (1 ∷ 2 ∷ []) file default_limits

abbrev table : Table
table = record { columns = codes "x" ∷ []; rows = (codes "=1" ∷ []) ∷ [] }

parse_csv-IsRegular_example : IsRegular default_limits table
unfolding parse_csv collect_rows validate_table set_size byte_count is_white
parse_csv-IsRegular_example =
    parse_csv-IsRegular (λ bytes. true) (λ bytes. some (codes "x" ∷ []))
      (λ bytes. some (codes "=1" ∷ []) ∷ []) [] default_limits table refl

spreadsheet_text-safe_example :
    (¬ ReadsAsFormula (spreadsheet_text (codes " =1")))
    × ((spreadsheet_text (codes " =1") ≡ codes " =1")
        ⊎ ((spreadsheet_text (codes " =1") ≡ 39 ∷ codes " =1") × ReadsAsFormula (codes " =1")))
spreadsheet_text-safe_example = spreadsheet_text-safe (codes " =1")

markdown_text-lines_example : count 10 (markdown_text table) ≡ 3
markdown_text-lines_example = markdown_text-lines table
