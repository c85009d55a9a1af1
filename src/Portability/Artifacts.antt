-- ===== src/Portability/Artifacts.antt =====
-- The checks of an artifact in crates/symbiotic-portability/src/validate.rs.
-- A text is a list of code points; where the source looks at bytes, it looks for ASCII ones only.
use symbiotic_foundation.Base.{
  ℕ, String, Bool, true, false, not, ◌&&◌, ◌||◌, Option, none, some, List, [], ◌∷◌, any, all,
  contains, ltb, leb, ◌==◌, nat_eq, string_eq, codes, is_some, byte_count, if◌then◌else◌,
}
use symbiotic_foundation.Portability.Model.{
  Limits, invalid_value, limit_exceeded, Artifact, ArtifactTarget, bundle_file, external,
  Preservation, included_verified, external_verified, reference_only,
}
use symbiotic_foundation.Portability.Model.{ArtifactTarget, Preservation}
use symbiotic_foundation.Portability.Checked.{Checked, err, ◌>>◌, refuse_if}
use symbiotic_foundation.Portability.Checks.{nonempty, check_some}

abbrev pub is_digit : ℕ → Bool
is_digit b = leb 48 b && leb b 57

abbrev pub is_letter : ℕ → Bool
is_letter b = (leb 65 b && leb b 90) || (leb 97 b && leb b 122)

unfoldable pub is_sha256 : String → Bool
is_sha256 s =
    byte_count (codes s) == 64 && all (λ b. is_digit b || (leb 97 b && leb b 102)) (codes s)

-- `str::starts_with` on a text, and `str::contains` of one.
abbrev pub starts_with : List ℕ → List ℕ → Bool
starts_with [] s = true
starts_with (c ∷ cs) [] = false
starts_with (c ∷ cs) (d ∷ ds) = c == d && starts_with cs ds

unfoldable pub contains_text : List ℕ → List ℕ → Bool
contains_text t [] = starts_with t []
contains_text t (d ∷ ds) = starts_with t (d ∷ ds) || contains_text t ds

-- `s.split(separator)`
abbrev pub push_front : ℕ → List (List ℕ) → List (List ℕ)
push_front c [] = (c ∷ []) ∷ []
push_front c (part ∷ parts) = (c ∷ part) ∷ parts

unfoldable pub split : ℕ → List ℕ → List (List ℕ)
split separator [] = [] ∷ []
split separator (c ∷ cs) =
    let rest = split separator cs in if c == separator then [] ∷ rest else push_front c rest

unfoldable pub external_id : String → Checked (Unit {0})
external_id value =
    nonempty value
    >> refuse_if
        (contains_text (codes "://") (codes value)
          || not (all (λ b. is_digit b || is_letter b || contains b (codes "._:/-")) (codes value)))
        invalid_value

-- A component that stands for no name: none at all, `.` or `..`.
abbrev pub is_special : List ℕ → Bool
is_special [] = true
is_special (c ∷ []) = c == 46
is_special (c ∷ d ∷ []) = c == 46 && d == 46
is_special _ = false

unfoldable pub validate_path : String → Checked (Unit {0})
validate_path path =
    nonempty path
    >> refuse_if
        (starts_with (codes "/") (codes path)
          || contains 92 (codes path)
          || contains 58 (codes path)
          || any is_special (split 47 (codes path)))
        invalid_value

abbrev pub max_safe_integer : ℕ
max_safe_integer = 9007199254740991

abbrev pub is_above : Option ℕ → ℕ → Bool
is_above none limit = false
is_above (some n) limit = ltb limit n

abbrev pub is_bad_hash : Option String → Bool
is_bad_hash none = false
is_bad_hash (some s) = not (is_sha256 s)

-- The `match` on the target and the preservation that is claimed for it.
unfoldable pub validate_target : ArtifactTarget → Preservation → Bool → Checked (Unit {0})
validate_target (bundle_file path) included_verified true = validate_path path
validate_target (external resource_id (some version)) external_verified true =
    external_id resource_id >> external_id version
validate_target (external resource_id version_id) reference_only exact =
    external_id resource_id >> check_some external_id version_id
validate_target (ArtifactTarget.unavailable reason) Preservation.unavailable exact = nonempty reason
validate_target _ _ _ = err invalid_value

unfoldable pub validate_artifact : Artifact → Limits → Checked (Unit {0})
validate_artifact a limits =
    refuse_if (is_bad_hash a.sha256) invalid_value
    >> refuse_if (is_above a.byte_length max_safe_integer) invalid_value
    >> refuse_if (is_above a.byte_length limits.max_artifact_bytes) limit_exceeded
    >> refuse_if (if is_some a.sha256 then not (is_some a.byte_length) else is_some a.byte_length)
        invalid_value
    >> validate_target a.target a.preservation (is_some a.sha256 && is_some a.byte_length)
