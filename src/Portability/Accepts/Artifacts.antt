-- ===== src/Portability/Accepts/Artifacts.antt =====
-- The loop of `validate_bundle` over the artifacts.
use symbiotic_foundation.Base.{
  String, false, ◌||◌, List, [], ◌∷◌, ◌++◌, map, All, contains, string_eq, IsFresh, fresh_none,
  fresh_more, ◌≡◌, inl, inr, arith,
}
use symbiotic_foundation.Portability.Model.{Limits, Artifact, ArtifactTarget, bundle_file, external}
use symbiotic_foundation.Portability.Checked.{ok, Checked-cases}
use symbiotic_foundation.Portability.Artifacts.{validate_artifact}
use symbiotic_foundation.Portability.Bundles.{Found, add_path, check_artifact, check_artifacts}

abbrev pub artifact_ids : List Artifact → List String
artifact_ids = map λ a. a.artifact_id

-- The paths of the bundled files.
abbrev pub path_of : ArtifactTarget → List String
path_of (bundle_file path) = path ∷ []
path_of _ = []

abbrev pub paths_of : List Artifact → List String
paths_of [] = []
paths_of (a ∷ rest) = path_of a.target ++ paths_of rest

pub record ArtifactsPass (limits : Limits) (artifacts : List Artifact) (found out : Found)
    : Type 0 where
  pub valid : All (λ (a : Artifact). validate_artifact a limits ≡ ok tt) artifacts
  pub ids : IsFresh (artifact_ids artifacts) found.artifacts
  pub paths : IsFresh (paths_of artifacts) found.paths
  pub holds :
      (id : String)
      → contains id out.artifacts
        ≡ (contains id (artifact_ids artifacts) || contains id found.artifacts)

record ArtifactPasses (limits : Limits) (a : Artifact) (found out : Found) : Type 0 where
  valid : validate_artifact a limits ≡ ok tt
  new : contains a.artifact_id found.artifacts ≡ false
  ids : out.artifacts ≡ a.artifact_id ∷ found.artifacts
  paths :
      (rest : List String) → IsFresh rest out.paths → IsFresh (path_of a.target ++ rest) found.paths

add_path-ids :
    (target : ArtifactTarget) (found out : Found)
    → add_path target found ≡ ok out
    → out.artifacts ≡ found.artifacts
add_path-ids (bundle_file path) found out h = ground arith
add_path-ids (external id version) found out h = ground arith
add_path-ids (ArtifactTarget.unavailable reason) found out h = ground arith

add_path-paths :
    (target : ArtifactTarget) (found out : Found) (rest : List String)
    → add_path target found ≡ ok out
    → IsFresh rest out.paths
    → IsFresh (path_of target ++ rest) found.paths
add_path-paths (bundle_file path) found out rest h f =
    let same : out.paths ≡ path ∷ found.paths = ground arith in
    fresh_more path rest found.paths (ground arith) (rw same at f)
add_path-paths (external id version) found out rest h f =
    let same : out.paths ≡ found.paths = ground arith in rw same at f
add_path-paths (ArtifactTarget.unavailable reason) found out rest h f =
    let same : out.paths ≡ found.paths = ground arith in rw same at f

check_artifact-passes :
    (limits : Limits) (a : Artifact) (found out : Found)
    → check_artifact limits a found ≡ ok out
    → ArtifactPasses limits a found out
unfolding check_artifact
check_artifact-passes limits a found out h =
    let last : add_path a.target (record found { artifacts = a.artifact_id ∷ found.artifacts })
        ≡ ok out =
      ground arith in
    record {
      valid = ground arith;
      new = ground arith;
      ids = add_path-ids a.target _ out last;
      paths = λ rest f. add_path-paths a.target _ out rest last f;
    }

-- Every artifact is valid, and no identifier or path of a bundled file occurs twice.
pub check_artifacts-pass :
    (limits : Limits) (artifacts : List Artifact) (found out : Found)
    → check_artifacts limits artifacts found ≡ ok out
    → ArtifactsPass limits artifacts found out
unfolding check_artifacts
check_artifacts-pass limits [] found out h = record {
  valid = tt;
  ids = fresh_none found.artifacts;
  paths = fresh_none found.paths;
  holds = λ id. ground arith;
}
check_artifacts-pass limits (a ∷ rest) found out h =
    elim (Checked-cases (check_artifact limits a found)) [
      | inl (e, f) ↦ absurd (ground arith)
      | inr (next, f) ↦
          let p = check_artifact-passes limits a found next f in
          let more = check_artifacts-pass limits rest next out (rw f at h) in
          record {
            valid = (p.valid, more.valid);
            ids =
                fresh_more a.artifact_id (artifact_ids rest) found.artifacts p.new
                  (rw p.ids at more.ids);
            paths = p.paths (paths_of rest) more.paths;
            holds = λ id. ground (arith, more.holds id, p.ids);
          }
    ]
