-- ===== src/Portability/Accepts/Bundles.antt =====
-- What a bundle satisfies that `validate_bundle` accepts, alone and at its destination.
use symbiotic_foundation.Base.{
  String, Bool, true, false, not, List, [], ◌∷◌, map, any, All, contains, distinct, length, ◌==◌,
  string_eq, str_iff, ◌≡◌, ◌≤◌, inl, inr, arith,
}
use symbiotic_foundation.Portability.Model.{
  Limits, Scope, key_eq, Binding, Artifact, PortableRecord, record_key, Bundle,
}
use symbiotic_foundation.Portability.Checked.{ok, Checked-cases}
use symbiotic_foundation.Portability.Checks.{validate_scope, validate_destination}
use symbiotic_foundation.Portability.Artifacts.{validate_artifact}
use symbiotic_foundation.Portability.Bundles.{
  Found, check_artifacts, Seen, check_records, check_header, validate_bundle,
}
use symbiotic_foundation.Portability.Scopes.{validate_scope_trans}
use symbiotic_foundation.Portability.Accepts.Artifacts.{
  artifact_ids, paths_of, check_artifacts-pass,
}
use symbiotic_foundation.Portability.Accepts.Records.{
  IsBound, IsPlaced, all_binding_ids, check_records-pass,
}

all-IsBound :
    (known artifacts : List String) (around : Scope) (bindings : List Binding)
    → ((id : String) → contains id known ≡ contains id artifacts)
    → All (IsBound known around) bindings
    → All (IsBound artifacts around) bindings
all-IsBound known artifacts around [] h k = tt
all-IsBound known artifacts around (a ∷ rest) h k =
    ((ground (arith, h a.artifact_id, k.0.0), k.0.1), all-IsBound known artifacts around rest h k.1)

bindings_enter :
    (artifacts : List String) (around allowed : Scope) (bindings : List Binding)
    → validate_scope around allowed ≡ ok tt
    → All (IsBound artifacts around) bindings
    → All (λ (a : Binding). validate_scope a.scope allowed ≡ ok tt) bindings
bindings_enter artifacts around allowed [] w k = tt
bindings_enter artifacts around allowed (a ∷ rest) w k = (
  validate_scope_trans a.scope around allowed k.0.1 w,
  bindings_enter artifacts around allowed rest w k.1,
)

module _ {V : Type 0} where
  pub record IsConsistent (limits : Limits) (b : Bundle V) : Type 0 where
    pub few_records : length b.records ≤ limits.max_records
    pub few_artifacts : length b.artifacts ≤ limits.max_artifacts
    pub identities : distinct (map record_key b.records) ≡ true
    pub artifacts : distinct (artifact_ids b.artifacts) ≡ true
    pub paths : distinct (paths_of b.artifacts) ≡ true
    pub bindings : distinct (all_binding_ids b.records) ≡ true
    pub valid : All (λ (a : Artifact). validate_artifact a limits ≡ ok tt) b.artifacts
    pub placed : All (IsPlaced (artifact_ids b.artifacts) b.scope) b.records

  all-IsPlaced :
      (known artifacts : List String) (around : Scope) (records : List (PortableRecord V))
      → ((id : String) → contains id known ≡ contains id artifacts)
      → All (IsPlaced known around) records
      → All (IsPlaced artifacts around) records
  all-IsPlaced known artifacts around [] h k = tt
  all-IsPlaced known artifacts around (r ∷ rest) h k = (
    record {
      space = k.0.space;
      within = k.0.within;
      bound = all-IsBound known artifacts r.scope r.artifact_bindings h k.0.bound;
    },
    all-IsPlaced known artifacts around rest h k.1,
  )

  check_header-few :
      (is_date : String → Bool) (b : Bundle V) (limits : Limits)
      → check_header is_date b limits ≡ ok tt
      → (length b.records ≤ limits.max_records) × (length b.artifacts ≤ limits.max_artifacts)
  unfolding check_header
  check_header-few is_date b limits h = ground arith

  validate_bundle-loops :
      (is_date : String → Bool) (b : Bundle V) (limits : Limits)
      → validate_bundle is_date b limits ≡ ok tt
      → (check_header is_date b limits ≡ ok tt)
        × ((found : Found) × (check_artifacts limits b.artifacts
                (record { artifacts = []; paths = [] })
              ≡ ok found)
            × ((seen : Seen) × (check_records is_date found.artifacts b.scope b.records
                    (record { identities = []; bindings = [] })
                  ≡ ok seen)))
  unfolding validate_bundle
  validate_bundle-loops is_date b limits h = elim (Checked-cases (check_header is_date b limits)) [
    | inl (e, f) ↦ absurd (ground arith)
    | inr (u, f) ↦
        elim (Checked-cases
          (check_artifacts limits b.artifacts (record { artifacts = []; paths = [] }))) [
            | inl (e, g) ↦ absurd (ground arith)
            | inr (found, g) ↦
                elim (Checked-cases (
                  check_records is_date found.artifacts b.scope b.records
                    (record { identities = []; bindings = [] }))) [
                      | inl (e, k) ↦ absurd (ground arith)
                      | inr (seen, k) ↦ (f, (found, g, (seen, k)))
                    ]
          ]
  ]

  -- A bundle that `validate_bundle` accepts is consistent: it is within the limits; no record
  -- identity, artifact, path of a bundled file or binding occurs twice; every artifact is valid; every
  -- record lies within the scope of the bundle and in the space of its own scope; and every binding
  -- names an artifact of the bundle and lies within the scope of its record.
  pub validate_bundle-IsConsistent :
      (is_date : String → Bool) (b : Bundle V) (limits : Limits)
      → validate_bundle is_date b limits ≡ ok tt
      → IsConsistent limits b
  validate_bundle-IsConsistent is_date b limits h =
      let (c, (found, a, (seen, r))) = validate_bundle-loops is_date b limits h in
      let few = check_header-few is_date b limits c in
      let p =
        check_artifacts-pass limits b.artifacts (record { artifacts = []; paths = [] }) found a in
      let q =
        check_records-pass is_date found.artifacts b.scope b.records
          (record { identities = []; bindings = [] }) seen r in
      record {
        few_records = few.0;
        few_artifacts = few.1;
        identities = q.identities.once;
        artifacts = p.ids.once;
        paths = p.paths.once;
        bindings = q.bindings.once;
        valid = p.valid;
        placed =
            all-IsPlaced found.artifacts (artifact_ids b.artifacts) b.scope b.records
              (λ id. ground (arith, p.holds id)) q.placed;
      }

  -- A record stays with its application and within the scope that the destination allows.
  abbrev pub MayEnter : String → Scope → PortableRecord V → Type 0
  MayEnter application allowed r =
      (r.application ≡ application)
      × (validate_scope r.scope allowed ≡ ok tt)
      × All (λ (a : Binding). validate_scope a.scope allowed ≡ ok tt) r.artifact_bindings

  records_enter :
      (artifacts : List String) (around allowed : Scope) (application : String)
      (records : List (PortableRecord V))
      → validate_scope around allowed ≡ ok tt
      → any (λ (r : PortableRecord V). not (r.application == application)) records ≡ false
      → All (IsPlaced artifacts around) records
      → All (MayEnter application allowed) records
  records_enter artifacts around allowed application [] w n k = tt
  records_enter artifacts around allowed application (r ∷ rest) w n k =
      let inside = validate_scope_trans r.scope around allowed k.0.within w in
      (
        (
          ground (arith, str_iff r.application application),
          inside,
          bindings_enter artifacts r.scope allowed r.artifact_bindings inside k.0.bound,
        ),
        records_enter artifacts around allowed application rest w (ground arith) k.1,
      )

  validate_destination-parts :
      (b : Bundle V) (application : String) (allowed : Scope)
      → validate_destination b application allowed ≡ ok tt
      → (validate_scope b.scope allowed ≡ ok tt)
        × (any (λ (r : PortableRecord V). not (r.application == application)) b.records ≡ false)
  unfolding validate_destination
  validate_destination-parts b application allowed h = ground arith

  -- When `validate_bundle` accepts a bundle and `validate_destination` accepts it for an application
  -- and a scope, every record belongs to that application, and every record and every binding lies
  -- within that scope: the contents of a bundle cannot widen the scope of its destination.
  pub validate_destination-contains :
      (is_date : String → Bool) (b : Bundle V) (limits : Limits) (application : String)
      (allowed : Scope)
      → validate_bundle is_date b limits ≡ ok tt
      → validate_destination b application allowed ≡ ok tt
      → All (MayEnter application allowed) b.records
  validate_destination-contains is_date b limits application allowed h d =
      let c = validate_bundle-IsConsistent is_date b limits h in
      let p = validate_destination-parts b application allowed d in
      records_enter (artifact_ids b.artifacts) b.scope allowed application b.records p.0 p.1
        c.placed
