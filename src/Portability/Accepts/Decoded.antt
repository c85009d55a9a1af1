-- ===== src/Portability/Accepts/Decoded.antt =====
-- What has been checked of the bytes that `decode_bundle` and `decode_change_plan` accept.
use symbiotic_foundation.Base.{
  ℕ, suc, ◌+◌, String, Bool, true, false, ◌||◌, Option, some, List, [], ◌∷◌, distinct, ◌==◌,
  string_eq, str_iff, length, IsFresh, fresh_none, fresh_more, ◌≡◌, ◌≤◌, refl, sym, subst, arith,
  inl, inr,
}
use symbiotic_foundation.Portability.Model.{Limits, Bundle, ChangePlan}
use symbiotic_foundation.Portability.Checked.{ok, Checked-cases}
use symbiotic_foundation.Portability.Decode.{
  Json, broken, scalar, array, object, Items, no_items, item, Fields, no_fields, field, count_items,
  collection_limit, check_field, check_fields, root_limits, is_unique, are_unique, all_unique,
  decode, decode_bundle, decode_change_plan,
}
use symbiotic_foundation.Portability.Accepts.Bundles.{IsConsistent, validate_bundle-IsConsistent}
use symbiotic_foundation.Portability.Accepts.Plans.{IsCoherent, validate_plan-IsCoherent}

abbrev pub names : Fields → List String
names no_fields = []
names (field name j fields) = name ∷ names fields

abbrev pub size : Items → ℕ
size no_items = 0
size (item j items) = suc (size items)

-- An array of at most `limit` items.
abbrev pub IsShort : ℕ → Json → Type 0
IsShort limit (array items) = size items ≤ limit
IsShort limit _ = ⊥

-- No object in the value repeats a key, and the reader got through all of it.
abbrev mutual
  pub KeysDiffer : Json → Type 0
  KeysDiffer broken = ⊥
  KeysDiffer scalar = Unit
  KeysDiffer (array items) = KeysDifferEach items
  KeysDiffer (object fields) = (distinct (names fields) ≡ true) × KeysDifferIn fields

  pub KeysDifferEach : Items → Type 0
  KeysDifferEach no_items = Unit
  KeysDifferEach (item j items) = KeysDiffer j × KeysDifferEach items

  pub KeysDifferIn : Fields → Type 0
  KeysDifferIn no_fields = Unit
  KeysDifferIn (field name j fields) = KeysDiffer j × KeysDifferIn fields

names-IsFresh :
    (found : List String) (fields : Fields)
    → all_unique found fields ≡ true
    → IsFresh (names fields) found
names-IsFresh found no_fields h = fresh_none found
names-IsFresh found (field name j fields) h =
    fresh_more name (names fields) found (ground arith)
      (names-IsFresh (name ∷ found) fields (ground arith))

mutual
  is_unique-KeysDiffer : (j : Json) → is_unique j ≡ true → KeysDiffer j
  is_unique-KeysDiffer broken h = absurd (cc (h))
  is_unique-KeysDiffer scalar h = tt
  is_unique-KeysDiffer (array items) h = are_unique-KeysDifferEach items h
  is_unique-KeysDiffer (object fields) h =
      ((names-IsFresh [] fields h).once, all_unique-KeysDifferIn [] fields h)

  are_unique-KeysDifferEach : (items : Items) → are_unique items ≡ true → KeysDifferEach items
  are_unique-KeysDifferEach no_items h = tt
  are_unique-KeysDifferEach (item j items) h =
      (is_unique-KeysDiffer j (ground arith), are_unique-KeysDifferEach items (ground arith))

  all_unique-KeysDifferIn :
      (found : List String) (fields : Fields) → all_unique found fields ≡ true → KeysDifferIn fields
  all_unique-KeysDifferIn found no_fields h = tt
  all_unique-KeysDifferIn found (field name j fields) h = (
    is_unique-KeysDiffer j (ground arith),
    all_unique-KeysDifferIn (name ∷ found) fields (ground arith),
  )

-- The collections at the root are within the limits.
abbrev pub InLimits : Limits → Fields → Type 0
InLimits limits no_fields = Unit
InLimits limits (field name j fields) =
    (name == "records" ≡ true → IsShort limits.max_records j)
    × (name == "changes" ≡ true → IsShort limits.max_records j)
    × (name == "artifacts" ≡ true → IsShort limits.max_artifacts j)
    × InLimits limits fields

abbrev pub RootInLimits : Limits → Json → Type 0
RootInLimits limits (object fields) = InLimits limits fields
RootInLimits limits _ = ⊥

count_items-le :
    (limit : ℕ) (items : Items) (count : ℕ)
    → count ≤ limit
    → count_items limit items count ≡ ok tt
    → count + size items ≤ limit
unfolding count_items
count_items-le limit no_items count c h = omega (arith, c)
count_items-le limit (item j items) count c h =
    omega (arith, count_items-le limit items (count + 1) (ground arith) (ground arith))

collection_limit-IsShort :
    (limit : ℕ) (j : Json) → collection_limit limit j ≡ ok tt → IsShort limit j
unfolding collection_limit
collection_limit-IsShort limit broken h = absurd (ground arith)
collection_limit-IsShort limit scalar h = absurd (ground arith)
collection_limit-IsShort limit (object _) h = absurd (ground arith)
collection_limit-IsShort limit (array items) h =
    omega (arith, count_items-le limit items 0 (omega arith) h)

artifacts_alone :
    (name : String) → name == "artifacts" ≡ true → (name == "records" || name == "changes") ≡ false
artifacts_alone name e =
    subst (λ (n : String). (n == "records" || n == "changes") ≡ false)
      (sym ((str_iff name "artifacts").0 e)) refl

check_fields-InLimits :
    (limits : Limits) (fields : Fields)
    → check_fields limits fields ≡ ok tt
    → InLimits limits fields
unfolding check_fields check_field
check_fields-InLimits limits no_fields h = tt
check_fields-InLimits limits (field name j fields) h = (
  λ e. collection_limit-IsShort limits.max_records j (ground (arith, e)),
  λ e. collection_limit-IsShort limits.max_records j (ground (arith, e)),
  λ e. collection_limit-IsShort limits.max_artifacts j (ground (arith, e, artifacts_alone name e)),
  check_fields-InLimits limits fields (ground arith),
)

root_limits-InLimits :
    (limits : Limits) (j : Json) → root_limits limits j ≡ ok tt → RootInLimits limits j
unfolding root_limits
root_limits-InLimits limits broken h = absurd (ground arith)
root_limits-InLimits limits scalar h = absurd (ground arith)
root_limits-InLimits limits (array items) h = absurd (ground arith)
root_limits-InLimits limits (object fields) h = check_fields-InLimits limits fields h

module _ {T : Type 0} where
  pub record Decodes (skim read : List ℕ → Json) (typed : List ℕ → Option T) (bytes : List ℕ)
      (limits : Limits) (value : T) : Type 0 where
    pub small : length bytes ≤ limits.max_input_bytes
    pub root : RootInLimits limits (skim bytes)
    pub keys : KeysDiffer (read bytes)
    pub decoded : typed bytes ≡ some value

  decode-Decodes :
      (skim read : List ℕ → Json) (typed : List ℕ → Option T) (bytes : List ℕ) (limits : Limits)
      (t : T)
      → decode skim read typed bytes limits ≡ ok t
      → Decodes skim read typed bytes limits t
  unfolding decode
  decode-Decodes skim read typed bytes limits t h = record {
    small = ground arith;
    root = root_limits-InLimits limits (skim bytes) (ground arith);
    keys = is_unique-KeysDiffer (read bytes) (ground arith);
    decoded = ground arith;
  }

module _ {V : Type 0} where
  -- When `decode_bundle` accepts some bytes, there are no more of them than the limit, the collections
  -- at the root were counted within the limits, no object anywhere repeats a key, and the bundle that
  -- it answers with is what the bytes decode to and is consistent.
  pub decode_bundle-IsConsistent :
      (is_date : String → Bool) (skim read : List ℕ → Json) (typed : List ℕ → Option (Bundle V))
      (bytes : List ℕ) (limits : Limits) (b : Bundle V)
      → decode_bundle is_date skim read typed bytes limits ≡ ok b
      → Decodes skim read typed bytes limits b × IsConsistent limits b
  unfolding decode_bundle
  decode_bundle-IsConsistent is_date skim read typed bytes limits b h =
      elim (Checked-cases (decode skim read typed bytes limits)) [
        | inl (e, d) ↦ absurd (ground arith)
        | inr (c, d) ↦
            let same : c ≡ b = ground arith in
            (
              rw same at (decode-Decodes skim read typed bytes limits c d),
              rw same at (validate_bundle-IsConsistent is_date c limits (ground arith)),
            )
      ]

  -- When `decode_change_plan` accepts some bytes, there are no more of them than the limit, the
  -- collections at the root were counted within the limits, no object anywhere repeats a key, and the
  -- plan that it answers with is what the bytes decode to and is coherent.
  pub decode_change_plan-IsCoherent :
      (skim read : List ℕ → Json) (typed : List ℕ → Option (ChangePlan V)) (bytes : List ℕ)
      (limits : Limits) (p : ChangePlan V)
      → decode_change_plan skim read typed bytes limits ≡ ok p
      → Decodes skim read typed bytes limits p × IsCoherent limits p
  unfolding decode_change_plan
  decode_change_plan-IsCoherent skim read typed bytes limits p h =
      elim (Checked-cases (decode skim read typed bytes limits)) [
        | inl (e, d) ↦ absurd (ground arith)
        | inr (c, d) ↦
            let (same, k) = validate_plan-IsCoherent c p limits (rw d at h) in
            (rw (sym same) at (decode-Decodes skim read typed bytes limits c d), rw (sym same) at k)
      ]
