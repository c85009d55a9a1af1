-- ===== src/Portability/Decode.antt =====
-- The decoding of crates/symbiotic-portability/src/validate.rs, over serde_json.
-- `skim` and `read` are what the reader makes of the bytes, where the visitor skips the values and
-- where it visits them: a tree in the order of reading, which is `broken` where the reader fails.
-- `typed` is the decoding into the wire value.
use symbiotic_foundation.Base.{
  ℕ, ◌+◌, String, Bool, true, false, ◌&&◌, ◌||◌, not, Option, none, some, List, [], ◌∷◌, contains,
  ltb, ◌==◌, string_eq, if◌then◌else◌, length,
}
use symbiotic_foundation.Portability.Model.{
  Limits, invalid_value, limit_exceeded, Bundle, ChangePlan,
}
use symbiotic_foundation.Portability.Checked.{Checked, ok, err, ◌>>=◌, ◌>>◌, refuse_if}
use symbiotic_foundation.Portability.Bundles.{validate_bundle, validate_plan}

mutual
  pub data Json : Type 0 where
    broken scalar : Json
    array : Items → Json
    object : Fields → Json

  pub data Items : Type 0 where
    no_items : Items
    item : Json → Items → Items

  pub data Fields : Type 0 where
    no_fields : Fields
    field : String → Json → Fields → Fields

abbrev mutual
  -- The reader gets through the value.
  pub is_whole : Json → Bool
  is_whole broken = false
  is_whole scalar = true
  is_whole (array items) = are_whole items
  is_whole (object fields) = all_whole fields

  pub are_whole : Items → Bool
  are_whole no_items = true
  are_whole (item j items) = is_whole j && are_whole items

  pub all_whole : Fields → Bool
  all_whole no_fields = true
  all_whole (field name j fields) = is_whole j && all_whole fields

-- `CollectionLimit`: the items of an array, counted as they are skipped.
unfoldable pub count_items : ℕ → Items → ℕ → Checked (Unit {0})
count_items limit no_items count = ok tt
count_items limit (item j items) count =
    refuse_if (not (is_whole j)) invalid_value
    >> refuse_if (ltb limit (count + 1)) limit_exceeded
    >> count_items limit items (count + 1)

unfoldable pub collection_limit : ℕ → Json → Checked (Unit {0})
collection_limit limit (array items) = count_items limit items 0
collection_limit limit _ = err invalid_value

-- `RootLimits`
unfoldable pub check_field : Limits → String → Json → Checked (Unit {0})
check_field limits name j =
    if name == "records" || name == "changes"
    then collection_limit limits.max_records j
    else if name == "artifacts"
    then collection_limit limits.max_artifacts j
    else refuse_if (not (is_whole j)) invalid_value

unfoldable pub check_fields : Limits → Fields → Checked (Unit {0})
check_fields limits no_fields = ok tt
check_fields limits (field name j fields) = check_field limits name j >> check_fields limits fields

unfoldable pub root_limits : Limits → Json → Checked (Unit {0})
root_limits limits (object fields) = check_fields limits fields
root_limits limits _ = err invalid_value

abbrev mutual
  -- `UniqueJson`: no object repeats a key. `found` are its keys so far.
  pub is_unique : Json → Bool
  is_unique broken = false
  is_unique scalar = true
  is_unique (array items) = are_unique items
  is_unique (object fields) = all_unique [] fields

  pub are_unique : Items → Bool
  are_unique no_items = true
  are_unique (item j items) = is_unique j && are_unique items

  pub all_unique : List String → Fields → Bool
  all_unique found no_fields = true
  all_unique found (field name j fields) =
      not (contains name found) && is_unique j && all_unique (name ∷ found) fields

unfoldable pub decode :
    {T : Type 0}
    → (List ℕ → Json)
    → (List ℕ → Json)
    → (List ℕ → Option T)
    → List ℕ
    → Limits
    → Checked T
decode skim read typed bytes limits =
    refuse_if (ltb limits.max_input_bytes (length bytes)) limit_exceeded
    >> root_limits limits (skim bytes)
    >> refuse_if (not (is_unique (read bytes))) invalid_value
    >> elim (typed bytes) [ none ↦ err invalid_value | some value ↦ ok value ]

module _ {V : Type 0} where
  unfoldable pub decode_bundle :
      (String → Bool)
      → (List ℕ → Json)
      → (List ℕ → Json)
      → (List ℕ → Option (Bundle V))
      → List ℕ
      → Limits
      → Checked (Bundle V)
  decode_bundle is_date skim read typed bytes limits =
      decode skim read typed bytes limits >>= λ bundle.
      validate_bundle is_date bundle limits >> ok bundle

  unfoldable pub decode_change_plan :
      (List ℕ → Json)
      → (List ℕ → Json)
      → (List ℕ → Option (ChangePlan V))
      → List ℕ
      → Limits
      → Checked (ChangePlan V)
  decode_change_plan skim read typed bytes limits =
      decode skim read typed bytes limits >>= λ plan. validate_plan plan limits
