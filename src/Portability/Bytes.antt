-- ===== src/Portability/Bytes.antt =====
-- `verify_artifact_bytes` of crates/symbiotic-portability/src/validate.rs.
-- A byte is a number; the reader is a parameter: a state, and a call that reads at most so many bytes
-- into the buffer or fails. `digest` is SHA-256 in hexadecimal, of all the bytes that were hashed.
use symbiotic_foundation.Base.{
  ℕ, zero, suc, ◌+◌, ◌-◌, ◌^◌, ◌%◌, String, not, ◌||◌, Option, none, some, List, [], ◌∷◌, ◌++◌, min,
  ◌==◌, nat_eq, string_eq, length, if◌then◌else◌,
}
use symbiotic_foundation.Portability.Model.{
  Limits, artifact_unavailable, artifact_mismatch, Artifact,
}
use symbiotic_foundation.Portability.Checked.{Checked, ok, err, refuse_if}
use symbiotic_foundation.Portability.Artifacts.{validate_artifact}

-- `[0u8; 16384]`
abbrev pub buffer_size : ℕ
buffer_size = 16384

abbrev pub compare_bytes : (List ℕ → String) → String → ℕ → ℕ × List ℕ → Checked (Unit {0})
compare_bytes digest expected size (total, hashed) =
    refuse_if (not (total == size) || not (digest hashed == expected)) artifact_mismatch

-- `length.saturating_add(1)`
abbrev pub take_limit : ℕ → ℕ
take_limit size = min (size + 1) (2 ^ 64 - 1)

module _ {R : Type 0} where
  -- `Take::read` with the buffer: past its limit it reads nothing more.
  unfoldable pub read_taken : (R → ℕ → Option (List ℕ × R)) → R → ℕ → Option (List ℕ × (R × ℕ))
  read_taken read reader left =
      if left == 0 then some ([], (reader, 0)) else elim (read reader (min buffer_size left)) [
        | none ↦ none
        | some (bytes, reader') ↦ some (bytes, (reader', left - length bytes))
      ]

  -- The loop, on fuel: what was counted in `total` and hashed. `none` stands for fuel that ran out.
  unfoldable pub read_all :
      ℕ → (R → ℕ → Option (List ℕ × R)) → R → ℕ → ℕ → List ℕ → Option (Checked (ℕ × List ℕ))
  read_all zero read reader left total hashed = none
  read_all (suc fuel) read reader left total hashed = elim (read_taken read reader left) [
    | none ↦ some (err artifact_unavailable)
    | some ([], next) ↦ some (ok (total, hashed))
    | some (b ∷ bs, (reader', left')) ↦
        read_all fuel read reader' left' ((total + length (b ∷ bs)) % 2 ^ 64) (hashed ++ b ∷ bs)
  ]

  abbrev pub verify_read :
      (R → ℕ → Option (List ℕ × R))
      → (List ℕ → String)
      → R
      → Option String
      → Option ℕ
      → Option (Checked (Unit {0}))
  verify_read read digest reader none size = some (err artifact_unavailable)
  verify_read read digest reader (some expected) none = some (err artifact_unavailable)
  verify_read read digest reader (some expected) (some size) =
      elim (read_all (suc (take_limit size)) read reader (take_limit size) 0 []) [
        | none ↦ none
        | some (err e) ↦ some (err e)
        | some (ok got) ↦ some (compare_bytes digest expected size got)
      ]

  unfoldable pub verify_artifact_bytes :
      (R → ℕ → Option (List ℕ × R))
      → (List ℕ → String)
      → R
      → Artifact
      → Limits
      → Option (Checked (Unit {0}))
  verify_artifact_bytes read digest reader a limits = elim (validate_artifact a limits) [
    | err e ↦ some (err e)
    | ok _ ↦ verify_read read digest reader a.sha256 a.byte_length
  ]
