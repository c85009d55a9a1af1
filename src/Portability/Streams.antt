-- ===== src/Portability/Streams.antt =====
-- What `verify_artifact_bytes` has read when it accepts, and that its fuel is enough.
use symbiotic_foundation.Base.{
  ℕ, zero, suc, ◌+◌, ◌-◌, ◌^◌, ◌%◌, String, Option, none, some, List, [], ◌∷◌, ◌++◌, min, ◌==◌,
  nat_eq, string_eq, str_iff, length, length-append, append_none, append_assoc, ◌≡◌, ◌≢◌, ◌≤◌, ◌<◌,
  sym, ap, ◌∙◌, arith, Bool-cases, Option-cases, inl, inr,
}
use symbiotic_foundation.Portability.Model.{Limits, Artifact}
use symbiotic_foundation.Portability.Checked.{ok, err, Checked-cases}
use symbiotic_foundation.Portability.Artifacts.{validate_artifact}
use symbiotic_foundation.Portability.Bytes.{
  buffer_size, read_taken, read_all, take_limit, compare_bytes, verify_read, verify_artifact_bytes,
}

within_limits :
    (a : Artifact) (limits : Limits) (size : ℕ)
    → validate_artifact a limits ≡ ok tt
    → a.byte_length ≡ some size
    → size ≤ 9007199254740991
unfolding validate_artifact
within_limits a limits size h n = ground arith

module _ {R : Type 0} where
  -- Read to its end, `reader` yields `bytes`.
  pub data Streams (read : R → ℕ → Option (List ℕ × R)) : R → List ℕ → Type 0 where
    ends :
        {reader : R} (n : ℕ) (next : R) → read reader n ≡ some ([], next) → Streams read reader []
    yields :
        {reader : R} (n : ℕ) (next : R) (chunk rest : List ℕ)
        → read reader n ≡ some (chunk, next)
        → Streams read next rest
        → Streams read reader (chunk ++ rest)

  -- `read` fills at most the buffer.
  abbrev pub IsBounded : (R → ℕ → Option (List ℕ × R)) → Type 0
  IsBounded read =
      (reader next : R) (n : ℕ) (chunk : List ℕ)
      → read reader n ≡ some (chunk, next)
      → length chunk ≤ n

  pub read_all_total :
      (fuel : ℕ) (read : R → ℕ → Option (List ℕ × R)) (reader : R) (left total : ℕ)
      (hashed : List ℕ)
      → left < fuel
      → read_all fuel read reader left total hashed ≢ none
  unfolding read_all read_taken
  read_all_total zero read reader left total hashed h e = absurd (omega (arith, h))
  read_all_total (suc fuel) read reader left total hashed h e = elim (Bool-cases (left == 0)) [
    | inl z ↦ ground arith
    | inr z ↦ elim (Option-cases (read reader (min buffer_size left))) [
      | inl r ↦ ground arith
      | inr (([], next), r) ↦ ground arith
      | inr ((b ∷ bs, next), r) ↦
          read_all_total fuel read next (left - length (b ∷ bs))
            ((total + length (b ∷ bs)) % 2 ^ 64) (hashed ++ b ∷ bs) (ground arith) (ground arith)
    ]
  ]

  -- What the loop has read when it ends well.
  record Reads (read : R → ℕ → Option (List ℕ × R)) (reader : R) (left total : ℕ) (hashed : List ℕ)
      (out : ℕ × List ℕ) : Type 0 where
    bytes : List ℕ
    all : out.1 ≡ hashed ++ bytes
    count : out.0 ≡ total + length bytes
    fits : length bytes ≤ left
    whole : length bytes < left → Streams read reader bytes

  Reads-more :
      (read : R → ℕ → Option (List ℕ × R)) (reader next : R) (n left total : ℕ)
      (hashed chunk : List ℕ) (out : ℕ × List ℕ)
      → length chunk ≤ left
      → total + left < 2 ^ 64
      → read reader n ≡ some (chunk, next)
      → Reads read next
          (left - length chunk)
          ((total + length chunk) % 2 ^ 64)
          (hashed ++ chunk)
          out
      → Reads read reader left total hashed out
  Reads-more read reader next n left total hashed chunk out l w e r = record {
    bytes = chunk ++ r.bytes;
    all = r.all ∙ append_assoc hashed chunk r.bytes;
    count = omega (arith, r.count, length-append chunk r.bytes, l, w);
    fits = omega (arith, r.fits, length-append chunk r.bytes, l);
    whole = λ k.
        yields n next chunk r.bytes e (r.whole (omega (arith, k, length-append chunk r.bytes, l)));
  }

  Reads-none :
      (read : R → ℕ → Option (List ℕ × R)) (reader : R) (left total : ℕ) (hashed : List ℕ)
      (out : ℕ × List ℕ)
      → out ≡ (total, hashed)
      → (0 < left → Streams read reader [])
      → Reads read reader left total hashed out
  Reads-none read reader left total hashed out e k = record {
    bytes = [];
    all = ap (λ (o : ℕ × List ℕ). o.1) e ∙ append_none hashed;
    count = omega (arith, ap (λ (o : ℕ × List ℕ). o.0) e);
    fits = omega arith;
    whole = k;
  }

  read_all-Reads :
      (fuel : ℕ) (read : R → ℕ → Option (List ℕ × R)) (reader : R) (left total : ℕ)
      (hashed : List ℕ) (out : ℕ × List ℕ)
      → IsBounded read
      → total + left < 2 ^ 64
      → read_all fuel read reader left total hashed ≡ some (ok out)
      → Reads read reader left total hashed out
  unfolding read_all read_taken
  read_all-Reads zero read reader left total hashed out c w h = absurd (cc (h))
  read_all-Reads (suc fuel) read reader left total hashed out c w h =
      elim (Bool-cases (left == 0)) [
        | inl z ↦
            Reads-none read reader left total hashed out (ground arith) (λ k. absurd (ground arith))
        | inr z ↦ elim (Option-cases (read reader (min buffer_size left))) [
          | inl r ↦ absurd (ground arith)
          | inr (([], next), r) ↦
              Reads-none read reader left total hashed out (ground arith)
                (λ k. ends (min buffer_size left) next r)
          | inr ((b ∷ bs, next), r) ↦
              let l : length (b ∷ bs) ≤ left =
                omega (arith, c reader next (min buffer_size left) (b ∷ bs) r) in
              Reads-more read reader next (min buffer_size left) left total hashed (b ∷ bs) out l w
                r
                (read_all-Reads fuel read next (left - length (b ∷ bs))
                  ((total + length (b ∷ bs)) % 2 ^ 64) (hashed ++ b ∷ bs) out c
                  (omega (arith, l, w)) (ground arith))
        ]
      ]

  -- What is known when the bytes are accepted: they are all that the reader yields, as many as the
  -- artifact declares, and their digest is the one that it declares.
  pub record IsVerified (read : R → ℕ → Option (List ℕ × R)) (digest : List ℕ → String) (reader : R)
      (a : Artifact) : Type 0 where
    pub bytes : List ℕ
    pub streams : Streams read reader bytes
    pub size : a.byte_length ≡ some (length bytes)
    pub hash : a.sha256 ≡ some (digest bytes)

  verify_parts :
      (read : R → ℕ → Option (List ℕ × R)) (digest : List ℕ → String) (reader : R) (a : Artifact)
      (expected : String) (size : ℕ)
      → IsBounded read
      → size + 1 < 2 ^ 64
      → a.sha256 ≡ some expected
      → a.byte_length ≡ some size
      → verify_read read digest reader (some expected) (some size) ≡ some (ok tt)
      → IsVerified read digest reader a
  verify_parts read digest reader a expected size c w s n h =
      elim (Option-cases (read_all (suc (take_limit size)) read reader (take_limit size) 0 [])) [
        | inl r ↦ absurd (ground arith)
        | inr (err e, r) ↦ absurd (ground arith)
        | inr (ok out, r) ↦
            let k =
              read_all-Reads (suc (take_limit size)) read reader (take_limit size) 0 [] out c
                (omega (arith, w)) r in
            let ends_well : compare_bytes digest expected size out ≡ ok tt = ground arith in
            let total : out.0 ≡ size = ground arith in
            let hash : digest out.1 ≡ expected = ground (arith, str_iff (digest out.1) expected) in
            record {
              bytes = k.bytes;
              streams = k.whole (omega (arith, k.count, total, w));
              size = n ∙ ap some (omega (arith, k.count, total));
              hash = s ∙ ap some (sym (ap digest (sym k.all) ∙ hash));
            }
      ]

  -- With a reader that keeps to its buffer, when `verify_artifact_bytes` accepts, the bytes that the
  -- reader yields up to its end are as many as the artifact declares, and have the declared digest.
  pub verify_artifact_bytes-IsVerified :
      (read : R → ℕ → Option (List ℕ × R)) (digest : List ℕ → String) (reader : R) (a : Artifact)
      (limits : Limits)
      → IsBounded read
      → verify_artifact_bytes read digest reader a limits ≡ some (ok tt)
      → IsVerified read digest reader a
  unfolding verify_artifact_bytes
  verify_artifact_bytes-IsVerified read digest reader a limits c h =
      elim (Checked-cases (validate_artifact a limits)) [
        | inl (e, v) ↦ absurd (ground arith)
        | inr (u, v) ↦ elim (Option-cases a.sha256) [
          | inl s ↦ absurd (ground arith)
          | inr (expected, s) ↦ elim (Option-cases a.byte_length) [
            | inl n ↦ absurd (ground arith)
            | inr (size, n) ↦
                verify_parts read digest reader a expected size c
                  (omega (arith, within_limits a limits size v n)) s n (ground arith)
          ]
        ]
      ]

  -- The fuel of the loop in `verify_artifact_bytes` is enough: it always has an answer.
  pub verify_artifact_bytes-total :
      (read : R → ℕ → Option (List ℕ × R)) (digest : List ℕ → String) (reader : R) (a : Artifact)
      (limits : Limits)
      → verify_artifact_bytes read digest reader a limits ≢ none
  unfolding verify_artifact_bytes
  verify_artifact_bytes-total read digest reader a limits h =
      elim (Checked-cases (validate_artifact a limits)) [
        | inl (e, v) ↦ ground arith
        | inr (u, v) ↦ elim (Option-cases a.sha256) [
          | inl s ↦ ground arith
          | inr (expected, s) ↦ elim (Option-cases a.byte_length) [
            | inl n ↦ ground arith
            | inr (size, n) ↦
                elim (Option-cases
                  (read_all (suc (take_limit size)) read reader (take_limit size) 0 [])) [
                    | inl r ↦
                        read_all_total (suc (take_limit size)) read reader (take_limit size) 0 []
                          (omega arith) r
                    | inr (x, r) ↦ ground arith
                  ]
          ]
        ]
      ]
