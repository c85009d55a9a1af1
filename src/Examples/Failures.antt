-- ===== src/Examples/Failures.antt =====
-- The theorem about errors of model calls.
use symbiotic_foundation.Base.{[], ◌∷◌, ◌++◌, ◌≡◌}
use symbiotic_foundation.Core.Diagnostics.{http_failure, lease_expired, queue_failure}
use symbiotic_foundation.Model.Errors.{unavailable, diagnostics, secondary_of, with_diagnostics}
use symbiotic_foundation.Model.Attribution.{IsAttributed, with_diagnostics-IsAttributed}

with_diagnostics-IsAttributed_example :
    IsAttributed
      (with_diagnostics
        (diagnostics (unavailable http_failure) (lease_expired ∷ []))
        (queue_failure ∷ []))
      (diagnostics (unavailable http_failure) (lease_expired ∷ []))
    × (secondary_of (
          with_diagnostics
            (diagnostics (unavailable http_failure) (lease_expired ∷ []))
            (queue_failure ∷ []))
        ≡ secondary_of (diagnostics (unavailable http_failure) (lease_expired ∷ []))
          ++ queue_failure ∷ [])
with_diagnostics-IsAttributed_example =
    with_diagnostics-IsAttributed (diagnostics (unavailable http_failure) (lease_expired ∷ []))
      (queue_failure ∷ [])
