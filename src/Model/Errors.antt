-- ===== src/Model/Errors.antt =====
-- `ModelError` of crates/symbiotic-model/src/lib.rs, and what its users read of it.
use symbiotic_foundation.Base.{ℕ, Option, none, some, List, [], ◌∷◌, ◌++◌}
use symbiotic_foundation.Core.Diagnostics.{DiagnosticCode, invalid_configuration}

pub data ModelCapability : Type 0 where
  chat embedding rerank classify vision image_generation video_generation agent_task :
      ModelCapability

pub data ModelError : Type 0 where
  http_not_sent : (primary : ModelError) → ModelError
  http : (primary : ModelError) (status : ℕ) (retry_after_seconds : Option ℕ) → ModelError
  unavailable auth rate_limited budget_exhausted timeout : DiagnosticCode → ModelError
  unsupported : ModelCapability → ModelError
  invalid_request provider queue cache : DiagnosticCode → ModelError
  diagnostics : (primary : ModelError) (secondary : List DiagnosticCode) → ModelError

unfoldable pub code : ModelError → DiagnosticCode
code (http_not_sent primary) = code primary
code (unavailable c) = c
code (auth c) = c
code (rate_limited c) = c
code (budget_exhausted c) = c
code (timeout c) = c
code (invalid_request c) = c
code (provider c) = c
code (queue c) = c
code (cache c) = c
code (unsupported _) = invalid_configuration
code (diagnostics primary _) = code primary
code (http primary _ _) = code primary

unfoldable pub primary_of : ModelError → ModelError
primary_of (http_not_sent primary) = primary_of primary
primary_of (http primary _ _) = primary_of primary
primary_of (diagnostics primary _) = primary_of primary
primary_of (unavailable c) = unavailable c
primary_of (auth c) = auth c
primary_of (rate_limited c) = rate_limited c
primary_of (budget_exhausted c) = budget_exhausted c
primary_of (timeout c) = timeout c
primary_of (unsupported m) = unsupported m
primary_of (invalid_request c) = invalid_request c
primary_of (provider c) = provider c
primary_of (queue c) = queue c
primary_of (cache c) = cache c

unfoldable pub http_details : ModelError → Option (ℕ × Option ℕ)
http_details (http _ status retry_after_seconds) = some (status, retry_after_seconds)
http_details (diagnostics primary _) = http_details primary
http_details _ = none

unfoldable pub secondary_of : ModelError → List DiagnosticCode
secondary_of (diagnostics _ secondary) = secondary
secondary_of _ = []

pub data FailureCharge : Type 0 where
  unknown known_zero : FailureCharge

unfoldable pub failure_charge : ModelError → FailureCharge
failure_charge (http_not_sent _) = known_zero
failure_charge (diagnostics primary _) = failure_charge primary
failure_charge _ = unknown

unfoldable pub with_diagnostics : ModelError → List DiagnosticCode → ModelError
with_diagnostics e [] = e
with_diagnostics (diagnostics primary secondary) (c ∷ cs) =
    diagnostics primary (secondary ++ c ∷ cs)
with_diagnostics e (c ∷ cs) = diagnostics e (c ∷ cs)
