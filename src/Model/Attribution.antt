-- ===== src/Model/Attribution.antt =====
-- Bookkeeping diagnostics are added to an error without changing what it says of the failure.
use symbiotic_foundation.Base.{List, [], ◌∷◌, ◌++◌, append_none, ◌≡◌, refl}
use symbiotic_foundation.Core.Diagnostics.{DiagnosticCode}
use symbiotic_foundation.Model.Errors.{
  ModelError, http_not_sent, http, unavailable, auth, rate_limited, budget_exhausted, timeout,
  unsupported, invalid_request, provider, queue, cache, diagnostics, code, primary_of, http_details,
  secondary_of, failure_charge, with_diagnostics,
}

-- `e` says of the failure what `f` does.
pub record IsAttributed (e f : ModelError) : Type 0 where
  pub code_kept : code e ≡ code f
  pub class_kept : primary_of e ≡ primary_of f
  pub details_kept : http_details e ≡ http_details f
  pub charge_kept : failure_charge e ≡ failure_charge f

same : (e : ModelError) → IsAttributed e e
same e = record { code_kept = refl; class_kept = refl; details_kept = refl; charge_kept = refl }

wrapped :
    (e : ModelError) (c : DiagnosticCode) (cs : List DiagnosticCode)
    → IsAttributed (diagnostics e (c ∷ cs)) e
unfolding code primary_of http_details failure_charge
wrapped e c cs = record {
  code_kept = refl;
  class_kept = refl;
  details_kept = refl;
  charge_kept = refl;
}

extended :
    (p : ModelError) (s t : List DiagnosticCode) → IsAttributed (diagnostics p t) (diagnostics p s)
unfolding code primary_of http_details failure_charge
extended p s t = record {
  code_kept = refl;
  class_kept = refl;
  details_kept = refl;
  charge_kept = refl;
}

-- Adding diagnostics to an error keeps its code, its class, the status and retry hint of the
-- provider and the charge, and appends the diagnostics, in order, to those that it carries.
pub with_diagnostics-IsAttributed :
    (e : ModelError) (added : List DiagnosticCode)
    → IsAttributed (with_diagnostics e added) e
      × (secondary_of (with_diagnostics e added) ≡ secondary_of e ++ added)
unfolding with_diagnostics secondary_of
with_diagnostics-IsAttributed e [] = (same e, append_none (secondary_of e))
with_diagnostics-IsAttributed (diagnostics p s) (c ∷ cs) = (extended p s (s ++ c ∷ cs), refl)
with_diagnostics-IsAttributed (http_not_sent p) (c ∷ cs) = (wrapped (http_not_sent p) c cs, refl)
with_diagnostics-IsAttributed (http p s r) (c ∷ cs) = (wrapped (http p s r) c cs, refl)
with_diagnostics-IsAttributed (unavailable d) (c ∷ cs) = (wrapped (unavailable d) c cs, refl)
with_diagnostics-IsAttributed (auth d) (c ∷ cs) = (wrapped (auth d) c cs, refl)
with_diagnostics-IsAttributed (rate_limited d) (c ∷ cs) = (wrapped (rate_limited d) c cs, refl)
with_diagnostics-IsAttributed (budget_exhausted d) (c ∷ cs) =
    (wrapped (budget_exhausted d) c cs, refl)
with_diagnostics-IsAttributed (timeout d) (c ∷ cs) = (wrapped (timeout d) c cs, refl)
with_diagnostics-IsAttributed (unsupported m) (c ∷ cs) = (wrapped (unsupported m) c cs, refl)
with_diagnostics-IsAttributed (invalid_request d) (c ∷ cs) =
    (wrapped (invalid_request d) c cs, refl)
with_diagnostics-IsAttributed (provider d) (c ∷ cs) = (wrapped (provider d) c cs, refl)
with_diagnostics-IsAttributed (queue d) (c ∷ cs) = (wrapped (queue d) c cs, refl)
with_diagnostics-IsAttributed (cache d) (c ∷ cs) = (wrapped (cache d) c cs, refl)
