-- ===== src/Spend/Result.antt =====
-- `Result<T, ModelError>`, and the two errors of the ledger.
use symbiotic_foundation.Base.{Bool, true, false, Option, none, some, ◌≡◌, refl, ◌⊎◌, inl, inr}
use symbiotic_foundation.Core.Diagnostics.{spend_ledger_unavailable, spend_reconciliation_required}
use symbiotic_foundation.Model.Errors.{ModelError, queue}

pub data Result {ℓ} (A : Type ℓ) : Type ℓ where
  ok : A → Result A
  err : ModelError → Result A

infixl 5 ◌>>=◌ ◌>>◌
abbrev pub ◌>>=◌ {ℓ κ} : {A : Type ℓ} {B : Type κ} → Result A → (A → Result B) → Result B
ok a >>= f = f a
err e >>= f = err e

abbrev pub ◌>>◌ {ℓ} : {B : Type ℓ} → Result (Unit {0}) → Result B → Result B
ok _ >> m = m
err e >> m = err e

-- `if test { return Err(e) }`
abbrev pub refuse_if : Bool → ModelError → Result (Unit {0})
refuse_if true e = err e
refuse_if false e = ok tt

abbrev pub ok_or {ℓ} : {A : Type ℓ} → Option A → ModelError → Result A
ok_or none e = err e
ok_or (some a) e = ok a

abbrev pub is_ok {ℓ} : {A : Type ℓ} → Result A → Bool
is_ok (ok _) = true
is_ok (err _) = false

abbrev pub storage : ModelError
storage = queue spend_ledger_unavailable

abbrev pub conflict : ModelError
conflict = queue spend_reconciliation_required

pub Result-cases {ℓ} :
    {A : Type ℓ} (r : Result A) → ((e : ModelError) × (r ≡ err e)) ⊎ ((a : A) × (r ≡ ok a))
Result-cases (ok a) = inr (a, refl)
Result-cases (err e) = inl (e, refl)
