-- ===== src/Portability/Checked.antt =====
-- `Result<T, Error>` of crates/symbiotic-portability.
use symbiotic_foundation.Base.{Bool, true, false, List, [], ◌∷◌, ◌≡◌, refl, ◌⊎◌, inl, inr}
use symbiotic_foundation.Portability.Model.{Error}

pub data Checked {ℓ} (A : Type ℓ) : Type ℓ where
  ok : A → Checked A
  err : Error → Checked A

infixl 5 ◌>>=◌ ◌>>◌
abbrev pub ◌>>=◌ {ℓ κ} : {A : Type ℓ} {B : Type κ} → Checked A → (A → Checked B) → Checked B
ok a >>= f = f a
err e >>= f = err e

abbrev pub ◌>>◌ {ℓ} : {B : Type ℓ} → Checked (Unit {0}) → Checked B → Checked B
ok _ >> m = m
err e >> m = err e

-- `if test { return Err(e) }`
abbrev pub refuse_if : Bool → Error → Checked (Unit {0})
refuse_if true e = err e
refuse_if false e = ok tt

abbrev pub is_ok {ℓ} : {A : Type ℓ} → Checked A → Bool
is_ok (ok _) = true
is_ok (err _) = false

-- `for x in xs { check(x)? }`
abbrev pub check_each {ℓ} : {A : Type ℓ} → (A → Checked (Unit {0})) → List A → Checked (Unit {0})
check_each check [] = ok tt
check_each check (x ∷ xs) = check x >> check_each check xs

pub Checked-cases {ℓ} :
    {A : Type ℓ} (c : Checked A) → ((e : Error) × (c ≡ err e)) ⊎ ((a : A) × (c ≡ ok a))
Checked-cases (ok a) = inr (a, refl)
Checked-cases (err e) = inl (e, refl)
