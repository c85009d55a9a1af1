-- ===== src/Base/Keys.antt =====
-- Equality of keys as an instance: texts, and pairs of keys.
use Prim.Native.Nat.{ℕ}
use Prim.Native.String.{String}
use mathlib.Core.Path.{◌≡◌, refl}
use mathlib.Core.Logic.{◌↔◌}
use mathlib.Core.Bool.{Bool, true, ◌&&◌}
use native.Mathlib.Omega.{arith}
use text.Mathlib.Text.{◌==◌ as str_eq}
use text.Mathlib.TextEquality.{eq_iff}
use symbiotic_foundation.Base.Tests.{nat_beq, nat_beq_iff}

pub record Key {ℓ} (A : Type ℓ) : Type ℓ where
  pub is_same : A → A → Bool
  pub same_iff : (k l : A) → (is_same k l ≡ true) ↔ (k ≡ l)

infix 50 ◌==◌
abbrev pub ◌==◌ {ℓ} : {A : Type ℓ} ⦃e : Key A⦄ → A → A → Bool
◌==◌ ⦃e⦄ = e.is_same

instance abbrev pub nat_eq : Key ℕ
nat_eq = record { is_same = nat_beq; same_iff = nat_beq_iff }

instance abbrev pub string_eq : Key String
string_eq = record { is_same = str_eq; same_iff = eq_iff }

abbrev pub pair_beq : String × String → String × String → Bool
pair_beq (a, b) (c, d) = str_eq a c && str_eq b d

pub pair_beq_iff : (p q : String × String) → (pair_beq p q ≡ true) ↔ (p ≡ q)
pair_beq_iff (a, b) (c, d) = ground (arith, eq_iff a c, eq_iff b d)

instance abbrev pub pair_eq : Key (String × String)
pair_eq = record { is_same = pair_beq; same_iff = pair_beq_iff }

pub str_refl : (s : String) → (s == s) ≡ true
str_refl s = (eq_iff s s).1 refl

pub str_iff : (s t : String) → ((s == t) ≡ true) ↔ (s ≡ t)
str_iff s t = eq_iff s t
