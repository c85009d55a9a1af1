-- ===== src/Core/Identity.antt =====
-- crates/symbiotic-core/src/lib.rs: the identities that the crates share. A newtype around a
-- string is that string.
use symbiotic_foundation.Base.{ℕ, String, Bool, List, codes, not, ◌∷◌, [], ◌++◌, all, is_blank}

pub record ModelIdentity : Type 0 where
  pub operation : String
  pub operator : String
  pub model : String

-- `format!("{}:{}:{}", …)`, as code points.
unfoldable pub queue_id : ModelIdentity → List ℕ
queue_id m = codes m.operation ++ 58 ∷ codes m.operator ++ 58 ∷ codes m.model

pub record BindingIdentity : Type 0 where
  pub tenant : String
  pub provider : String
  pub revision : String
  pub account : String

unfoldable pub is_valid : BindingIdentity → Bool
is_valid b = all (λ s. not (is_blank s)) (b.tenant ∷ b.provider ∷ b.revision ∷ b.account ∷ [])
