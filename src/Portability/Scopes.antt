-- ===== src/Portability/Scopes.antt =====
-- Containment of scopes is transitive, so what a selection holds stays within the destination.
use symbiotic_foundation.Base.{
  String, true, false, not, List, [], ◌∷◌, any, contains, string_eq, str_iff, ◌≡◌, refl, ◌≤◌, arith,
}
use symbiotic_foundation.Portability.Model.{Scope}
use symbiotic_foundation.Portability.Checked.{ok}
use symbiotic_foundation.Portability.Checks.{scope, rank, is_outside, validate_scope}

-- `child` names the same space, is no less sensitive, and has no reader that `parent` lacks.
pub record IsWithin (child parent : Scope) : Type 0 where
  pub space : child.space ≡ parent.space
  pub sensitivity : rank parent.sensitivity ≤ rank child.sensitivity
  pub audience : (v : String) → contains v child.audience ≡ true → contains v parent.audience ≡ true

any-not-contains :
    (xs ys : List String) (v : String)
    → any (λ x. not (contains x ys)) xs ≡ false
    → contains v xs ≡ true
    → contains v ys ≡ true
any-not-contains [] ys v h k = absurd (cc (k))
any-not-contains (x ∷ xs) ys v h k = ground (arith, any-not-contains xs ys v, str_iff x v)

all_contained :
    (xs ys : List String)
    → ((v : String) → contains v xs ≡ true → contains v ys ≡ true)
    → any (λ x. not (contains x ys)) xs ≡ false
all_contained [] ys h = refl
all_contained (x ∷ xs) ys h =
    ground (arith, h x, str_iff x x, all_contained xs ys (λ v k. h v (ground arith)))

-- What passes `validate_scope` is contained.
pub validate_scope-IsWithin :
    (child parent : Scope) → validate_scope child parent ≡ ok tt → IsWithin child parent
unfolding validate_scope is_outside
validate_scope-IsWithin child parent h = record {
  space = ground (arith, str_iff child.space parent.space);
  sensitivity = ground arith;
  audience = λ v k. any-not-contains child.audience parent.audience v (ground arith) k;
}

pub validate_scope-scopes :
    (child parent : Scope)
    → validate_scope child parent ≡ ok tt
    → (scope child ≡ ok tt) × (scope parent ≡ ok tt)
unfolding validate_scope
validate_scope-scopes child parent h = ground arith

-- `validate_scope` accepts two well-formed scopes of which the child is contained in the parent.
pub validate_scope_complete :
    (child parent : Scope)
    → scope child ≡ ok tt
    → scope parent ≡ ok tt
    → IsWithin child parent
    → validate_scope child parent ≡ ok tt
unfolding validate_scope is_outside
validate_scope_complete child parent a b w = ground (
  arith,
  w.space,
  w.sensitivity,
  str_iff child.space parent.space,
  all_contained child.audience parent.audience w.audience,
)

-- Containment is transitive: if `validate_scope` accepts `inner` in `middle` and `middle` in `outer`,
-- it accepts `inner` in `outer`.
pub validate_scope_trans :
    (inner middle outer : Scope)
    → validate_scope inner middle ≡ ok tt
    → validate_scope middle outer ≡ ok tt
    → validate_scope inner outer ≡ ok tt
validate_scope_trans inner middle outer h k =
    let a = validate_scope-IsWithin inner middle h in
    let b = validate_scope-IsWithin middle outer k in
    validate_scope_complete inner outer (validate_scope-scopes inner middle h).0
      (validate_scope-scopes middle outer k).1
      (record {
        space = ground (arith, a.space, b.space);
        sensitivity = ground (arith, a.sensitivity, b.sensitivity);
        audience = λ v c. b.audience v (a.audience v c);
      })
