-- ===== src/Portability/Paths.antt =====
-- Paths of bundled files that `validate_path` accepts name a file below the directory of the bundle.
use symbiotic_foundation.Base.{
  ℕ, String, false, ◌&&◌, List, [], ◌∷◌, ◌++◌, any, ◌==◌, nat_eq, codes, append_none, append_assoc,
  if◌then◌else◌, ◌≡◌, refl, ap, ◌∙◌, arith,
}
use symbiotic_foundation.Portability.Checked.{ok}
use symbiotic_foundation.Portability.Artifacts.{is_special, split, validate_path}

abbrev pub drop_last : List (List ℕ) → List (List ℕ)
drop_last [] = []
drop_last (c ∷ []) = []
drop_last (c ∷ d ∷ cs) = c ∷ drop_last (d ∷ cs)

-- How a file system follows one component: nothing and `.` stay, `..` climbs, a name descends.
abbrev pub follow : List (List ℕ) → List ℕ → List (List ℕ)
follow place [] = place
follow place (c ∷ []) = if c == 46 then place else place ++ (c ∷ []) ∷ []
follow place (c ∷ d ∷ []) =
    if c == 46 && d == 46 then drop_last place else place ++ (c ∷ d ∷ []) ∷ []
follow place name = place ++ name ∷ []

abbrev pub walk : List (List ℕ) → List (List ℕ) → List (List ℕ)
walk place [] = place
walk place (c ∷ cs) = walk (follow place c) cs

follow-name :
    (place : List (List ℕ)) (c : List ℕ) → is_special c ≡ false → follow place c ≡ place ++ c ∷ []
follow-name place [] h = absurd (cc (h))
follow-name place (c ∷ []) h = ground arith
follow-name place (c ∷ d ∷ []) h = ground arith
follow-name place (c ∷ d ∷ e ∷ rest) h = refl

walk_names :
    (place parts : List (List ℕ)) → any is_special parts ≡ false → walk place parts ≡ place ++ parts
walk_names place [] h = append_none place
walk_names place (c ∷ cs) h =
    ap (λ p. walk p cs) (follow-name place c (ground arith))
    ∙ walk_names (place ++ c ∷ []) cs (ground arith)
    ∙ append_assoc place (c ∷ []) cs

validate_path-parts :
    (path : String) → validate_path path ≡ ok tt → any is_special (split 47 (codes path)) ≡ false
unfolding validate_path
validate_path-parts path h = ground arith

-- From any directory, following the components of a path that `validate_path` accepts only descends:
-- it leads to the directory with all components of the path behind it, so never outside it.
pub validate_path-walk :
    (path : String) (place : List (List ℕ))
    → validate_path path ≡ ok tt
    → walk place (split 47 (codes path)) ≡ place ++ split 47 (codes path)
validate_path-walk path place h =
    walk_names place (split 47 (codes path)) (validate_path-parts path h)
