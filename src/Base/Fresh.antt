-- ===== src/Base/Fresh.antt =====
-- Loops that collect what they have seen and refuse a repetition.
use mathlib.Core.Path.{◌≡◌, refl}
use mathlib.Core.Bool.{true, false, ◌||◌}
use mathlib.Core.List.{List, [], ◌∷◌, ◌++◌}
use native.Mathlib.Omega.{arith}
use symbiotic_foundation.Base.Keys.{Key}
use symbiotic_foundation.Base.Lists.{contains, distinct}

module _ {ℓ} {A : Type ℓ} ⦃e : Key A⦄ where
  -- No item of `xs` occurs twice, or in `found`.
  pub record IsFresh (xs found : List A) : Type ℓ where
    pub once : distinct xs ≡ true
    pub apart : (a : A) → contains a xs ≡ true → contains a found ≡ false

  pub fresh_none : (found : List A) → IsFresh [] found
  fresh_none found = record { once = refl; apart = λ a h. ground arith }

  pub fresh_more :
      (x : A) (xs found : List A)
      → contains x found ≡ false
      → IsFresh xs (x ∷ found)
      → IsFresh (x ∷ xs) found
  fresh_more x xs found h f = record {
    once = ground (arith, f.once, f.apart x, e.same_iff x x);
    apart = λ a k. ground (arith, f.apart a, e.same_iff x a);
  }

  pub contains-append :
      (a : A) (xs ys : List A) → contains a (xs ++ ys) ≡ (contains a xs || contains a ys)
  contains-append a [] ys = refl
  contains-append a (x ∷ xs) ys = ground (arith, contains-append a xs ys)

  -- Two loops one after the other.
  pub fresh_append :
      (xs ys found seen : List A)
      → IsFresh xs found
      → IsFresh ys seen
      → ((a : A) → contains a seen ≡ (contains a xs || contains a found))
      → IsFresh (xs ++ ys) found
  fresh_append [] ys found seen f g s = record {
    once = g.once;
    apart = λ a k. ground (arith, g.apart a k, s a);
  }
  fresh_append (x ∷ xs) ys found seen f g s = record {
    once = ground (
      arith,
      f.once,
      g.apart x,
      s x,
      e.same_iff x x,
      contains-append x xs ys,
      (fresh_append xs ys (x ∷ found) seen
          (record {
            once = ground (arith, f.once);
            apart = λ a k. ground (arith, f.once, f.apart a, e.same_iff x a);
          })
          g (λ a. ground (arith, s a))).once,
    );
    apart = λ a k. ground (arith, f.apart a, g.apart a, s a, contains-append a xs ys);
  }
