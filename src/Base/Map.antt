-- ===== src/Base/Map.antt =====
-- Hash maps as association lists. The laws are in `if` form, with no side condition.
use mathlib.Core.Path.{◌≡◌, refl}
use mathlib.Core.List.{List, [], ◌∷◌}
use mathlib.Core.Option.{Option, none, some}
use native.Mathlib.Omega.{arith}
use symbiotic_foundation.Base.Tests.{if◌then◌else◌}
use symbiotic_foundation.Base.Keys.{Key, ◌==◌}
use symbiotic_foundation.Base.Lists.{contains, distinct, All}
use mathlib.Core.Bool.{true, ◌||◌}

abbrev pub map_some {ℓ} : {V : Type ℓ} → (V → V) → Option V → Option V
map_some f none = none
map_some f (some v) = some (f v)

module _ {ℓ κ} {K : Type ℓ} {V : Type κ} ⦃e : Key K⦄ where
  unfoldable pub get : List (K × V) → K → Option V
  get [] k = none
  get ((j, v) ∷ m) k = if j == k then some v else get m k

  unfoldable pub insert : List (K × V) → K → V → List (K × V)
  insert [] k v = (k, v) ∷ []
  insert ((j, w) ∷ m) k v = if j == k then (k, v) ∷ m else (j, w) ∷ insert m k v

  unfoldable pub remove : List (K × V) → K → List (K × V)
  remove [] k = []
  remove ((j, w) ∷ m) k = if j == k then remove m k else (j, w) ∷ remove m k

  -- `if let Some(value) = map.get_mut(k) { *value = f(value) }`
  unfoldable pub modify : List (K × V) → K → (V → V) → List (K × V)
  modify [] k f = []
  modify ((j, w) ∷ m) k f = if j == k then (j, f w) ∷ m else (j, w) ∷ modify m k f

  pub get-insert :
      (m : List (K × V)) (k j : K) (v : V)
      → get (insert m k v) j ≡ (if k == j then some v else get m j)
  unfolding get insert
  get-insert [] k j v = refl
  get-insert ((i, w) ∷ m) k j v =
      ground (arith, e.same_iff k j, e.same_iff i k, e.same_iff i j, get-insert m k j v)

  pub get-remove :
      (m : List (K × V)) (k j : K) → get (remove m k) j ≡ (if k == j then none else get m j)
  unfolding get remove
  get-remove [] k j = ground arith
  get-remove ((i, w) ∷ m) k j =
      ground (arith, e.same_iff k j, e.same_iff i k, e.same_iff i j, get-remove m k j)

  pub get-modify :
      (m : List (K × V)) (k j : K) (f : V → V)
      → get (modify m k f) j ≡ (if k == j then map_some f (get m j) else get m j)
  unfolding get modify
  get-modify [] k j f = ground arith
  get-modify ((i, w) ∷ m) k j f =
      ground (arith, e.same_iff k j, e.same_iff i k, e.same_iff i j, get-modify m k j f)

  abbrev pub keys : List (K × V) → List K
  keys [] = []
  keys ((j, v) ∷ m) = j ∷ keys m

  pub keys-modify : (m : List (K × V)) (k : K) (f : V → V) → keys (modify m k f) ≡ keys m
  unfolding modify
  keys-modify [] k f = refl
  keys-modify ((j, w) ∷ m) k f = ground (arith, keys-modify m k f)

  contains-keys-remove :
      (m : List (K × V)) (k j : K)
      → contains j (keys (remove m k)) ≡ true
      → contains j (keys m) ≡ true
  unfolding remove
  contains-keys-remove [] k j h = h
  contains-keys-remove ((i, w) ∷ m) k j h = ground (arith, contains-keys-remove m k j)

  pub keys-remove-distinct :
      (m : List (K × V)) (k : K) → distinct (keys m) ≡ true → distinct (keys (remove m k)) ≡ true
  unfolding remove
  keys-remove-distinct [] k d = refl
  keys-remove-distinct ((i, w) ∷ m) k d =
      ground (arith, contains-keys-remove m k i, keys-remove-distinct m k)

  contains-keys-insert :
      (m : List (K × V)) (k j : K) (v : V)
      → contains j (keys (insert m k v)) ≡ (contains j (keys m) || k == j)
  unfolding insert
  contains-keys-insert [] k j v = ground arith
  contains-keys-insert ((i, w) ∷ m) k j v =
      ground (arith, e.same_iff i k, e.same_iff i j, e.same_iff k j, contains-keys-insert m k j v)

  pub keys-insert-distinct :
      (m : List (K × V)) (k : K) (v : V)
      → distinct (keys m) ≡ true
      → distinct (keys (insert m k v)) ≡ true
  unfolding insert
  keys-insert-distinct [] k v d = refl
  keys-insert-distinct ((i, w) ∷ m) k v d = ground (
    arith,
    e.same_iff i k,
    e.same_iff k i,
    contains-keys-insert m k i v,
    keys-insert-distinct m k v,
  )

  -- Where no key occurs twice, every entry is what a lookup of its key finds.
  pub get-entries :
      (m full : List (K × V))
      → distinct (keys m) ≡ true
      → ((j : K) → contains j (keys m) ≡ true → get full j ≡ get m j)
      → All (λ (entry : K × V). get full entry.0 ≡ some entry.1) m
  unfolding get
  get-entries [] full d h = tt
  get-entries ((k, v) ∷ m) full d h = (
    ground (arith, e.same_iff k k, h k),
    get-entries m full (ground arith) (λ j c. ground (arith, e.same_iff k j, h j)),
  )
