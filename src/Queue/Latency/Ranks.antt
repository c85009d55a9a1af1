-- ===== src/Queue/Latency/Ranks.antt =====
-- The percentiles of a set of samples: the nearest ranks, which are in bounds.
use symbiotic_foundation.Base.{
  ℕ, zero, suc, ◌-◌, ◌*◌, ◌^◌, Bool, true, ◌||◌, ◌&&◌, some, List, [], ◌∷◌, leb, ltb, length,
  get_elem?, if◌then◌else◌, ◌+◌, contains, ◌==◌, nat_eq, nat_beq_iff, ◌≡◌, ◌≤◌, ◌<◌, refl, sym, ◌∙◌,
  arith, Bool-cases, inl, inr,
}
use symbiotic_foundation.Base.Outcome.{done, expect}
use symbiotic_foundation.Queue.Latency.{
  LatencyStats, place, sort, rank, nearest_rank, last, stats_of, from_samples,
}

abbrev pub is_sorted : List ℕ → Bool
is_sorted [] = true
is_sorted (a ∷ []) = true
is_sorted (a ∷ b ∷ bs) = leb a b && is_sorted (b ∷ bs)

contains-place : (x a : ℕ) (bs : List ℕ) → contains x (place a bs) ≡ (a == x || contains x bs)
unfolding place
contains-place x a [] = refl
contains-place x a (b ∷ bs) = ground (arith, contains-place x a bs)

contains-sort : (x : ℕ) (xs : List ℕ) → contains x (sort xs) ≡ contains x xs
unfolding sort
contains-sort x [] = refl
contains-sort x (a ∷ rest) = ground (arith, contains-place x a (sort rest), contains-sort x rest)

length-place : (a : ℕ) (bs : List ℕ) → length (place a bs) ≡ suc (length bs)
unfolding place
length-place a [] = refl
length-place a (b ∷ bs) = ground (arith, length-place a bs)

length-sort : (xs : List ℕ) → length (sort xs) ≡ length xs
unfolding sort
length-sort [] = refl
length-sort (a ∷ rest) = omega (arith, length-place a (sort rest), length-sort rest)

is_sorted-place : (a : ℕ) (bs : List ℕ) → is_sorted bs ≡ true → is_sorted (place a bs) ≡ true
unfolding place
is_sorted-place a [] h = refl
is_sorted-place a (b ∷ []) h = ground arith
is_sorted-place a (b ∷ c ∷ bs) h = ground (arith, is_sorted-place a (c ∷ bs))

is_sorted-sort : (xs : List ℕ) → is_sorted (sort xs) ≡ true
unfolding sort
is_sorted-sort [] = refl
is_sorted-sort (a ∷ rest) = is_sorted-place a (sort rest) (is_sorted-sort rest)

-- In a sorted list, the items are in the order of their places.
sorted_le :
    (xs : List ℕ) (i j x y : ℕ)
    → is_sorted xs ≡ true
    → i ≤ j
    → get_elem? xs i ≡ some x
    → get_elem? xs j ≡ some y
    → x ≤ y
sorted_le [] i j x y h l e f = absurd (cc (e))
sorted_le (a ∷ []) zero zero x y h l e f = ground arith
sorted_le (a ∷ []) zero (suc j) x y h l e f = absurd (cc (f))
sorted_le (a ∷ []) (suc i) j x y h l e f = absurd (cc (e))
sorted_le (a ∷ b ∷ bs) zero zero x y h l e f = ground arith
sorted_le (a ∷ b ∷ bs) zero (suc j) x y h l e f =
    ground (arith, sorted_le (b ∷ bs) zero j b y (ground arith) (omega arith) refl f)
sorted_le (a ∷ b ∷ bs) (suc i) zero x y h l e f = absurd (omega (arith, l))
sorted_le (a ∷ b ∷ bs) (suc i) (suc j) x y h l e f =
    sorted_le (b ∷ bs) i j x y (ground arith) (omega (arith, l)) e f

-- How many items pass a test.
abbrev pub tally : (ℕ → Bool) → List ℕ → ℕ
tally test [] = 0
tally test (x ∷ xs) = (if test x then 1 else 0) + tally test xs

tally-place :
    (test : ℕ → Bool) (a : ℕ) (bs : List ℕ) → tally test (place a bs) ≡ tally test (a ∷ bs)
unfolding place
tally-place test a [] = refl
tally-place test a (b ∷ bs) = ground (arith, tally-place test a bs)

tally-sort : (test : ℕ → Bool) (xs : List ℕ) → tally test (sort xs) ≡ tally test xs
unfolding sort
tally-sort test [] = refl
tally-sort test (a ∷ rest) = omega (arith, tally-place test a (sort rest), tally-sort test rest)

-- The sample at a place of a sorted list: more samples than this are at most it, and no more than
-- this are below it.
tally-leb :
    (xs : List ℕ) (i a : ℕ)
    → is_sorted xs ≡ true
    → get_elem? xs i ≡ some a
    → suc i ≤ tally (λ x. leb x a) xs
tally-leb [] i a s e = absurd (cc (e))
tally-leb (x ∷ xs) zero a s e = ground arith
tally-leb (x ∷ []) (suc i) a s e = absurd (cc (e))
tally-leb (x ∷ y ∷ xs) (suc i) a s e = ground (
  arith,
  sorted_le (x ∷ y ∷ xs) 0 (suc i) x a s (omega arith) refl e,
  tally-leb (y ∷ xs) i a (ground arith) e,
)

none_below :
    (xs : List ℕ) (x a : ℕ) → is_sorted (x ∷ xs) ≡ true → a ≤ x → tally (λ y. ltb y a) (x ∷ xs) ≡ 0
none_below [] x a s h = ground arith
none_below (y ∷ xs) x a s h = ground (arith, none_below xs y a (ground arith) (ground arith))

tally-ltb :
    (xs : List ℕ) (i a : ℕ)
    → is_sorted xs ≡ true
    → get_elem? xs i ≡ some a
    → tally (λ x. ltb x a) xs ≤ i
tally-ltb [] i a s e = absurd (cc (e))
tally-ltb (x ∷ xs) zero a s e = omega (arith, none_below xs x a s (ground arith))
tally-ltb (x ∷ []) (suc i) a s e = absurd (cc (e))
tally-ltb (x ∷ y ∷ xs) (suc i) a s e = ground (arith, tally-ltb (y ∷ xs) i a (ground arith) e)

get_elem?-in : (xs : List ℕ) (i : ℕ) → i < length xs → (x : ℕ) × (get_elem? xs i ≡ some x)
get_elem?-in [] i h = absurd (omega (arith, h))
get_elem?-in (a ∷ xs) zero h = (a, refl)
get_elem?-in (a ∷ xs) (suc i) h = get_elem?-in xs i (omega (arith, h))

get_elem?-contains : (xs : List ℕ) (i x : ℕ) → get_elem? xs i ≡ some x → contains x xs ≡ true
get_elem?-contains [] i x h = absurd (cc (h))
get_elem?-contains (a ∷ xs) zero x h = ground (arith, nat_beq_iff a x)
get_elem?-contains (a ∷ xs) (suc i) x h = ground (arith, get_elem?-contains xs i x h)

contains-get_elem? :
    (xs : List ℕ) (x : ℕ)
    → contains x xs ≡ true
    → (i : ℕ) × (i < length xs) × (get_elem? xs i ≡ some x)
contains-get_elem? [] x h = absurd (cc (h))
contains-get_elem? (a ∷ xs) x h = elim (Bool-cases (a == x)) [
  | inl e ↦ (0, omega arith, ground (arith, nat_beq_iff a x))
  | inr n ↦ let (i, l, g) = contains-get_elem? xs x (ground arith) in (suc i, omega (arith, l), g)
]

last-get_elem? : (x : ℕ) (xs : List ℕ) → last (x ∷ xs) ≡ get_elem? (x ∷ xs) (length xs)
last-get_elem? x [] = refl
last-get_elem? x (y ∷ ys) = last-get_elem? y ys

rank-bounds : (n percentile : ℕ) → 1 ≤ n → n < 2 ^ 57 → percentile ≤ 100 → rank n percentile - 1 < n
unfolding rank
rank-bounds n percentile a b c = omega (arith, product_le n percentile c)
  where
    product_le : (n percentile : ℕ) → percentile ≤ 100 → percentile * n ≤ 100 * n
    product_le n percentile c = grind arith

rank-le : (n p r : ℕ) → p ≤ r → r ≤ 100 → n < 2 ^ 57 → rank n p - 1 ≤ rank n r - 1
unfolding rank
rank-le n p r a b c =
    let small : p * n ≤ r * n = grind arith in
    let big : r * n ≤ 100 * n = grind arith in omega (arith, small, big, c)

rank-ceiling :
    (n percentile : ℕ)
    → 1 ≤ n
    → n < 2 ^ 57
    → 1 ≤ percentile
    → percentile ≤ 100
    → (percentile * n ≤ 100 * suc (rank n percentile - 1))
      × (100 * (rank n percentile - 1) < percentile * n)
unfolding rank
rank-ceiling n percentile a b c d =
    let small : percentile * n ≤ 100 * n = grind arith in
    let big : 1 ≤ percentile * n = grind arith in
    (omega (arith, small, big), omega (arith, small, big))

-- The nearest rank: `value` is the least sample such that this percentage of the samples, or more, is
-- at most it.
pub record IsPercentile (percentile value : ℕ) (samples : List ℕ) : Type 0 where
  pub sampled : contains value samples ≡ true
  pub reached : percentile * length samples ≤ 100 * tally (λ x. leb x value) samples
  pub least : 100 * tally (λ x. ltb x value) samples < percentile * length samples

percentile_lem :
    (xs : List ℕ) (percentile a : ℕ)
    → 1 ≤ length xs
    → length xs < 2 ^ 57
    → 1 ≤ percentile
    → percentile ≤ 100
    → is_sorted xs ≡ true
    → get_elem? xs (rank (length xs) percentile - 1) ≡ some a
    → IsPercentile percentile a xs
percentile_lem xs percentile a h l p q s e =
    let i = rank (length xs) percentile - 1 in
    let (up, down) = rank-ceiling (length xs) percentile h l p q in
    record {
      sampled = get_elem?-contains xs i a e;
      reached = omega (arith, up, tally-leb xs i a s e);
      least = omega (arith, down, tally-ltb xs i a s e);
    }

-- The summary of some samples, none of which is forgotten.
pub record Summarises (samples : List ℕ) (r : LatencyStats) : Type 0 where
  pub counts : r.count ≡ length samples
  pub middle : IsPercentile 50 r.p50_ms samples
  pub high : IsPercentile 95 r.p95_ms samples
  pub top : contains r.max_ms samples ≡ true
  pub ordered : (r.p50_ms ≤ r.p95_ms) × (r.p95_ms ≤ r.max_ms)
  pub longest : (x : ℕ) → contains x samples ≡ true → x ≤ r.max_ms

stats_of-done :
    (xs : List ℕ) (a b c : ℕ)
    → get_elem? xs (rank (length xs) 50 - 1) ≡ some a
    → get_elem? xs (rank (length xs) 95 - 1) ≡ some b
    → last xs ≡ some c
    → stats_of xs ≡ done (record { count = length xs; p50_ms = a; p95_ms = b; max_ms = c })
unfolding stats_of nearest_rank
stats_of-done xs a b c e f g = rw e (rw f (rw (g, expect) refl))

stats_of_lem :
    (xs : List ℕ)
    → 1 ≤ length xs
    → length xs < 2 ^ 57
    → is_sorted xs ≡ true
    → (r : LatencyStats) × (stats_of xs ≡ done r) × Summarises xs r
stats_of_lem [] h l s = absurd (omega (arith, h))
stats_of_lem (x ∷ xs) h l s =
    let n = length (x ∷ xs) in
    let (a, e) = get_elem?-in (x ∷ xs) (rank n 50 - 1) (rank-bounds n 50 h l (omega arith)) in
    let (b, f) = get_elem?-in (x ∷ xs) (rank n 95 - 1) (rank-bounds n 95 h l (omega arith)) in
    let (c, g) = get_elem?-in (x ∷ xs) (length xs) (omega arith) in
    let top : last (x ∷ xs) ≡ some c = last-get_elem? x xs ∙ g in
    (
      record { count = n; p50_ms = a; p95_ms = b; max_ms = c },
      stats_of-done (x ∷ xs) a b c e f top,
      record {
        counts = refl;
        middle = percentile_lem (x ∷ xs) 50 a h l (omega arith) (omega arith) s e;
        high = percentile_lem (x ∷ xs) 95 b h l (omega arith) (omega arith) s f;
        top = get_elem?-contains (x ∷ xs) (length xs) c g;
        ordered = (
          sorted_le (x ∷ xs) (rank n 50 - 1) (rank n 95 - 1) a b s
              (rank-le n 50 95 (omega arith) (omega arith) l) e f,
          sorted_le (x ∷ xs) (rank n 95 - 1) (length xs) b c s
              (omega (arith, rank-bounds n 95 h l (omega arith))) f g,
        );
        longest = λ y k.
            let (i, below, at) = contains-get_elem? (x ∷ xs) y k in
            sorted_le (x ∷ xs) i (length xs) y c s (omega (arith, below)) at g;
      },
    )

sort-IsPercentile :
    (xs : List ℕ) (percentile value : ℕ)
    → IsPercentile percentile value (sort xs)
    → IsPercentile percentile value xs
sort-IsPercentile xs percentile value k = record {
  sampled = sym (contains-sort value xs) ∙ k.sampled;
  reached = rw⁻¹ (length-sort xs) (rw⁻¹ (tally-sort (λ x. leb x value) xs) k.reached);
  least = rw⁻¹ (length-sort xs) (rw⁻¹ (tally-sort (λ x. ltb x value) xs) k.least);
}

-- Of fewer than 2^57 samples, and of at least one, `from_samples` makes a summary without a panic: it
-- counts them all; its p50 is the least sample that half of the samples do not exceed, its p95 the
-- least that 95 in 100 do not exceed; its maximum is a sample, and no sample is above it.
pub from_samples-Summarises :
    (x : ℕ) (xs : List ℕ)
    → length (x ∷ xs) < 2 ^ 57
    → (r : LatencyStats) × (from_samples (x ∷ xs) ≡ done r) × Summarises (x ∷ xs) r
unfolding from_samples
from_samples-Summarises x xs l =
    let n = length-sort (x ∷ xs) in
    let (r, e, k) =
      stats_of_lem (sort (x ∷ xs)) (omega (arith, n)) (omega (arith, n, l))
        (is_sorted-sort (x ∷ xs)) in
    (
      r,
      e,
      record {
        counts = k.counts ∙ n;
        middle = sort-IsPercentile (x ∷ xs) 50 r.p50_ms k.middle;
        high = sort-IsPercentile (x ∷ xs) 95 r.p95_ms k.high;
        top = sym (contains-sort r.max_ms (x ∷ xs)) ∙ k.top;
        ordered = k.ordered;
        longest = λ y m. k.longest y (contains-sort y (x ∷ xs) ∙ m);
      },
    )
