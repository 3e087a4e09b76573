-- ===== src/Tracker/Rank.antt =====
-- The rank among the samples of what `calculate_percentile` returns.
use my_arbitrager.Prelude.{
  ℕ, zero, suc, ◌+◌, ◌-◌, ◌*◌, ◌/◌, ◌≤◌, ◌<◌, ◌≡◌, refl, sym, ap, subst, ◌∙◌, List, [], ◌∷◌, arith,
  All, min, length, take, get_or, if-false, false, ltb, leb, ◌==◌, if◌then◌else◌,
}
use native.Mathlib.Nat.{mod-eq_of_lt, mul-le-mul_right}
use my_arbitrager.Prelude.Bits.{mul64}
use my_arbitrager.Tracker.{ExchangeStats, sample_buffer_size, kept_samples, calculate_percentile}

-- How many of the numbers lie below a bound, and how many are the number.
abbrev pub count_below : ℕ → List ℕ → ℕ
count_below v [] = 0
count_below v (x ∷ xs) = let rest = count_below v xs in if ltb x v then suc rest else rest

abbrev pub occurrences : ℕ → List ℕ → ℕ
occurrences v [] = 0
occurrences v (x ∷ xs) = let rest = occurrences v xs in if x == v then suc rest else rest

abbrev pub IsSorted : List ℕ → Type 0
IsSorted [] = Unit
IsSorted (x ∷ xs) = All (λ y. x ≤ y) xs × IsSorted xs

-- What `std::sort` does: the same numbers, in ascending order.
pub record Sorts (sort : List ℕ → List ℕ) : Type 0 where
  pub ascends : (xs : List ℕ) → IsSorted (sort xs)
  pub keeps : (xs : List ℕ) (v : ℕ) → occurrences v (sort xs) ≡ occurrences v xs
  pub sizes : (xs : List ℕ) → length (sort xs) ≡ length xs

count_below-suc :
    (v : ℕ) (xs : List ℕ) → count_below (suc v) xs ≡ count_below v xs + occurrences v xs
count_below-suc v [] = omega arith
count_below-suc v (x ∷ xs) = ground (arith, count_below-suc v xs)

count_below_zero : (xs : List ℕ) → count_below 0 xs ≡ 0
count_below_zero [] = refl
count_below_zero (x ∷ xs) = ground (arith, count_below_zero xs)

-- Lists with the same numbers have the same ranks.
count_below_same :
    (xs ys : List ℕ)
    → ((v : ℕ) → occurrences v xs ≡ occurrences v ys)
    → (v : ℕ) → count_below v xs ≡ count_below v ys
count_below_same xs ys e zero = count_below_zero xs ∙ sym (count_below_zero ys)
count_below_same xs ys e (suc v) =
    omega (arith, count_below-suc v xs, count_below-suc v ys, e v, count_below_same xs ys e v)

count_below-All : (v : ℕ) (xs : List ℕ) → All (λ y. v ≤ y) xs → count_below v xs ≡ 0
count_below-All v [] h = refl
count_below-All v (x ∷ xs) (h, hs) = ground (arith, count_below-All v xs hs)

get_or-All : (P : ℕ → Type 0) (xs : List ℕ) (i d : ℕ) → All P xs → i < length xs → P (get_or xs i d)
get_or-All P [] i d h lt = elim lt [ ]
get_or-All P (x ∷ xs) zero d (h, hs) lt = h
get_or-All P (x ∷ xs) (suc i) d (h, hs) lt = get_or-All P xs i d hs (omega arith)

-- The entry at an index of a sorted list has that rank.
sorted_rank :
    (xs : List ℕ) (i : ℕ)
    → IsSorted xs
    → i < length xs
    → (count_below (get_or xs i 0) xs ≤ i) × (i < count_below (suc (get_or xs i 0)) xs)
sorted_rank [] i h lt = elim lt [ ]
sorted_rank (x ∷ xs) zero (h, hs) lt = (ground (arith, count_below-All x xs h), ground arith)
sorted_rank (x ∷ xs) (suc i) (h, hs) lt =
    let (low, high) = sorted_rank xs i hs (omega arith) in
    let least = get_or-All (λ y. x ≤ y) xs i 0 h (omega arith) in (ground arith, ground arith)

length_kept :
    (ex : ExchangeStats)
    → length ex.samples ≡ sample_buffer_size
    → length (kept_samples ex) ≡ min ex.sample_index sample_buffer_size
unfolding kept_samples
length_kept ex sized =
    length_taken (min ex.sample_index sample_buffer_size) ex.samples ∙ omega arith
  where
    length_taken : (n : ℕ) (xs : List ℕ) → length (take n xs) ≡ min n (length xs)
    length_taken zero xs = omega arith
    length_taken (suc n) [] = omega arith
    length_taken (suc n) (x ∷ xs) = omega (arith, length_taken n xs)

percentile_value :
    (sort : List ℕ → List ℕ) (ex : ExchangeStats) (percentile : ℕ)
    → 0 < ex.sample_index
    → percentile ≤ 100
    → let n = min ex.sample_index sample_buffer_size in
      calculate_percentile sort ex percentile
      ≡ get_or (sort (kept_samples ex)) (min (percentile * n / 100) (n - 1)) 0
unfolding calculate_percentile
percentile_value sort ex percentile used small =
    if-false _ _ some_samples ∙ ap (λ i. get_or (sort (kept_samples ex)) i 0) index
  where
    n : ℕ
    n = min ex.sample_index sample_buffer_size

    some_samples : (n == 0) ≡ false
    some_samples = ground arith

    product : percentile * n ≤ 100 * n
    product = mul-le-mul_right n small

    exact : mul64 percentile n ≡ percentile * n
    exact = mod-eq_of_lt (omega (arith, product))

    index :
        (if leb n (mul64 percentile n / 100) then n - 1 else mul64 percentile n / 100)
        ≡ min (percentile * n / 100) (n - 1)
    index = ground (arith, exact)

-- A percentile from 0 to 100 of an exchange with samples has its rank among the samples kept: with `n`
-- of them, at most `percentile * n / 100`, but no more than `n - 1`, are smaller than the value
-- returned, and more than that number are not larger. The sort is any function that sorts.
pub calculate_percentile_rank :
    (sort : List ℕ → List ℕ) (ex : ExchangeStats) (percentile : ℕ)
    → Sorts sort
    → length ex.samples ≡ sample_buffer_size
    → 0 < ex.sample_index
    → percentile ≤ 100
    → let n = min ex.sample_index sample_buffer_size in
      let rank = min (percentile * n / 100) (n - 1) in
      let value = calculate_percentile sort ex percentile in
      (count_below value (kept_samples ex) ≤ rank)
      × (rank < count_below (suc value) (kept_samples ex))
calculate_percentile_rank sort ex percentile sorts sized used small =
    subst (λ v. (count_below v kept ≤ rank) × (rank < count_below (suc v) kept))
      (sym (percentile_value sort ex percentile used small))
      (
        omega (arith, ranked, same (get_or (sort kept) rank 0)),
        omega (arith, ranked, same (suc (get_or (sort kept) rank 0))),
      )
  where
    kept : List ℕ
    kept = kept_samples ex

    n : ℕ
    n = min ex.sample_index sample_buffer_size

    rank : ℕ
    rank = min (percentile * n / 100) (n - 1)

    same : (v : ℕ) → count_below v (sort kept) ≡ count_below v kept
    same = count_below_same (sort kept) kept (sorts.keeps kept)

    ranked :
        (count_below (get_or (sort kept) rank 0) (sort kept) ≤ rank)
        × (rank < count_below (suc (get_or (sort kept) rank 0)) (sort kept))
    ranked =
        sorted_rank (sort kept) rank (sorts.ascends kept)
          (omega (arith, sorts.sizes kept, length_kept ex sized))
