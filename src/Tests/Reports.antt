-- ===== src/Tests/Reports.antt =====
-- The percentiles and the histogram of src/queue_latency_tracker.hpp.
use my_arbitrager.Prelude.{
  ℕ, suc, ◌*◌, ◌/◌, ◌≤◌, ◌<◌, ◌≡◌, refl, ap, ◌∙◌, inl, inr, Bool, Bool-cases, if-true, if-false,
  subst, sym, List, [], ◌∷◌, arith, All, min, map, length, length-replicate, replicate, leb, ◌==◌,
  if◌then◌else◌,
}
use my_arbitrager.Prelude.Text.{Text, codes, to_string}
use my_arbitrager.Tracker
use my_arbitrager.Tracker.{
  ExchangeStats, Tracker, record_operation, kept_samples, calculate_percentile,
}
use my_arbitrager.Tracker.Rank.{count_below, occurrences, IsSorted, calculate_percentile_rank}
use my_arbitrager.Tracker.Report.{bucket_bounds, bucket_counts, count_sample, count_samples}
use my_arbitrager.Tracker.Report.Print.{print_all}
use my_arbitrager.Tracker.Report.Bars.{Total, QuotientsFit, print_all-Total}
use my_arbitrager.Tests.Pass.{numbers}
use my_arbitrager.Tracker.Report.Buckets.{sums_from, bucket_counts_cumulative}

-- A sort by insertion.
abbrev insert_sorted : ℕ → List ℕ → List ℕ
insert_sorted x [] = x ∷ []
insert_sorted x (y ∷ ys) = let rest = insert_sorted x ys in if leb x y then x ∷ y ∷ ys else y ∷ rest

abbrev insertion_sort : List ℕ → List ℕ
insertion_sort [] = []
insertion_sort (x ∷ xs) = insert_sorted x (insertion_sort xs)

insert_sorted-occurrences :
    (v x : ℕ) (ys : List ℕ) → occurrences v (insert_sorted x ys) ≡ occurrences v (x ∷ ys)
insert_sorted-occurrences v x [] = refl
insert_sorted-occurrences v x (y ∷ ys) = ground (arith, insert_sorted-occurrences v x ys)

insert_sorted-length : (x : ℕ) (ys : List ℕ) → length (insert_sorted x ys) ≡ suc (length ys)
insert_sorted-length x [] = refl
insert_sorted-length x (y ∷ ys) = ground (arith, insert_sorted-length x ys)

insert_sorted-All :
    (b x : ℕ) (ys : List ℕ) → b ≤ x → All (λ y. b ≤ y) ys → All (λ y. b ≤ y) (insert_sorted x ys)
insert_sorted-All b x [] h hs = (h, tt)
insert_sorted-All b x (y ∷ ys) h (k, hs) = elim (Bool-cases (leb x y)) [
  | inl le ↦ subst (All (λ y. b ≤ y)) (sym (if-true _ _ le)) (h, (k, hs))
  | inr gt ↦ subst (All (λ y. b ≤ y)) (sym (if-false _ _ gt)) (k, insert_sorted-All b x ys h hs)
]

All-lower : (x y : ℕ) (ys : List ℕ) → x ≤ y → All (λ z. y ≤ z) ys → All (λ z. x ≤ z) ys
All-lower x y [] h hs = tt
All-lower x y (z ∷ ys) h (k, hs) = (omega arith, All-lower x y ys h hs)

insert_sorted-IsSorted : (x : ℕ) (ys : List ℕ) → IsSorted ys → IsSorted (insert_sorted x ys)
insert_sorted-IsSorted x [] s = (tt, tt)
insert_sorted-IsSorted x (y ∷ ys) (h, s) = elim (Bool-cases (leb x y)) [
  | inl le ↦
      subst IsSorted (sym (if-true _ _ le))
        ((ground arith, All-lower x y ys (ground arith) h), (h, s))
  | inr gt ↦
      subst IsSorted (sym (if-false _ _ gt))
        (insert_sorted-All y x ys (ground arith) h, insert_sorted-IsSorted x ys s)
]

insertion_sort-ascends : (xs : List ℕ) → IsSorted (insertion_sort xs)
insertion_sort-ascends [] = tt
insertion_sort-ascends (x ∷ xs) =
    insert_sorted-IsSorted x (insertion_sort xs) (insertion_sort-ascends xs)

insertion_sort-keeps : (xs : List ℕ) (v : ℕ) → occurrences v (insertion_sort xs) ≡ occurrences v xs
insertion_sort-keeps [] v = refl
insertion_sort-keeps (x ∷ xs) v =
    insert_sorted-occurrences v x (insertion_sort xs)
    ∙ ap (λ n. if x == v then suc n else n) (insertion_sort-keeps xs v)

insertion_sort-sizes : (xs : List ℕ) → length (insertion_sort xs) ≡ length xs
insertion_sort-sizes [] = refl
insertion_sort-sizes (x ∷ xs) =
    insert_sorted-length x (insertion_sort xs) ∙ ap suc (insertion_sort-sizes xs)

-- Three samples.
abbrev three : ExchangeStats
three = record Tracker.blank { samples = 70 ∷ 30 ∷ 40 ∷ replicate 9997 0; sample_index = 3 }

calculate_percentile_rank_example :
    let value = calculate_percentile insertion_sort three 50 in
    (count_below value (kept_samples three) ≤ min (50 * 3 / 100) 2)
    × (min (50 * 3 / 100) 2 < count_below (suc value) (kept_samples three))
calculate_percentile_rank_example =
    calculate_percentile_rank insertion_sort three 50
      (record {
        ascends = insertion_sort-ascends;
        keeps = insertion_sort-keeps;
        sizes = insertion_sort-sizes;
      })
      (ap (λ n. suc (suc (suc n))) (length-replicate {A = ℕ} 9997 0)) (omega arith) (omega arith)

bucket_counts_cumulative_example :
    sums_from 0 (bucket_counts (49 ∷ 50 ∷ 700 ∷ []))
    ≡ map (λ bound. count_below bound (49 ∷ 50 ∷ 700 ∷ [])) bucket_bounds
bucket_counts_cumulative_example = bucket_counts_cumulative (49 ∷ 50 ∷ 700 ∷ [])

counted : bucket_counts (49 ∷ 50 ∷ 700 ∷ []) ≡ 1 ∷ 1 ∷ 0 ∷ 0 ∷ 1 ∷ 0 ∷ 0 ∷ 0 ∷ []
unfolding bucket_counts count_samples count_sample
counted = refl

-- A whole number in place of a `double`.
abbrev shown : Bool → ℕ → ℕ → Text
shown is_fixed precision x = to_string x

abbrev used_tracker : Tracker
used_tracker = record_operation 1_000_000_000 Tracker.create (codes "Kraken") 10 40 0

quotient_small : (n most : ℕ) → n ≤ most → 0 < most → n / most ≤ 1
quotient_small n most h pos = grind arith

numbers-QuotientsFit : QuotientsFit numbers
numbers-QuotientsFit n most h pos = grind (arith, quotient_small n most h pos)

print_all-Total_example : Total (print_all numbers shown insertion_sort used_tracker)
print_all-Total_example =
    print_all-Total numbers numbers-QuotientsFit shown insertion_sort used_tracker
