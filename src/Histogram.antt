-- ===== src/Histogram.antt =====
-- `HDRHistogram` of src/hdr_histogram.hpp.
pub mod Counts
pub mod Percentile
pub mod Accuracy
use my_arbitrager.Prelude.{
  ℕ, zero, suc, ◌+◌, ◌-◌, ◌*◌, ◌/◌, ◌^◌, Bool, List, [], ◌∷◌, Option, none, some, length, min,
  replicate, ltb, leb, ◌==◌, if◌then◌else◌,
}
use my_arbitrager.Prelude.Bits.{add64, mul64}
use my_arbitrager.Market.{Double}

-- `UINT64_MAX`
abbrev pub uint64_max : ℕ
uint64_max = 2 ^ 64 - 1

pub record Histogram : Type 0 where
  pub max_value : ℕ
  pub significant_figures : ℕ
  pub unit_magnitude : ℕ
  pub sub_bucket_count : ℕ
  pub counts : List ℕ
  pub total_count : ℕ
  pub min_value : ℕ
  pub max_value_recorded : ℕ

unfoldable pub calculate_bucket_count : ℕ → ℕ
calculate_bucket_count max_value =
    let buckets = if ltb 100000 (max_value / 10) then 100000 else max_value / 10 in
    if ltb buckets 1000 then 1000 else buckets

-- The constructor.
unfoldable pub create : ℕ → ℕ → Histogram
create max_value significant_figures = record {
  max_value = max_value;
  significant_figures = significant_figures;
  unit_magnitude = significant_figures;
  sub_bucket_count = 10 ^ significant_figures;
  counts = replicate (calculate_bucket_count max_value) 0;
  total_count = 0;
  min_value = uint64_max;
  max_value_recorded = 0;
}

-- `counts_.size() - 1` does not wrap: the constructor makes 1000 buckets or more.
unfoldable pub value_to_index : Histogram → ℕ → ℕ
value_to_index h value = min (value / 10) (length h.counts - 1)

unfoldable pub index_to_value : ℕ → ℕ
index_to_value index = add64 (mul64 index 10) 5

-- `counts_[index]++`
unfoldable pub bump : List ℕ → ℕ → List ℕ
bump [] i = []
bump (c ∷ cs) zero = add64 c 1 ∷ cs
bump (c ∷ cs) (suc i) = c ∷ bump cs i

-- `if (value > max_value_) value = max_value_;`
unfoldable pub clamp : Histogram → ℕ → ℕ
clamp h value = if ltb h.max_value value then h.max_value else value

-- `record(value)`
unfoldable pub put : Histogram → ℕ → Histogram
unfolding clamp
put h value =
    let v = clamp h value in
    let index = value_to_index h v in
    if ltb index (length h.counts)
    then record h {
      counts = bump h.counts index;
      total_count = add64 h.total_count 1;
      min_value = if ltb v h.min_value then v else h.min_value;
      max_value_recorded = if ltb h.max_value_recorded v then v else h.max_value_recorded;
    }
    else h

-- The loop of `get_percentile` over the buckets from number `i` on: the first at which the counts add
-- up to `target`.
unfoldable pub scan : List ℕ → ℕ → ℕ → ℕ → Option ℕ
scan [] i accumulated target = none
scan (c ∷ cs) i accumulated target =
    let here = add64 accumulated c in
    let later = scan cs (i + 1) here target in if leb target here then some i else later

-- The rank that a percentile asks for, `(percentile / 100.0) * total_count_ + 0.5`.
unfoldable pub target_of : {D : Type 0} → Double D → D → Histogram → ℕ
target_of d percentile h = d.to_ℕ (
    d.add (d.mul (d.div percentile (d.of_ℕ 100)) (d.of_ℕ h.total_count))
      (d.div (d.of_ℕ 1) (d.of_ℕ 2)))

-- `get_percentile` from the point where the rank is known.
unfoldable pub value_at_rank : Histogram → ℕ → ℕ
value_at_rank h target = elim (scan h.counts 0 0 target) [
  | some i ↦ index_to_value i
  | none ↦ h.max_value_recorded
]

unfoldable pub get_percentile : {D : Type 0} → Double D → D → Histogram → ℕ
get_percentile d percentile h =
    if h.total_count == 0
    then 0
    else if d.le (d.of_ℕ 100) percentile
    then h.max_value_recorded
    else if d.le percentile (d.of_ℕ 0)
    then h.min_value
    else value_at_rank h (target_of d percentile h)

unfoldable pub get_min : Histogram → ℕ
get_min h = if h.min_value == uint64_max then 0 else h.min_value

unfoldable pub get_max : Histogram → ℕ
get_max h = h.max_value_recorded

unfoldable pub get_total_count : Histogram → ℕ
get_total_count h = h.total_count

-- The sum that `get_mean` takes of the buckets from number `i` on.
unfoldable pub weighted_sum : List ℕ → ℕ → ℕ → ℕ
weighted_sum [] i sum = sum
weighted_sum (c ∷ cs) i sum =
    weighted_sum cs (i + 1) (if ltb 0 c then add64 sum (mul64 (index_to_value i) c) else sum)

unfoldable pub get_mean : {D : Type 0} → Double D → Histogram → D
get_mean d h =
    if h.total_count == 0
    then d.of_ℕ 0
    else d.div (d.of_ℕ (weighted_sum h.counts 0 0)) (d.of_ℕ h.total_count)

-- The sum that `get_std_dev` takes of the buckets from number `i` on.
unfoldable pub squared_diffs : {D : Type 0} → Double D → (mean : D) → List ℕ → ℕ → D → D
squared_diffs d mean [] i sum = sum
squared_diffs d mean (c ∷ cs) i sum =
    let diff = d.sub (d.of_ℕ (index_to_value i)) mean in
    squared_diffs d mean cs (i + 1)
      (if ltb 0 c then d.add sum (d.mul (d.mul diff diff) (d.of_ℕ c)) else sum)

-- `sqrt` is `std::sqrt`.
unfoldable pub get_std_dev : {D : Type 0} → Double D → (sqrt : D → D) → Histogram → D
get_std_dev d sqrt h =
    if h.total_count == 0
    then d.of_ℕ 0
    else sqrt (d.div (squared_diffs d (get_mean d h) h.counts 0 (d.of_ℕ 0)) (d.of_ℕ h.total_count))

pub record Percentiles (D : Type 0) : Type 0 where
  pub p50 : ℕ
  pub p90 : ℕ
  pub p95 : ℕ
  pub p99 : ℕ
  pub p999 : ℕ
  pub p9999 : ℕ
  pub least : ℕ  -- `min`
  pub most : ℕ  -- `max`
  pub mean : D
  pub std_dev : D

-- The literals 99.9 and 99.99 are the quotients nearest to them.
unfoldable pub get_common_percentiles :
    {D : Type 0} → Double D → (sqrt : D → D) → Histogram → Percentiles D
get_common_percentiles d sqrt h = record {
  p50 = get_percentile d (d.of_ℕ 50) h;
  p90 = get_percentile d (d.of_ℕ 90) h;
  p95 = get_percentile d (d.of_ℕ 95) h;
  p99 = get_percentile d (d.of_ℕ 99) h;
  p999 = get_percentile d (d.div (d.of_ℕ 999) (d.of_ℕ 10)) h;
  p9999 = get_percentile d (d.div (d.of_ℕ 9999) (d.of_ℕ 100)) h;
  least = get_min h;
  most = get_max h;
  mean = get_mean d h;
  std_dev = get_std_dev d sqrt h;
}

-- `std::fill`
unfoldable pub fill_zero : List ℕ → List ℕ
fill_zero [] = []
fill_zero (c ∷ cs) = 0 ∷ fill_zero cs

unfoldable pub reset : Histogram → Histogram
reset h = record h {
  counts = fill_zero h.counts;
  total_count = 0;
  min_value = uint64_max;
  max_value_recorded = 0;
}
