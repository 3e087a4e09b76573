-- ===== src/Tracker/Report.antt =====
-- The reports of src/queue_latency_tracker.hpp, as the values that they print: the rows of `print_report`, the
-- lines of `print_histogram`, and the rows of `print_occupancy`.
pub mod Buckets
pub mod Print
pub mod Bars
use my_arbitrager.Prelude.{
  ℕ, zero, suc, ◌+◌, ◌-◌, ◌^◌, ◌&&◌, Bool, List, [], ◌∷◌, Option, none, some, min, take, ltb, ◌==◌,
  if◌then◌else◌,
}
use my_arbitrager.Prelude.Text.{Text, codes}
use my_arbitrager.Market.{Double}
use my_arbitrager.Tracker.{
  ExchangeStats, Tracker, sample_buffer_size, kept_samples, calculate_percentile,
}

-- `format_time`: the unit, and the nanoseconds; the last two are printed divided, with one decimal.
pub data Time : Type 0 where
  in_ns in_us in_ms : ℕ → Time

unfoldable pub format_time : ℕ → Time
format_time ns = if ltb ns 1000 then in_ns ns else if ltb ns 1_000_000 then in_us ns else in_ms ns

pub record Row : Type 0 where
  pub name : Text
  pub count : ℕ
  pub median : Time
  pub least : Time
  pub most : Time
  pub p99 : Time

-- An exchange without records has no row.
unfoldable pub report_row : (sort : List ℕ → List ℕ) → ExchangeStats → Option Row
report_row sort ex =
    if ex.count == 0
    then none
    else some record {
      name = ex.name;
      count = ex.count;
      median = format_time (calculate_percentile sort ex 50);
      least = format_time ex.min_ns;
      most = format_time ex.max_ns;
      p99 = format_time (calculate_percentile sort ex 99);
    }

-- What the loops over the exchanges print: each gives a value or is passed over.
unfoldable pub each_printed :
    {A : Type 0} → (ExchangeStats → Option A) → List ExchangeStats → List A
each_printed show [] = []
each_printed show (ex ∷ exchanges) =
    let rest = each_printed show exchanges in elim (show ex) [ none ↦ rest | some x ↦ x ∷ rest ]

unfoldable pub print_report : (sort : List ℕ → List ℕ) → Tracker → List Row
print_report sort t = each_printed (report_row sort) (take t.exchange_count t.exchanges)

abbrev pub bucket_bounds : List ℕ
bucket_bounds = 50 ∷ 100 ∷ 250 ∷ 500 ∷ 1000 ∷ 5000 ∷ 10_000 ∷ (2 ^ 64 - 1) ∷ []

-- A sample is counted in the first bucket whose bound lies above it.
unfoldable pub count_sample : (bounds : List ℕ) → ℕ → (counts : List ℕ) → List ℕ
count_sample [] val counts = counts
count_sample (bound ∷ bounds) val [] = []
count_sample (bound ∷ bounds) val (n ∷ counts) =
    let later = count_sample bounds val counts in
    if ltb val bound then suc n ∷ counts else n ∷ later

unfoldable pub count_samples : (bounds : List ℕ) → List ℕ → (counts : List ℕ) → List ℕ
count_samples bounds [] counts = counts
count_samples bounds (val ∷ samples) counts =
    count_samples bounds samples (count_sample bounds val counts)

unfoldable pub bucket_counts : List ℕ → List ℕ
bucket_counts samples = count_samples bucket_bounds samples (0 ∷ 0 ∷ 0 ∷ 0 ∷ 0 ∷ 0 ∷ 0 ∷ 0 ∷ [])

unfoldable pub max_count : List ℕ → ℕ → ℕ
max_count [] m = m
max_count (n ∷ counts) m = max_count counts (if ltb m n then n else m)

-- A line of the histogram; an empty middle bucket is printed without a bar.
pub data Line (D : Type 0) : Type 0 where
  no_bar : Line D
  bar : (length : ℕ) (count : ℕ) (percent : D) → Line D

module _ {D : Type 0} (d : Double D) where
  -- The quotient is converted to `int`, here to a natural number: the two agree on a result from 0 to 40.
  unfoldable pub bar_length : (count most : ℕ) → ℕ
  bar_length n most =
      let len = d.to_ℕ (d.mul (d.div (d.of_ℕ n) (d.of_ℕ most)) (d.of_ℕ 40)) in
      if ltb 0 n && len == 0 then 1 else len

  -- The lines from bucket `b` on.
  unfoldable pub lines_from : (b : ℕ) → (sample_count most : ℕ) → List ℕ → List (Line D)
  lines_from b sample_count most [] = []
  lines_from b sample_count most (n ∷ counts) =
      let rest = lines_from (b + 1) sample_count most counts in
      if n == 0 && (ltb 0 b && ltb b 7)
      then no_bar ∷ rest
      else bar (bar_length n most) n (d.mul (d.div (d.of_ℕ n) (d.of_ℕ sample_count)) (d.of_ℕ 100))
        ∷ rest

  unfoldable pub histogram_of : ExchangeStats → Option (Text × ℕ × List (Line D))
  histogram_of ex =
      let sample_count = min ex.sample_index sample_buffer_size in
      let counts = bucket_counts (kept_samples ex) in
      let most = max_count counts 0 in
      if sample_count == 0
      then none
      else if most == 0
      then none
      else some (ex.name, sample_count, lines_from 0 sample_count most counts)

  unfoldable pub print_histogram : Tracker → List (Text × ℕ × List (Line D))
  print_histogram t = each_printed histogram_of (take t.exchange_count t.exchanges)

  -- The sum, the least and the largest of the occupancies.
  unfoldable pub occupancies : List ℕ → D → (min_occ max_occ : ℕ) → D × ℕ × ℕ
  occupancies [] sum_occ min_occ max_occ = (sum_occ, min_occ, max_occ)
  occupancies (occ ∷ occs) sum_occ min_occ max_occ =
      occupancies occs (d.add sum_occ (d.of_ℕ occ)) (if ltb occ min_occ then occ else min_occ)
        (if ltb max_occ occ then occ else max_occ)

  unfoldable pub occupancy_of : ExchangeStats → Option (Text × D × ℕ × ℕ)
  occupancy_of ex =
      let sample_count = min ex.sample_index sample_buffer_size in
      let (sum_occ, min_occ, max_occ) =
        occupancies (take sample_count ex.occupancy_samples) (d.of_ℕ 0) (2 ^ 64 - 1) 0 in
      if sample_count == 0
      then none
      else some (ex.name, d.div sum_occ (d.of_ℕ sample_count), min_occ, max_occ)

  unfoldable pub print_occupancy : Tracker → List (Text × D × ℕ × ℕ)
  print_occupancy t = each_printed occupancy_of (take t.exchange_count t.exchanges)
