-- ===== src/Tracker/Samples.antt =====
-- What the statistics of one exchange hold after any number of records.
use my_arbitrager.Prelude.{
  ℕ, zero, suc, ◌+◌, ◌%◌, ◌^◌, ◌≤◌, ◌<◌, ◌≡◌, ◌≢◌, refl, ap, ◌∙◌, List, [], ◌∷◌, some, arith, All,
  length, length-set, get_elem?, get_elem?-set_self, get_elem?-set_ne, of_some,
}
use my_arbitrager.Tracker.{ExchangeStats, sample_buffer_size, put}

-- One record after the other, of latencies with the occupancy of the queue.
pub put_all : ExchangeStats → List (ℕ × ℕ) → ExchangeStats
put_all ex [] = ex
put_all ex ((latency, occupancy) ∷ vs) = put_all (put ex latency occupancy) vs

abbrev pub latency_sum : List (ℕ × ℕ) → ℕ
latency_sum [] = 0
latency_sum (v ∷ vs) = v.0 + latency_sum vs

-- A sample is not overwritten within the next SAMPLE_BUFFER_SIZE records.
older_kept :
    (ex : ExchangeStats) (vs : List (ℕ × ℕ)) (p : ℕ)
    → p < ex.sample_index
    → ex.sample_index + length vs ≤ p + sample_buffer_size
    → ex.sample_index + length vs < 2 ^ 64
    → get_elem? (put_all ex vs).samples (p % sample_buffer_size)
      ≡ get_elem? ex.samples (p % sample_buffer_size)
unfolding put_all put
older_kept ex [] p before near small = refl
older_kept ex ((l, o) ∷ vs) p before near small =
    older_kept (put ex l o) vs p (omega arith) (omega arith) (omega arith)
    ∙ get_elem?-set_ne ex.samples (ex.sample_index % sample_buffer_size) (p % sample_buffer_size) l
        apart
  where
    apart : ex.sample_index % sample_buffer_size ≢ p % sample_buffer_size
    apart = omega arith

-- After any records that leave `sample_index` below 2 ^ 64, in a sample buffer of SAMPLE_BUFFER_SIZE slots, the
-- last SAMPLE_BUFFER_SIZE of them are there, each in the slot that its index has modulo SAMPLE_BUFFER_SIZE.
pub put_all-samples :
    (ex : ExchangeStats) (vs : List (ℕ × ℕ)) (i : ℕ) (v : ℕ × ℕ)
    → length ex.samples ≡ sample_buffer_size
    → ex.sample_index + length vs < 2 ^ 64
    → get_elem? vs i ≡ some v
    → length vs ≤ i + sample_buffer_size
    → get_elem? (put_all ex vs).samples ((ex.sample_index + i) % sample_buffer_size) ≡ some v.0
unfolding put_all put
put_all-samples ex [] i v sized small at near = cc
put_all-samples ex ((l, o) ∷ vs) zero v sized small at near =
    ap (λ k. get_elem? (put_all (put ex l o) vs).samples (k % sample_buffer_size)) same_place
    ∙ older_kept (put ex l o) vs ex.sample_index (omega arith) (omega arith) (omega arith)
    ∙ get_elem?-set_self ex.samples (ex.sample_index % sample_buffer_size) l (omega arith)
    ∙ ap (λ w. some w.0) (of_some at)
  where
    same_place : ex.sample_index + 0 ≡ ex.sample_index
    same_place = omega arith
put_all-samples ex ((l, o) ∷ vs) (suc i) v sized small at near =
    ap (λ k. get_elem? (put_all (put ex l o) vs).samples (k % sample_buffer_size)) same_place
    ∙ put_all-samples (put ex l o) vs i v
        (length-set ex.samples (ex.sample_index % sample_buffer_size) l ∙ sized) (omega arith) at
        (omega arith)
  where
    same_place : ex.sample_index + suc i ≡ (put ex l o).sample_index + i
    same_place = omega arith

-- After any records whose number and sum fit a word, the count and the total have grown by them, and every
-- one of them lies between the minimum and the maximum, which only move outwards.
put_all_totals :
    (ex : ExchangeStats) (vs : List (ℕ × ℕ))
    → ex.count + length vs < 2 ^ 64
    → ex.total_ns + latency_sum vs < 2 ^ 64
    → ((put_all ex vs).count ≡ ex.count + length vs)
      × ((put_all ex vs).total_ns ≡ ex.total_ns + latency_sum vs)
      × ((put_all ex vs).min_ns ≤ ex.min_ns)
      × (ex.max_ns ≤ (put_all ex vs).max_ns)
      × All (λ v. ((put_all ex vs).min_ns ≤ v.0) × (v.0 ≤ (put_all ex vs).max_ns)) vs
unfolding put_all put
put_all_totals ex [] small sum_small = (omega arith, omega arith, omega arith, omega arith, tt)
put_all_totals ex ((l, o) ∷ vs) small sum_small =
    let (n, t, lo, hi, every) = put_all_totals (put ex l o) vs (omega arith) (omega arith) in
    (
      omega (arith, n),
      omega (arith, t),
      ground (arith, lo),
      ground (arith, hi),
      ((ground (arith, lo), ground (arith, hi)), every),
    )
