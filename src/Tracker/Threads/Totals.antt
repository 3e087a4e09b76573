-- ===== src/Tracker/Threads/Totals.antt =====
-- The counters of the tracker while threads are recording.
use my_arbitrager.Prelude.{
  ℕ, ◌+◌, ◌%◌, ◌^◌, ◌<◌, ◌≡◌, refl, ap, [], ◌∷◌, length, length-append, arith,
}
use my_arbitrager.Prelude.Family.{move, sum_below, sum_below-move, sum_below_zero}
use my_arbitrager.Tracker.{blank, sample_buffer_size}
use my_arbitrager.Tracker.Samples.{latency_sum}
use my_arbitrager.Tracker.Threads.{
  Thread, System, Step, Reach, Settled, here, next, count_call, add_total, load_min, min_stands,
  min_fail, min_exchange, load_max, max_stands, max_fail, max_exchange, take_index, write_sample,
  write_occupancy,
}

-- What a thread has still to add to `total_ns`, and to `sample_index`.
abbrev pub owed : Thread → ℕ
owed (Thread.totalling l o) = l
owed _ = 0

abbrev pub unindexed : Thread → ℕ
unindexed Thread.idle = 0
unindexed (Thread.sample_writing l o i) = 0
unindexed (Thread.occupancy_writing l o i) = 0
unindexed _ = 1

pub record Totals (n : ℕ) (s : System) : Type 0 where
  pub counted : s.stats.count ≡ length s.recorded % 2 ^ 64
  pub added :
      (s.stats.total_ns + sum_below owed n s.threads) % 2 ^ 64 ≡ latency_sum s.recorded % 2 ^ 64
  pub fits : s.stats.total_ns < 2 ^ 64
  pub indexed : length s.tickets + sum_below unindexed n s.threads ≡ length s.recorded
  pub index : s.stats.sample_index ≡ length s.tickets % 2 ^ 64

-- What a move from `a` to `b` does to both sums.
exchanged :
    (n : ℕ) (threads : ℕ → Thread) (k : ℕ) {a : Thread} (b : Thread)
    → k < n
    → threads k ≡ a
    → (sum_below owed n (move threads k b) + owed a ≡ sum_below owed n threads + owed b)
      × (sum_below unindexed n (move threads k b) + unindexed a
          ≡ sum_below unindexed n threads + unindexed b)
exchanged n threads k b h e =
    (sum_below-move owed n threads k b e h, sum_below-move unindexed n threads k b e h)

Step-Totals : {n : ℕ} {s t : System} → Step n s t → Totals n s → Totals n t
Step-Totals {n} {s} (count_call k l o h e) v =
    omega (arith, exchanged n s.threads k (Thread.totalling l o) h e)
Step-Totals {n} {s} (add_total k {l} {o} h e) v =
    omega (arith, exchanged n s.threads k (Thread.min_loading l o) h e)
Step-Totals {n} {s} (load_min k {l} {o} h e) v =
    omega (arith, exchanged n s.threads k (Thread.min_trying l o s.stats.min_ns) h e)
Step-Totals {n} {s} (min_stands k {l} {o} h e f) v =
    omega (arith, exchanged n s.threads k (Thread.max_loading l o) h e)
Step-Totals {n} {s} (min_fail k {l} {o} h e f) v =
    omega (arith, exchanged n s.threads k (Thread.min_trying l o s.stats.min_ns) h e)
Step-Totals {n} {s} (min_exchange k {l} {o} h e f g) v =
    omega (arith, exchanged n s.threads k (Thread.max_loading l o) h e)
Step-Totals {n} {s} (load_max k {l} {o} h e) v =
    omega (arith, exchanged n s.threads k (Thread.max_trying l o s.stats.max_ns) h e)
Step-Totals {n} {s} (max_stands k {l} {o} h e f) v =
    omega (arith, exchanged n s.threads k (Thread.indexing l o) h e)
Step-Totals {n} {s} (max_fail k {l} {o} h e f) v =
    omega (arith, exchanged n s.threads k (Thread.max_trying l o s.stats.max_ns) h e)
Step-Totals {n} {s} (max_exchange k {l} {o} h e f g) v =
    omega (arith, exchanged n s.threads k (Thread.indexing l o) h e)
Step-Totals {n} {s} (take_index k {l} {o} h e) v = omega (
  arith,
  exchanged n s.threads k (Thread.sample_writing l o (s.stats.sample_index % sample_buffer_size)) h
      e,
  length-append s.tickets ((l, o) ∷ []),
)
Step-Totals {n} {s} (write_sample k {l} {o} {idx} h e) v =
    omega (arith, exchanged n s.threads k (Thread.occupancy_writing l o idx) h e)
Step-Totals {n} {s} (write_occupancy k h e) v =
    omega (arith, exchanged n s.threads k Thread.idle h e)

pub Reach-Totals : {n : ℕ} {s : System} → Reach n s → Totals n s
unfolding blank
Reach-Totals {n} here = omega (
  arith,
  sum_below_zero owed n (λ _. Thread.idle) (λ _. refl),
  sum_below_zero unindexed n (λ _. Thread.idle) (λ _. refl),
)
Reach-Totals (next r st) = Step-Totals st (Reach-Totals r)

-- With every thread outside `record`, nothing is owed.
pub totals_at_rest :
    {n : ℕ} {s : System}
    → Reach n s
    → Settled s
    → (s.stats.count ≡ length s.recorded % 2 ^ 64)
      × (s.stats.total_ns ≡ latency_sum s.recorded % 2 ^ 64)
      × (s.stats.sample_index ≡ length s.recorded % 2 ^ 64)
      × (length s.tickets ≡ length s.recorded)
totals_at_rest {n} {s} r settled = omega (
  arith,
  Reach-Totals r,
  sum_below_zero owed n s.threads (λ k. ap owed (settled k)),
  sum_below_zero unindexed n s.threads (λ k. ap unindexed (settled k)),
)
