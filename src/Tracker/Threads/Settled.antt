-- ===== src/Tracker/Threads/Settled.antt =====
-- What the statistics of an exchange are once every thread has left `record`.
use my_arbitrager.Prelude.{ℕ, ◌-◌, ◌%◌, ◌^◌, ◌≤◌, ◌<◌, ◌≡◌, ◌⊎◌, length, arith}
use my_arbitrager.Engine.Members.{In}
use my_arbitrager.Tracker.{sample_buffer_size}
use my_arbitrager.Tracker.Samples.{latency_sum}
use my_arbitrager.Tracker.Threads.{System, Reach, Settled}
use my_arbitrager.Tracker.Threads.Calls.{Reach-Calls}
use my_arbitrager.Tracker.Threads.Totals.{totals_at_rest}
use my_arbitrager.Tracker.Threads.Extremes.{Latency}
use my_arbitrager.Tracker.Threads.Extremes.Moves.{extremes_at_rest}
use my_arbitrager.Tracker.Threads.Slots.{Holds}
use my_arbitrager.Tracker.Threads.Slots.Moves.{arrays_at_rest}

-- However any number of threads have interleaved in `record`, once all have left it no update is lost:
-- modulo 2 ^ 64 the count is the number of calls and the total the sum of their latencies, and the
-- minimum and the maximum bound every latency and are two of them, or the values that they start with.
pub statistics_exact :
    {n : ℕ} {s : System}
    → Reach n s
    → Settled s
    → (s.stats.count ≡ length s.recorded % 2 ^ 64)
      × (s.stats.total_ns ≡ latency_sum s.recorded % 2 ^ 64)
      × ((v : ℕ × ℕ) → In v s.recorded → (s.stats.min_ns ≤ v.0) × (v.0 ≤ s.stats.max_ns))
      × ((s.stats.min_ns ≡ 2 ^ 64 - 1) ⊎ Latency s.recorded s.stats.min_ns)
      × ((s.stats.max_ns ≡ 0) ⊎ Latency s.recorded s.stats.max_ns)
statistics_exact r settled =
    let (count, total, _, _) = totals_at_rest r settled in
    let (bounds, low, high) = extremes_at_rest r settled in (count, total, bounds, low, high)

-- However fewer than 2 ^ 64 calls of any number of threads have interleaved in `record`, once all
-- threads have left it, `sample_index` counts the calls, and each slot below it of the two sample
-- arrays holds the latency, or the occupancy, of a recorded call whose number modulo
-- SAMPLE_BUFFER_SIZE is the slot.
pub samples_filled :
    {n : ℕ} {s : System}
    → Reach n s
    → Settled s
    → length s.recorded < 2 ^ 64
    → (s.stats.sample_index ≡ length s.recorded)
      × ((v : ℕ × ℕ) → In v s.tickets → In v s.recorded)
      × ((i : ℕ)
          → i < sample_buffer_size
          → i < s.stats.sample_index
          → Holds sample_buffer_size (λ v. v.0) s.stats.samples s.tickets i
            × Holds sample_buffer_size (λ v. v.1) s.stats.occupancy_samples s.tickets i)
samples_filled r settled small =
    let (_, _, index, numbered) = totals_at_rest r settled in
    (
      omega (arith, index),
      (Reach-Calls r).ticketed,
      λ i h lt. arrays_at_rest r settled small i h (omega (arith, index, numbered)),
    )
