-- ===== src/Tests/Recording.antt =====
-- Two threads that record at the same time.
use my_arbitrager.Prelude.{
  ℕ, ◌-◌, ◌%◌, ◌^◌, ◌≤◌, ◌<◌, ◌≡◌, ◌⊎◌, refl, length, [], ◌∷◌, ◌++◌, ◌==◌, if◌then◌else◌, arith,
}
use my_arbitrager.Engine.Members.{In}
use my_arbitrager.Tracker.{blank, put, sample_buffer_size}
use my_arbitrager.Tracker.Samples.{latency_sum}
use my_arbitrager.Tracker.Threads.{
  System, Thread, Reach, Settled, here, next, count_call, add_total, load_min, min_stands, min_fail,
  min_exchange, load_max, max_exchange, take_index, write_sample, write_occupancy,
}
use my_arbitrager.Tracker.Threads.Extremes.{Latency}
use my_arbitrager.Tracker.Threads.Slots.{Holds}
use my_arbitrager.Tracker.Threads.Alone.{Alone, alone-put}
use my_arbitrager.Tracker.Threads.Settled.{statistics_exact, samples_filled}

first : 0 < 2
first = omega arith

second : 1 < 2
second = omega arith

two_calls : 2 < 2 ^ 64
two_calls = omega arith

-- Thread 1 brings in 20 before thread 0 has brought in 30, whose exchange fails for it.
abbrev interleaved : (s : System) × Reach 2 s
unfolding blank
interleaved =
    let r₁ = next here (count_call 0 30 0 first refl) in
    let r₂ = next r₁ (count_call 1 20 1 second refl) in
    let r₃ = next r₂ (add_total 1 second refl) in
    let r₄ = next r₃ (add_total 0 first refl) in
    let r₅ = next r₄ (load_min 0 first refl) in
    let r₆ = next r₅ (load_min 1 second refl) in
    let r₇ = next r₆ (min_exchange 1 second refl refl refl) in
    let r₈ = next r₇ (min_fail 0 first refl refl) in
    let r₉ = next r₈ (min_stands 0 first refl refl) in
    let m₁ = next r₉ (load_max 1 second refl) in
    let m₂ = next m₁ (max_exchange 1 second refl refl refl) in
    let m₃ = next m₂ (load_max 0 first refl) in
    let m₄ = next m₃ (max_exchange 0 first refl refl refl) in
    let i₁ = next m₄ (take_index 0 first refl) in
    let i₂ = next i₁ (take_index 1 second refl) in
    let i₃ = next i₂ (write_sample 1 second refl) in
    let i₄ = next i₃ (write_sample 0 first refl) in
    let i₅ = next i₄ (write_occupancy 0 first refl) in (_, next i₅ (write_occupancy 1 second refl))

interleaved-Settled : Settled interleaved.0
unfolding interleaved
interleaved-Settled k = ground arith

statistics_exact_example :
    (interleaved.0.stats.count ≡ length interleaved.0.recorded % 2 ^ 64)
    × (interleaved.0.stats.total_ns ≡ latency_sum interleaved.0.recorded % 2 ^ 64)
    × ((v : ℕ × ℕ)
        → In v interleaved.0.recorded
        → (interleaved.0.stats.min_ns ≤ v.0) × (v.0 ≤ interleaved.0.stats.max_ns))
    × ((interleaved.0.stats.min_ns ≡ 2 ^ 64 - 1)
        ⊎ Latency interleaved.0.recorded interleaved.0.stats.min_ns)
    × ((interleaved.0.stats.max_ns ≡ 0) ⊎ Latency interleaved.0.recorded interleaved.0.stats.max_ns)
statistics_exact_example = statistics_exact interleaved.1 interleaved-Settled

samples_filled_example :
    (interleaved.0.stats.sample_index ≡ length interleaved.0.recorded)
    × ((v : ℕ × ℕ) → In v interleaved.0.tickets → In v interleaved.0.recorded)
    × ((i : ℕ)
        → i < sample_buffer_size
        → i < interleaved.0.stats.sample_index
        → Holds sample_buffer_size (λ v. v.0) interleaved.0.stats.samples interleaved.0.tickets i
          × Holds sample_buffer_size
              (λ v. v.1)
              interleaved.0.stats.occupancy_samples
              interleaved.0.tickets
              i)
unfolding interleaved
samples_filled_example = samples_filled interleaved.1 interleaved-Settled two_calls

-- Thread 1 has begun a call, and thread 0 makes one of its own.
abbrev begun : System
unfolding blank
begun = record {
  stats = record blank { count = 1 };
  threads = λ j. if j == 1 then Thread.totalling 20 1 else Thread.idle;
  recorded = (20, 1) ∷ [];
  tickets = [];
}

alone-put_example :
    (t : System) × Alone 2 0 begun 9 t
    × (t.stats ≡ put begun.stats 30 0)
    × (t.recorded ≡ (30, 0) ∷ begun.recorded)
    × (t.tickets ≡ begun.tickets ++ (30, 0) ∷ [])
    × ((j : ℕ) → t.threads j ≡ begun.threads j)
unfolding begun
alone-put_example = alone-put 0 30 0 first refl
