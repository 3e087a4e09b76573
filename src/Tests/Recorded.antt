-- ===== src/Tests/Recorded.antt =====
-- What the histograms, the clocks and the monitor record.
use my_arbitrager.Prelude.{
  List, ℕ, suc, ◌+◌, ◌*◌, ◌/◌, ◌^◌, ◌≤◌, ◌<◌, ◌≡◌, refl, true, false, [], ◌∷◌, some, none, arith,
  ◌==◌, if◌then◌else◌,
}
use my_arbitrager.Prelude.Text.{codes}
use my_arbitrager.Queue
use my_arbitrager.Ring.Spsc.{capacity}
use my_arbitrager.Ring.Spsc.Refine.{Represents, create-Represents}
use my_arbitrager.Ring.Blocking
use my_arbitrager.Ring.Blocking.{Blocking}
use my_arbitrager.Histogram
use my_arbitrager.Histogram.{Histogram, value_at_rank, index_to_value, calculate_bucket_count}
use my_arbitrager.Histogram.Counts.{
  bucket, below, prefix, put_all, Stats, create-Stats, put_all-counts,
}
use my_arbitrager.Histogram.Percentile.{recorded, value_at_rank_correct}
use my_arbitrager.Histogram.Accuracy.{midpoint_close, value_at_rank_saturates}
use my_arbitrager.Latency.Timing.{giga, cycles_to_ns, cycles_to_ns_exact, cycles_to_ns_periodic}
use my_arbitrager.Latency.Measurement.{json_parsed, queue_enqueued, Measurement, blank, stamp}
use my_arbitrager.Latency.Monitor.Loop.{Round, StatsSnapshot, monitoring_loop}
use my_arbitrager.Latency.Monitor.Rounds.{
  Queued, with_buffer, all_completed, monitoring_loop-process_all,
}
use my_arbitrager.Tests.Pass.{numbers}
use my_arbitrager.Latency.Monitor
use my_arbitrager.Latency.Monitor.{
  Config, Monitor, buffer_size, complete_measurement, start_measurement, lookup, drain,
}
use my_arbitrager.Latency.Monitor.Drain.{buffer_size-IsPow2, process_all}
use my_arbitrager.Latency.Monitor.First
use my_arbitrager.Latency.Monitor.First.{first_measurement_stays}
use my_arbitrager.Latency.Monitor.Calls.{Holding, complete_measurement-submits}

-- A histogram of the monitor: up to 10,000,000.
abbrev fresh : Histogram
fresh = Histogram.create 10_000_000 3

put_all-counts_example :
    (prefix 1 (put_all fresh (5 ∷ 70 ∷ [])).counts
      ≡ prefix 1 fresh.counts + below fresh 1 (5 ∷ 70 ∷ []))
    × ((put_all fresh (5 ∷ 70 ∷ [])).total_count ≡ fresh.total_count + 2)
    × Stats (put_all fresh (5 ∷ 70 ∷ []))
unfolding Histogram.create
put_all-counts_example =
    put_all-counts fresh (5 ∷ 70 ∷ []) 1 (omega arith) (omega arith) (create-Stats 10_000_000 3)

value_at_rank_correct_example :
    (k : ℕ) × (value_at_rank (recorded 10_000_000 3 (5 ∷ 70 ∷ [])) 1 ≡ index_to_value k)
    × (below fresh k (5 ∷ 70 ∷ []) < 1)
    × (1 ≤ below fresh (suc k) (5 ∷ 70 ∷ []))
value_at_rank_correct_example =
    value_at_rank_correct 10_000_000 3 1 (5 ∷ 70 ∷ []) (omega arith) (omega arith) (omega arith)
      (omega arith)

midpoint_close_example :
    (index_to_value (bucket fresh 123) ≤ 123 + 5) × (123 ≤ index_to_value (bucket fresh 123) + 4)
unfolding calculate_bucket_count
midpoint_close_example = midpoint_close 10_000_000 3 123 (omega arith) in_range
  where
    in_range : 123 < calculate_bucket_count 10_000_000 * 10
    in_range = omega arith

value_at_rank_saturates_example :
    value_at_rank (recorded 10_000_000 3 (2_000_000 ∷ 9_000_000 ∷ [])) 2 ≡ 999_995
value_at_rank_saturates_example =
    value_at_rank_saturates 10_000_000 3 2 (2_000_000 ∷ 9_000_000 ∷ []) (omega arith) (omega arith)
      (omega arith) (omega arith, (omega arith, tt)) (omega arith) (omega arith)

cycles_to_ns_exact_example :
    (cycles_to_ns 3_000_000_000 9 ≡ 9 * giga / 3_000_000_000)
    × (cycles_to_ns 3_000_000_000 6 ≤ cycles_to_ns 3_000_000_000 9)
cycles_to_ns_exact_example =
    cycles_to_ns_exact 3_000_000_000 6 9 (omega arith) (omega arith) (omega arith)

cycles_to_ns_periodic_example :
    cycles_to_ns 3_000_000_000 (30 + 2 ^ 55) ≡ cycles_to_ns 3_000_000_000 30
cycles_to_ns_periodic_example = cycles_to_ns_periodic 3_000_000_000 30

abbrev stamped : Measurement
stamped = stamp (stamp blank json_parsed 40) queue_enqueued 65

-- A monitor as the constructor leaves it, with measurement 1 under way.
abbrev config : Config
config = record { enabled = true; warmup_samples = 0; report_interval_ms = 1000 }

abbrev buffer : Blocking Measurement
buffer = Blocking.set_overwrite_on_full (Blocking.create buffer_size blank) true

abbrev monitor : Monitor
monitor = record (Monitor.create config 20) { active_measurements = (1, stamped) ∷ [] }

buffer-Represents : Represents buffer_size buffer.ring []
unfolding Blocking.set_overwrite_on_full Blocking.create
buffer-Represents = create-Represents buffer_size-IsPow2 blank

monitor-Holding : Holding monitor []
unfolding Monitor.create Blocking.set_overwrite_on_full lookup
monitor-Holding = record {
  buffer = buffer;
  at = refl;
  overwrites = refl;
  represents = buffer-Represents;
  enabled = refl;
  distinct = (refl, tt);
}

complete_measurement-submits_example :
    (s' : Monitor) × (complete_measurement monitor 1 ≡ some s')
    × Holding s' (Queue.displace (capacity buffer_size) [] stamped).1
    × (s'.next_message_id ≡ monitor.next_message_id)
    × ((j : ℕ)
        → lookup j s'.active_measurements
          ≡ (if 1 == j then none else lookup j monitor.active_measurements))
unfolding lookup
complete_measurement-submits_example =
    complete_measurement-submits monitor [] 1 stamped monitor-Holding (λ e. absurd (omega arith))
      refl

-- The buffer with one sample waiting.
abbrev rounds : List Round
rounds =
    record { completed = stamped ∷ []; report_due = true }
    ∷ record { completed = []; report_due = false }
    ∷ []

monitoring_loop-process_all_example :
    (reports : List (StatsSnapshot ℕ)) × (b' : Blocking Measurement) × (monitoring_loop numbers
        (λ x. x)
        1_048_576
        3_000_000_000
        rounds
        (with_buffer monitor buffer)
      ≡ some (reports, with_buffer (process_all 3_000_000_000 (all_completed rounds) monitor) b'))
    × Queued b' []
unfolding Blocking.set_overwrite_on_full
monitoring_loop-process_all_example =
    monitoring_loop-process_all numbers (λ x. x) 1_048_576 3_000_000_000 rounds monitor buffer
      (record { overwrites = refl; represents = buffer-Represents }) (omega arith)
      (omega arith, (omega arith, tt))

abbrev first_calls : List First.Call
first_calls = First.mark 0 json_parsed 40 ∷ First.finish 0 ∷ First.begin (codes "ETH") [] ∷ []

first_measurement_stays_example :
    let (id, s) = start_measurement (Monitor.create config 20) (codes "BTC") (codes "Kraken") in
    (id ≡ 0)
    × (s' : Monitor) × (First.run s first_calls ≡ some s')
    × (lookup 0 s'.active_measurements
        ≡ some (record blank { message_id = 0; symbol = codes "BTC"; exchange = codes "Kraken" }))
first_measurement_stays_example =
    first_measurement_stays config 20 (codes "BTC") (codes "Kraken") first_calls refl (omega arith)
