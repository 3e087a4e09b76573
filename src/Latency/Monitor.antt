-- ===== src/Latency/Monitor.antt =====
-- `LatencyMonitor` of src/latency_monitor.hpp. The counter readings of the hardware are arguments, and each
-- call runs whole: the maps are guarded by mutexes, but the push at the end of `complete_measurement` is
-- outside of them, so that the model is of completions by one thread at a time.
pub mod Active
pub mod Calls
pub mod Drain
pub mod First
pub mod Loop
pub mod Rounds
pub mod Print
use my_arbitrager.Prelude.{
  ℕ, zero, suc, ◌+◌, ◌-◌, ◌^◌, Bool, true, false, not, ◌||◌, List, [], ◌∷◌, Option, none, some, ltb,
  leb, ◌==◌, if◌then◌else◌, ◌>>=◌,
}
use my_arbitrager.Prelude.Bits.{add64}
use my_arbitrager.Prelude.Text.{Text}
use mathlib.Core.Option
use my_arbitrager.Ring.Blocking
use my_arbitrager.Ring.Blocking.{Blocking}
use my_arbitrager.Histogram
use my_arbitrager.Histogram.{Histogram}
use my_arbitrager.Latency.Timing.{cycles_to_ns}
use my_arbitrager.Latency.Measurement.{
  MeasurementPoint, Measurement, blank, stamp, LatencyMetric, parsing, queue_transit,
  engine_processing, end_to_end, calculate_metric_cycles,
}

-- The fields of `Config` that the code reads.
pub record Config : Type 0 where
  pub enabled : Bool
  pub warmup_samples : ℕ
  pub report_interval_ms : ℕ

-- `active_measurements_`
abbrev pub ActiveMap : Type 0
ActiveMap = List (ℕ × Measurement)

unfoldable pub lookup : ℕ → ActiveMap → Option Measurement
lookup id [] = none
lookup id ((i, m) ∷ active) = if i == id then some m else lookup id active

unfoldable pub insert : ℕ → Measurement → ActiveMap → ActiveMap
insert id m [] = (id, m) ∷ []
insert id m ((i, n) ∷ active) = if i == id then (i, m) ∷ active else (i, n) ∷ insert id m active

unfoldable pub erase : ℕ → ActiveMap → ActiveMap
erase id [] = []
erase id ((i, m) ∷ active) = if i == id then active else (i, m) ∷ erase id active

-- In a monitor that is not enabled `sample_buffer_` is null and `histograms_` empty: `none`.
pub record Monitor : Type 0 where
  pub config : Config
  pub sample_buffer : Option (Blocking Measurement)
  pub next_message_id : ℕ
  pub samples_collected : ℕ
  pub running : Bool
  pub rdtsc_overhead_ns : ℕ
  pub active_measurements : ActiveMap
  pub histograms : LatencyMetric → Option Histogram

abbrev pub buffer_size : ℕ
buffer_size = 1_048_576

-- The constructor. The size in the configuration is rounded up and then never used. The overhead is measured
-- only in an enabled monitor; in another one it is whatever the memory holds.
unfoldable pub create : Config → (rdtsc_overhead_ns : ℕ) → Monitor
create config overhead = record {
  config = config;
  sample_buffer =
      if config.enabled
      then some (Blocking.set_overwrite_on_full (Blocking.create buffer_size blank) true)
      else none;
  next_message_id = 0;
  samples_collected = 0;
  running = false;
  rdtsc_overhead_ns = overhead;
  active_measurements = [];
  histograms = λ _. if config.enabled then some (Histogram.create 10_000_000 3) else none;
}

-- With the thread that it starts, which runs `drain` until it is stopped.
unfoldable pub start : Monitor → Monitor
start s = if not s.config.enabled || s.running then s else record s { running = true }

-- With the join, which waits for the thread to drain the buffer once more.
unfoldable pub stop : Monitor → Monitor
stop s = if not s.running then s else record s { running = false }

-- The returned id and the new state.
unfoldable pub start_measurement : Monitor → Text → Text → ℕ × Monitor
start_measurement s symbol exchange =
    let id = s.next_message_id in
    let m = record blank { message_id = id; symbol = symbol; exchange = exchange } in
    if not s.config.enabled then (0, s) else (
      id,
      record s {
        next_message_id = add64 id 1;
        active_measurements = insert id m s.active_measurements;
      },
    )

-- `timestamp` is what `rdtsc` gives.
unfoldable pub record_timestamp : Monitor → ℕ → MeasurementPoint → (timestamp : ℕ) → Monitor
record_timestamp s id point timestamp =
    if not s.config.enabled || id == 0 then s else elim (lookup id s.active_measurements) [
      | none ↦ s
      | some m ↦ record s {
        active_measurements = insert id (stamp m point timestamp) s.active_measurements;
      }
    ]

-- The push of a completed measurement, if there is a buffer; `none` is an access out of bounds.
unfoldable pub submit : Measurement → Monitor → Option Monitor
submit m s = elim s.sample_buffer [
  | none ↦ some s
  | some buffer ↦ do
    (ok, buffer') ← Blocking.push buffer_size buffer m
    some (record s { sample_buffer = some buffer' })
]

unfoldable pub complete_measurement : Monitor → ℕ → Option Monitor
complete_measurement s id =
    if not s.config.enabled || id == 0 then some s else elim (lookup id s.active_measurements) [
      | none ↦ some s
      | some m ↦ submit m (record s { active_measurements = erase id s.active_measurements })
    ]

-- The body of the loop over the metrics in `process_sample`, on one histogram.
unfoldable pub record_metric : (tsc_frequency overhead cycles : ℕ) → Histogram → Histogram
record_metric f overhead cycles h =
    let ns = cycles_to_ns f cycles in
    if ltb 0 cycles then Histogram.put h (if ltb overhead ns then ns - overhead else ns) else h

-- Only the thread of an enabled monitor calls it, so that every metric has its histogram.
unfoldable pub process_sample : (tsc_frequency : ℕ) → Measurement → Monitor → Monitor
process_sample f m s =
    let counted = record s { samples_collected = add64 s.samples_collected 1 } in
    if ltb s.samples_collected s.config.warmup_samples then counted else record counted {
      histograms = λ metric.
          Option.map (record_metric f s.rdtsc_overhead_ns (calculate_metric_cycles m metric))
            (s.histograms metric);
    }

-- `while (sample_buffer_->try_pop(sample)) process_sample(sample);` with fuel: the outer `none` is an
-- access out of bounds or no fuel left.
unfoldable pub drain : (fuel tsc_frequency : ℕ) → Blocking Measurement → Monitor → Option Monitor
drain zero f buffer s = none
drain (suc fuel) f buffer s = do
  (sample, buffer') ← Blocking.try_pop buffer_size buffer
  elim sample [
    | none ↦ some (record s { sample_buffer = some buffer' })
    | some m ↦ drain fuel f buffer' (process_sample f m s)
  ]
