-- ===== src/Latency/Monitor/Loop.antt =====
-- The monitoring thread of src/latency_monitor.hpp around its drains, and the snapshot that it reports.
use my_arbitrager.Prelude.{ℕ, Bool, List, [], ◌∷◌, Option, none, some, ◌>>=◌, if◌then◌else◌}
use my_arbitrager.Market.{Double}
use mathlib.Core.Option
use my_arbitrager.Ring.Blocking
use my_arbitrager.Ring.Blocking.{Blocking}
use my_arbitrager.Histogram.{Percentiles, get_common_percentiles}
use my_arbitrager.Latency.Measurement.{Measurement, LatencyMetric}
use my_arbitrager.Latency.Monitor.{Monitor, submit, drain}

pub record StatsSnapshot (D : Type 0) : Type 0 where
  pub metrics : LatencyMetric → Option (Percentiles D)
  pub total_samples : ℕ
  pub dropped_samples : ℕ
  pub rdtsc_overhead_ns : ℕ

unfoldable pub dropped_of : Option (Blocking Measurement) → ℕ
dropped_of none = 0
dropped_of (some buffer) = Blocking.get_dropped_count buffer

unfoldable pub get_stats : {D : Type 0} → Double D → (sqrt : D → D) → Monitor → StatsSnapshot D
get_stats d sqrt s = record {
  metrics = λ metric. Option.map (get_common_percentiles d sqrt) (s.histograms metric);
  total_samples = s.samples_collected;
  dropped_samples = dropped_of s.sample_buffer;
  rdtsc_overhead_ns = s.rdtsc_overhead_ns;
}

-- A round of the loop: the measurements completed since the last one, and whether a report is due.
pub record Round : Type 0 where
  pub completed : List Measurement
  pub report_due : Bool

unfoldable pub submit_all : List Measurement → Monitor → Option Monitor
submit_all [] s = some s
submit_all (m ∷ ms) s = do s' ← submit m s; submit_all ms s'

-- The inner loop; the thread runs only in a monitor that has a buffer.
unfoldable pub drain_buffer : (fuel tsc_frequency : ℕ) → Monitor → Option Monitor
drain_buffer fuel f s = do buffer ← s.sample_buffer; drain fuel f buffer s

module _ {D : Type 0} (d : Double D) (sqrt : D → D) (fuel tsc_frequency : ℕ) where
  -- The reports and the monitor after as many rounds as the list has, and the last drain.
  unfoldable pub monitoring_loop : List Round → Monitor → Option (List (StatsSnapshot D) × Monitor)
  monitoring_loop [] s = do s' ← drain_buffer fuel tsc_frequency s; some ([], s')
  monitoring_loop (round ∷ rounds) s = do
    arrived ← submit_all round.completed s
    drained ← drain_buffer fuel tsc_frequency arrived
    (reports, after) ← monitoring_loop rounds drained
    some (if round.report_due then get_stats d sqrt drained ∷ reports else reports, after)
