-- ===== src/Latency/Monitor/Print.antt =====
-- What the reports of src/latency_monitor.hpp print, and the header of its file of samples.
use my_arbitrager.Prelude.{Bool, List, [], ◌∷◌, ◌++◌, Option, none, some, if◌then◌else◌}
use my_arbitrager.Market.{Double}
use my_arbitrager.Output.{Insertion, item, number, setw, text, lit, line}
use my_arbitrager.Histogram.{Percentiles}
use my_arbitrager.Latency.Measurement.{
  LatencyMetric, parsing, queue_transit, engine_processing, end_to_end, metric_name,
}
use my_arbitrager.Latency.Monitor.Loop.{StatsSnapshot}

module _ {D : Type 0} (d : Double D) where
  unfoldable pub metric_lines : LatencyMetric → Percentiles D → List (Insertion D)
  metric_lines metric p =
      item (text (metric_name metric))
      ∷ line " Latency:"
      ∷ lit "  Min:    "
      ∷ setw 10
      ∷ number p.least
      ∷ line " ns"
      ∷ lit "  Mean:   "
      ∷ setw 10
      ∷ number (d.to_ℕ p.mean)
      ∷ line " ns"
      ∷ lit "  P50:    "
      ∷ setw 10
      ∷ number p.p50
      ∷ line " ns"
      ∷ lit "  P90:    "
      ∷ setw 10
      ∷ number p.p90
      ∷ line " ns"
      ∷ lit "  P95:    "
      ∷ setw 10
      ∷ number p.p95
      ∷ line " ns"
      ∷ lit "  P99:    "
      ∷ setw 10
      ∷ number p.p99
      ∷ line " ns"
      ∷ lit "  P99.9:  "
      ∷ setw 10
      ∷ number p.p999
      ∷ line " ns"
      ∷ lit "  P99.99: "
      ∷ setw 10
      ∷ number p.p9999
      ∷ line " ns"
      ∷ lit "  Max:    "
      ∷ setw 10
      ∷ number p.most
      ∷ line " ns"
      ∷ lit "  StdDev: "
      ∷ setw 10
      ∷ number (d.to_ℕ p.std_dev)
      ∷ line " ns"
      ∷ line ""
      ∷ []

  -- A metric that is not in the snapshot is passed over.
  unfoldable pub metric_if_any : LatencyMetric → Option (Percentiles D) → List (Insertion D)
  metric_if_any metric none = []
  metric_if_any metric (some p) = metric_lines metric p

  unfoldable pub print_report : StatsSnapshot D → List (Insertion D)
  print_report stats =
      (line ""
        ∷ line "========== Latency Report =========="
        ∷ lit "Total Samples: "
        ∷ number stats.total_samples
        ∷ line ""
        ∷ lit "Dropped Samples: "
        ∷ number stats.dropped_samples
        ∷ line ""
        ∷ lit "RDTSC Overhead: "
        ∷ number stats.rdtsc_overhead_ns
        ∷ line " ns"
        ∷ line "===================================="
        ∷ line ""
        ∷ [])
      ++ metric_if_any parsing (stats.metrics parsing)
      ++ metric_if_any queue_transit (stats.metrics queue_transit)
      ++ metric_if_any engine_processing (stats.metrics engine_processing)
      ++ metric_if_any end_to_end (stats.metrics end_to_end)
      ++ line "====================================" ∷ line "" ∷ []

  -- What the file holds, if it can be opened: no sample is written.
  unfoldable pub export_to_csv : (opened : Bool) → Option (List (Insertion D))
  export_to_csv opened =
      if opened
      then some (
          lit "message_id,symbol,exchange,"
          ∷ lit "recv_ns,parsed_ns,enqueued_ns,dequeued_ns,engine_ns,calculated_ns,dashboard_ns,"
          ∷ line "parse_latency_ns,queue_latency_ns,engine_latency_ns,end_to_end_ns"
          ∷ [])
      else none
