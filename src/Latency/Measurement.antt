-- ===== src/Latency/Measurement.antt =====
-- `LatencyMeasurement`, `LatencyStats` and the metrics of src/latency_measurement.hpp.
use my_arbitrager.Prelude.{
  ℕ, ◌+◌, ◌-◌, ◌^◌, ◌≤◌, ◌<◌, ◌≡◌, ◌≢◌, ◌⊎◌, Bool, not, ◌||◌, List, [], arith, length, get_or, set,
  get_or-set, replicate, ltb, ◌==◌, if◌then◌else◌,
}
use my_arbitrager.Prelude.Text.{Text, codes}
use my_arbitrager.Prelude.Bits.{add64, mul64}
use my_arbitrager.Prelude.Text.{Text}
use my_arbitrager.Market.{Double}

-- The places where a time stamp is taken, without the sentinel MAX_POINTS.
pub data MeasurementPoint : Type 0 where
  websocket_recv json_parsed queue_enqueued queue_dequeued : MeasurementPoint
  engine_received arbitrage_calculated dashboard_updated : MeasurementPoint

-- `static_cast<size_t>(point)`
abbrev pub index : MeasurementPoint → ℕ
index websocket_recv = 0
index json_parsed = 1
index queue_enqueued = 2
index queue_dequeued = 3
index engine_received = 4
index arbitrage_calculated = 5
index dashboard_updated = 6

pub record Measurement : Type 0 where
  pub message_id : ℕ
  pub timestamps : List ℕ
  pub symbol : Text
  pub exchange : Text

-- The constructor.
unfoldable pub blank : Measurement
blank = record { message_id = 0; timestamps = replicate 7 0; symbol = []; exchange = [] }

unfoldable pub get_timestamp : Measurement → MeasurementPoint → ℕ
get_timestamp m point = get_or m.timestamps (index point) 0

unfoldable pub stamp : Measurement → MeasurementPoint → ℕ → Measurement
stamp m point cycles = record m { timestamps = set m.timestamps (index point) cycles }

unfoldable pub has_point : Measurement → MeasurementPoint → Bool
has_point m point = not (get_timestamp m point == 0)

unfoldable pub latency_cycles : Measurement → MeasurementPoint → MeasurementPoint → ℕ
unfolding has_point
latency_cycles m start end =
    if not (has_point m start) || not (has_point m end)
    then 0
    else if ltb (get_timestamp m start) (get_timestamp m end)
    then get_timestamp m end - get_timestamp m start
    else 0

-- The metrics, without the sentinel NUM_METRICS.
pub data LatencyMetric : Type 0 where
  parsing queue_transit engine_processing end_to_end : LatencyMetric

unfoldable pub calculate_metric_cycles : Measurement → LatencyMetric → ℕ
calculate_metric_cycles m parsing = latency_cycles m websocket_recv json_parsed
calculate_metric_cycles m queue_transit = latency_cycles m queue_enqueued queue_dequeued
calculate_metric_cycles m engine_processing = latency_cycles m engine_received arbitrage_calculated
calculate_metric_cycles m end_to_end = latency_cycles m websocket_recv dashboard_updated

pub record LatencyStats : Type 0 where
  pub count : ℕ
  pub min_ns : ℕ
  pub max_ns : ℕ
  pub sum_ns : ℕ
  pub sum_squared_ns : ℕ

-- The constructor, and `reset()`.
unfoldable pub fresh_stats : LatencyStats
fresh_stats = record { count = 0; min_ns = 2 ^ 64 - 1; max_ns = 0; sum_ns = 0; sum_squared_ns = 0 }

unfoldable pub update : LatencyStats → ℕ → LatencyStats
update s latency_ns = record {
  count = add64 s.count 1;
  sum_ns = add64 s.sum_ns latency_ns;
  sum_squared_ns = add64 s.sum_squared_ns (mul64 latency_ns latency_ns);
  min_ns = if ltb latency_ns s.min_ns then latency_ns else s.min_ns;
  max_ns = if ltb s.max_ns latency_ns then latency_ns else s.max_ns;
}

-- `mean_ns()`
unfoldable pub mean_ns : {D : Type 0} → Double D → LatencyStats → D
mean_ns d s = if ltb 0 s.count then d.div (d.of_ℕ s.sum_ns) (d.of_ℕ s.count) else d.of_ℕ 0

-- `std_dev_ns()`; `sqrt` is `std::sqrt`.
unfoldable pub std_dev_ns : {D : Type 0} → Double D → (sqrt : D → D) → LatencyStats → D
std_dev_ns d sqrt s =
    let mean = mean_ns d s in
    let variance = d.sub (d.div (d.of_ℕ s.sum_squared_ns) (d.of_ℕ s.count)) (d.mul mean mean) in
    if s.count == 0 then d.of_ℕ 0 else if d.lt (d.of_ℕ 0) variance then sqrt variance else d.of_ℕ 0

unfoldable pub metric_name : LatencyMetric → Text
metric_name parsing = codes "Parsing"
metric_name queue_transit = codes "Queue Transit"
metric_name engine_processing = codes "Engine Processing"
metric_name end_to_end = codes "End-to-End"

index-lt : (p : MeasurementPoint) → index p < 7
index-lt p = ground arith

-- A time stamp that was recorded is read back, and the others stay as they were.
get_timestamp-stamp :
    (m : Measurement) (p q : MeasurementPoint) (cycles : ℕ)
    → length m.timestamps ≡ 7
    → get_timestamp (stamp m p cycles) q
      ≡ (if index p == index q then cycles else get_timestamp m q)
unfolding get_timestamp stamp
get_timestamp-stamp m p q cycles h =
    get_or-set m.timestamps (index p) (index q) cycles 0 (ground (arith, index-lt p))

-- A latency is reported only between two recorded points in order, and then it is their distance.
latency_cycles_lem :
    (m : Measurement) (p q : MeasurementPoint)
    → ((get_timestamp m p ≢ 0)
        × (get_timestamp m p < get_timestamp m q)
        × (get_timestamp m p + latency_cycles m p q ≡ get_timestamp m q))
      ⊎ (((get_timestamp m p ≡ 0) ⊎ (get_timestamp m q ≤ get_timestamp m p))
          × (latency_cycles m p q ≡ 0))
unfolding latency_cycles
latency_cycles_lem m p q = ground arith
