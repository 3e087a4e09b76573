-- ===== src/Tracker.antt =====
-- `QueueLatencyTracker` of src/queue_latency_tracker.hpp. Each update runs whole here; the printed
-- reports are left out.
pub mod Samples
pub mod Rank
pub mod Report
pub mod Names
pub mod Threads
use my_arbitrager.Prelude.{
  ℕ, zero, suc, ◌+◌, ◌-◌, ◌*◌, ◌/◌, ◌%◌, ◌^◌, ◌||◌, List, [], ◌∷◌, Option, none, some, min, get_or,
  set, replicate, take, ltb, leb, ◌==◌, if◌then◌else◌,
}
use my_arbitrager.Prelude.Bits.{add64, sub64, mul64}
use my_arbitrager.Prelude.Text.{Text, codes, same}
use my_arbitrager.Market.{Double}
use my_arbitrager.Latency.Timing.{cycles_to_ns}

-- `MAX_EXCHANGES` and `SAMPLE_BUFFER_SIZE`
abbrev pub max_exchanges : ℕ
max_exchanges = 5

abbrev pub sample_buffer_size : ℕ
sample_buffer_size = 10_000

pub record ExchangeStats : Type 0 where
  pub name : Text
  pub count : ℕ
  pub total_ns : ℕ
  pub min_ns : ℕ
  pub max_ns : ℕ
  pub samples : List ℕ
  pub occupancy_samples : List ℕ
  pub sample_index : ℕ

-- The member initialisers.
unfoldable pub blank : ExchangeStats
blank = record {
  name = [];
  count = 0;
  total_ns = 0;
  min_ns = 2 ^ 64 - 1;
  max_ns = 0;
  samples = replicate sample_buffer_size 0;
  occupancy_samples = replicate sample_buffer_size 0;
  sample_index = 0;
}

-- `ExchangeStats::record`; the index stays inside the arrays, which have SAMPLE_BUFFER_SIZE entries.
unfoldable pub put : ExchangeStats → (latency_ns queue_occupancy : ℕ) → ExchangeStats
put ex latency_ns queue_occupancy =
    let idx = ex.sample_index % sample_buffer_size in
    record ex {
      count = add64 ex.count 1;
      total_ns = add64 ex.total_ns latency_ns;
      min_ns = if ltb latency_ns ex.min_ns then latency_ns else ex.min_ns;
      max_ns = if ltb ex.max_ns latency_ns then latency_ns else ex.max_ns;
      samples = set ex.samples idx latency_ns;
      occupancy_samples = set ex.occupancy_samples idx queue_occupancy;
      sample_index = add64 ex.sample_index 1;
    }

-- `ExchangeStats::mean_ns`
unfoldable pub mean_ns : {D : Type 0} → Double D → ExchangeStats → D
mean_ns d ex = if ex.count == 0 then d.of_ℕ 0 else d.div (d.of_ℕ ex.total_ns) (d.of_ℕ ex.count)

-- `ExchangeStats::reset`
unfoldable pub reset : ExchangeStats → ExchangeStats
reset ex = record ex {
  count = 0;
  total_ns = 0;
  min_ns = 2 ^ 64 - 1;
  max_ns = 0;
  sample_index = 0;
  occupancy_samples = replicate sample_buffer_size 0;
}

pub record Tracker : Type 0 where
  pub exchanges : List ExchangeStats
  pub exchange_count : ℕ

-- The first of the `n` exchanges, the first of them number `i`, that has this name.
unfoldable pub find_name : Text → (n : ℕ) → List ExchangeStats → (i : ℕ) → Option ℕ
find_name name zero exchanges i = none
find_name name (suc n) [] i = none
find_name name (suc n) (ex ∷ exchanges) i =
    if same ex.name name then some i else find_name name n exchanges (i + 1)

-- `exchanges_[i]`, changed by a call.
unfoldable pub modify :
    (ExchangeStats → ExchangeStats) → List ExchangeStats → ℕ → List ExchangeStats
modify f [] i = []
modify f (ex ∷ exchanges) zero = f ex ∷ exchanges
modify f (ex ∷ exchanges) (suc i) = ex ∷ modify f exchanges i

unfoldable pub get_exchange_index : Tracker → Text → ℕ
get_exchange_index t name = elim (find_name name t.exchange_count t.exchanges 0) [
  | some i ↦ i
  | none ↦ 0
]

-- The branches of `register_exchange` for a name that is not there.
unfoldable pub add_exchange : Tracker → Text → ℕ × Tracker
add_exchange t name =
    if ltb t.exchange_count max_exchanges
    then (
      t.exchange_count,
      record {
        exchanges = modify (λ ex. record ex { name = name }) t.exchanges t.exchange_count;
        exchange_count = t.exchange_count + 1;
      },
    )
    else (0, t)

unfoldable pub register_exchange : Tracker → Text → ℕ × Tracker
register_exchange t name = elim (find_name name t.exchange_count t.exchanges 0) [
  | some i ↦ (i, t)
  | none ↦ add_exchange t name
]

-- The constructor.
unfoldable pub create : Tracker
create =
    let t₀ : Tracker = record { exchanges = replicate max_exchanges blank; exchange_count = 0 } in
    let (i₁, t₁) = register_exchange t₀ (codes "Binance") in
    let (i₂, t₂) = register_exchange t₁ (codes "Coinbase") in
    let (i₃, t₃) = register_exchange t₂ (codes "Kraken") in
    let (i₄, t₄) = register_exchange t₃ (codes "Bybit") in t₄

unfoldable pub record_operation :
    (tsc_frequency : ℕ) → Tracker → Text → (start_tsc end_tsc queue_occupancy : ℕ) → Tracker
record_operation f t exchange start_tsc end_tsc queue_occupancy =
    if start_tsc == 0 || end_tsc == 0 then t else if leb end_tsc start_tsc then t else record t {
      exchanges =
          modify (λ ex. put ex (cycles_to_ns f (sub64 end_tsc start_tsc)) queue_occupancy)
            t.exchanges (get_exchange_index t exchange);
    }

-- `QueueLatencyTracker::reset`, of the exchanges in use.
unfoldable pub reset_first : ℕ → List ExchangeStats → List ExchangeStats
reset_first zero exchanges = exchanges
reset_first (suc n) [] = []
reset_first (suc n) (ex ∷ exchanges) = reset ex ∷ reset_first n exchanges

unfoldable pub reset_all : Tracker → Tracker
reset_all t = record t { exchanges = reset_first t.exchange_count t.exchanges }

-- `get_stats`; the index is always one of the table.
unfoldable pub get_stats : Tracker → Text → ExchangeStats
get_stats t exchange = get_or t.exchanges (get_exchange_index t exchange) blank

-- The samples that `calculate_percentile` copies, and its answer; `sort` is `std::sort`.
unfoldable pub kept_samples : ExchangeStats → List ℕ
kept_samples ex = take (min ex.sample_index sample_buffer_size) ex.samples

unfoldable pub calculate_percentile : (List ℕ → List ℕ) → ExchangeStats → (percentile : ℕ) → ℕ
calculate_percentile sort ex percentile =
    let sample_count = min ex.sample_index sample_buffer_size in
    let idx = mul64 percentile sample_count / 100 in
    if sample_count == 0
    then 0
    else get_or (sort (kept_samples ex)) (if leb sample_count idx then sample_count - 1 else idx) 0
