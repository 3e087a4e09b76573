-- ===== src/Intake/Mpsc.antt =====
-- `MPSCSharedQueue` of src/exchange_queue.hpp, the build's other choice of the shared queue: a ring of
-- 4096 slots, which drops a ticker that finds it full. The calls are those of one thread at a
-- time: nothing moves between the size that `push` reads and its `try_push`.
pub mod Same
use my_arbitrager.Prelude.{
  ℕ, zero, suc, ◌<◌, Bool, true, false, List, [], ◌∷◌, Option, none, some, ◌>>=◌, if◌then◌else◌,
  ltb,
}
use my_arbitrager.Prelude.Bits.{add64}
use my_arbitrager.Prelude.Text.{Text}
use my_arbitrager.Market.{Ticker}
use my_arbitrager.Market.Map.{insert}
use my_arbitrager.Tracker.{Tracker, record_operation}
use my_arbitrager.Ring.Mpsc.{Mpsc, create, count, try_push, try_pop}
use my_arbitrager.Intake
use my_arbitrager.Intake.{ticker_key}

abbrev pub queue_size : ℕ
queue_size = 4096

pub record MpscQueue (D : Type 0) : Type 0 where
  pub queue : Mpsc (Ticker D)
  pub dropped_count : ℕ

-- A ticker on its way in, with the two readings of the counter around its push.
pub record Arrival (D : Type 0) : Type 0 where
  pub ticker : Ticker D
  pub start_tsc : ℕ
  pub end_tsc : ℕ

module _ {D : Type 0} where
  unfoldable pub fresh : Ticker D → MpscQueue D
  fresh blank = record { queue = create queue_size blank; dropped_count = 0 }

  -- The push takes one turn of the loop of `try_push`.
  unfoldable pub push :
      (tsc_frequency : ℕ) → MpscQueue D → Tracker → Arrival D → Option (MpscQueue D × Tracker)
  push f s tracker a = do
    let occupancy = count s.queue
    (ok, queue) ← try_push queue_size 1 s.queue a.ticker
    let dropped = if ok then s.dropped_count else add64 s.dropped_count 1
    some (
      record { queue = queue; dropped_count = dropped },
      record_operation f tracker a.ticker.exchange a.start_tsc a.end_tsc occupancy,
    )

  unfoldable pub push_all :
      (tsc_frequency : ℕ)
      → MpscQueue D
      → Tracker
      → List (Arrival D)
      → Option (MpscQueue D × Tracker)
  push_all f s tracker [] = some (s, tracker)
  push_all f s tracker (a ∷ arrivals) = do
    (s', tracker') ← push f s tracker a
    push_all f s' tracker' arrivals

  -- The loop of `drain_all`, on fuel: `count` and the ring and market data after it.
  unfoldable pub drain_loop :
      (fuel : ℕ)
      → Mpsc (Ticker D)
      → List (Text × Ticker D)
      → (count : ℕ) → Option (ℕ × Mpsc (Ticker D) × List (Text × Ticker D))
  drain_loop zero r market_data n = none
  drain_loop (suc fuel) r market_data n = try_pop queue_size r >>= λ (popped, r'). elim popped [
    | none ↦ some (n, r', market_data)
    | some t ↦ drain_loop fuel r' (insert (ticker_key t) t market_data) (add64 n 1)
  ]

  unfoldable pub drain_all :
      (fuel : ℕ)
      → MpscQueue D
      → List (Text × Ticker D)
      → Option (ℕ × MpscQueue D × List (Text × Ticker D))
  drain_all fuel s market_data = do
    (n, queue, drained) ← drain_loop fuel s.queue market_data 0
    some (n, record s { queue = queue }, drained)

-- The drops that `report_drops` prints, if it prints any.
unfoldable pub report_drops : {D : Type 0} → MpscQueue D → Option ℕ
report_drops s = if ltb 0 s.dropped_count then some s.dropped_count else none
