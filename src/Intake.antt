-- ===== src/Intake.antt =====
-- `MutexSharedQueue` of src/exchange_queue.hpp, which every exchange's thread pushes to and the engine
-- drains. Its calls run whole: they hold the mutex. The readings of the counter are arguments.
pub mod Latest
pub mod Mpsc
use my_arbitrager.Prelude.{ℕ, List, [], ◌∷◌, ◌++◌, length}
use my_arbitrager.Prelude.Bits.{add64}
use my_arbitrager.Prelude.Text.{Text}
use my_arbitrager.Market.{Ticker, make_ticker_key}
use my_arbitrager.Market.Map.{insert}
use my_arbitrager.Tracker.{Tracker, record_operation}

module _ {D : Type 0} where
  -- The queue and the tracker after a push.
  unfoldable pub push :
      (tsc_frequency : ℕ)
      → List (Ticker D)
      → Tracker
      → Ticker D
      → (start_tsc end_tsc : ℕ) → List (Ticker D) × Tracker
  push f queue tracker ticker start_tsc end_tsc = (
    queue ++ ticker ∷ [],
    record_operation f tracker ticker.exchange start_tsc end_tsc (length queue),
  )

  unfoldable pub ticker_key : Ticker D → Text
  ticker_key t = make_ticker_key t.exchange t.symbol

  -- The loop of `drain_all`: the market data and `count` when the queue is empty.
  unfoldable pub drain_from :
      List (Ticker D) → List (Text × Ticker D) → (count : ℕ) → ℕ × List (Text × Ticker D)
  drain_from [] market_data count = (count, market_data)
  drain_from (ticker ∷ queue) market_data count =
      drain_from queue (insert (ticker_key ticker) ticker market_data) (add64 count 1)

  -- The number of entries drained, the queue left, and the market data.
  unfoldable pub drain_all :
      List (Ticker D) → List (Text × Ticker D) → ℕ × List (Ticker D) × List (Text × Ticker D)
  drain_all queue market_data =
      let (count, drained) = drain_from queue market_data 0 in (count, [], drained)
