-- ===== src/Engine/Lifecycle.antt =====
-- `ArbitrageEngine` of src/arbitrage_engine.cpp around its passes: `start`, `stop`, `update_market_data`
-- and the thread of `calculation_loop`, which drains the queue, makes a pass and counts the reports.
pub mod Reports
use my_arbitrager.Prelude.{
  ℕ, ◌+◌, ◌&&◌, Bool, true, false, List, [], ◌∷◌, ◌++◌, Option, none, some, ltb, leb, if◌then◌else◌,
}
use my_arbitrager.Prelude.Int.{ℤ, pos, negsuc}
use my_arbitrager.Market.{Double, Ticker}
use my_arbitrager.Intake.{push, drain_all}
use my_arbitrager.Tracker.{Tracker}
use my_arbitrager.Engine
use my_arbitrager.Engine.{Clock, Engine, calculate_arbitrage}

-- The whole object: what the passes use, the queue, the thread and the reports. `shutdown_calls` counts
-- the calls of `shutdown_callback_`.
pub record Worker (D : Type 0) : Type 0 where
  pub engine : Engine D
  pub incoming_queues : List (Ticker D)
  pub running : Bool
  pub joinable : Bool
  pub calculation_interval : ℕ  -- in milliseconds
  pub max_reports : ℤ
  pub report_count : ℕ
  pub has_shutdown_callback : Bool
  pub shutdown_calls : ℕ

-- One iteration of the loop as the world sees it: the tickers that the exchanges have pushed since the
-- last drain, the clock, and whether ten seconds have passed since the last report.
pub record Tick (D : Type 0) : Type 0 where
  pub arrivals : List (Ticker D)
  pub clock : Clock D
  pub report_due : Bool

-- `max_reports_ > 0 && report_count_ >= max_reports_`
unfoldable pub is_last_report : ℤ → ℕ → Bool
is_last_report (pos m) report_count = ltb 0 m && leb m report_count
is_last_report (negsuc m) report_count = false

-- The constructor.
unfoldable pub create : {D : Type 0} → Double D → Worker D
create d = record {
  engine = Engine.create d;
  incoming_queues = [];
  running = false;
  joinable = false;
  calculation_interval = 100;
  max_reports = pos 0;
  report_count = 0;
  has_shutdown_callback = false;
  shutdown_calls = 0;
}

module _ {D : Type 0} where
  -- `none`: a thread assigned over one that has not been joined, which ends the program.
  unfoldable pub start : Worker D → Option (Worker D)
  start w =
      if w.running
      then some w
      else if w.joinable
      then none
      else some (record w { running = true; joinable = true })

  -- With the join, which waits for the loop to see the flag.
  unfoldable pub stop : Worker D → Worker D
  stop w = record w { running = false; joinable = false }

  unfoldable pub set_max_reports : ℤ → Worker D → Worker D
  set_max_reports max_reports w = record w { max_reports = max_reports }

  unfoldable pub set_calculation_interval : ℕ → Worker D → Worker D
  set_calculation_interval interval w = record w { calculation_interval = interval }

  unfoldable pub set_shutdown_callback : Worker D → Worker D
  set_shutdown_callback w = record w { has_shutdown_callback = true }

  unfoldable pub update_market_data :
      (tsc_frequency : ℕ)
      → Worker D
      → Tracker
      → Ticker D
      → (start_tsc end_tsc : ℕ) → Worker D × Tracker
  update_market_data f w tracker ticker start_tsc end_tsc =
      let (queue, tracker') = push f w.incoming_queues tracker ticker start_tsc end_tsc in
      (record w { incoming_queues = queue }, tracker')

  unfoldable pub drain_incoming_queues : Worker D → Worker D
  drain_incoming_queues w =
      let (count, queue, drained) = drain_all w.incoming_queues w.engine.market_data in
      record w { incoming_queues = queue; engine = record w.engine { market_data = drained } }

  -- A report, and the shutdown after the last one.
  unfoldable pub report : Worker D → Worker D
  report w =
      let reported = record w { report_count = w.report_count + 1 } in
      if is_last_report w.max_reports (w.report_count + 1)
      then record reported {
        running = false;
        shutdown_calls = if w.has_shutdown_callback then w.shutdown_calls + 1 else w.shutdown_calls;
      }
      else reported

module _ {D : Type 0} (d : Double D) where
  -- The body of the loop.
  unfoldable pub iterate : Worker D → Tick D → Worker D
  iterate w tick =
      let arrived = record w { incoming_queues = w.incoming_queues ++ tick.arrivals } in
      let drained = drain_incoming_queues arrived in
      let passed = record drained { engine = calculate_arbitrage d tick.clock drained.engine } in
      if tick.report_due then report passed else passed

  -- `while (running_)`, over as many iterations as the list has.
  unfoldable pub calculation_loop : Worker D → List (Tick D) → Worker D
  calculation_loop w [] = w
  calculation_loop w (tick ∷ ticks) =
      let rest = calculation_loop (iterate w tick) ticks in if w.running then rest else w
