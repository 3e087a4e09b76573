-- ===== src/Tests/Threads.antt =====
-- The engine's thread, the queue before it, and the tracker of the queue.
use my_arbitrager.Prelude.{
  ℕ, ◌%◌, ◌≡◌, refl, true, false, List, [], ◌∷◌, some, arith, get_elem?, replicate,
}
use my_arbitrager.Prelude.Int.{pos}
use my_arbitrager.Prelude.Text.{codes, same}
use my_arbitrager.Market.{Ticker, make_ticker_key}
use my_arbitrager.Market.Map.{lookup}
use my_arbitrager.Tracker
use my_arbitrager.Tracker.{
  ExchangeStats, Tracker, sample_buffer_size, find_name, modify, add_exchange, register_exchange,
  get_exchange_index,
}
use my_arbitrager.Tracker.Samples.{put_all, put_all-samples}
use my_arbitrager.Tracker.Names.{IsSized, Registered, register_exchange-Registered}
use my_arbitrager.Intake.{ticker_key, drain_all}
use my_arbitrager.Intake.Latest.{drain_all_last}
use my_arbitrager.Engine.Lifecycle.{Worker, Tick, calculation_loop}
use my_arbitrager.Engine.Lifecycle.Reports.{Limited, calculation_loop-Limited}
use my_arbitrager.Tests.Pass.{numbers, clock, engine, cheap, dear}

abbrev worker : Worker ℕ
worker = record {
  engine = engine;
  incoming_queues = [];
  running = true;
  joinable = true;
  calculation_interval = 100;
  max_reports = pos 1;
  report_count = 0;
  has_shutdown_callback = true;
  shutdown_calls = 0;
}

abbrev ticks : List (Tick ℕ)
ticks =
    record { arrivals = cheap ∷ []; clock = clock; report_due = false }
    ∷ record { arrivals = []; clock = clock; report_due = true }
    ∷ record { arrivals = []; clock = clock; report_due = true }
    ∷ []

calculation_loop-Limited_example :
    Limited numbers 1 2 worker (calculation_loop numbers worker ticks)
calculation_loop-Limited_example =
    calculation_loop-Limited numbers worker ticks 1 refl refl (omega arith)

-- A newer ticker of the cheap one's key, and one of another.
abbrev newer_cheap : Ticker ℕ
newer_cheap = record cheap { bid_price = 98 }

drain_all_last_example :
    let (count, queue, drained) = drain_all (cheap ∷ newer_cheap ∷ dear ∷ []) [] in
    (count ≡ 3) × (queue ≡ []) × (lookup (ticker_key newer_cheap) drained ≡ some newer_cheap)
unfolding ticker_key make_ticker_key same
drain_all_last_example =
    drain_all_last (cheap ∷ []) (dear ∷ []) newer_cheap [] (omega arith) (refl, tt)

put_all-samples_example :
    get_elem? (put_all Tracker.blank ((30, 0) ∷ (40, 1) ∷ [])).samples (1 % 10_000) ≡ some 40
unfolding Tracker.blank
put_all-samples_example =
    put_all-samples Tracker.blank ((30, 0) ∷ (40, 1) ∷ []) 1 (40, 1) refl (omega arith) refl
      (omega arith)

abbrev blank_table : Tracker
blank_table = record { exchanges = replicate 5 Tracker.blank; exchange_count = 0 }

blank_table-IsSized : IsSized blank_table
blank_table-IsSized = record { slots = refl; in_use = omega arith }

known_exchanges :
    (get_exchange_index Tracker.create (codes "Bybit") ≡ 3)
    × (get_exchange_index Tracker.create (codes "Gemini") ≡ 0)
unfolding get_exchange_index Tracker.create register_exchange add_exchange find_name modify same
known_exchanges = (refl, refl)

register_exchange-Registered_example :
    Registered (codes "Kraken") blank_table (register_exchange blank_table (codes "Kraken"))
register_exchange-Registered_example =
    register_exchange-Registered (codes "Kraken") blank_table blank_table-IsSized
