-- ===== src/Tests/Whole.antt =====
-- The program of src/main.cpp: its arguments, a start without Kraken, and two tickers.
use my_arbitrager.Prelude.{ℕ, ◌≡◌, refl, true, false, List, [], ◌∷◌, none, some}
use my_arbitrager.Prelude.Int.{pos}
use my_arbitrager.Prelude.Text.{codes, same, to_string, digits_before}
use my_arbitrager.Engine
use my_arbitrager.Engine.Lifecycle
use my_arbitrager.Dashboard
use my_arbitrager.Dashboard.{Dashboard}
use my_arbitrager.Output.{magenta}
use my_arbitrager.Dashboard.Display
use my_arbitrager.Dashboard.Drawing.{
  draw_statistics, draw_arbitrage_opportunities, format_large_number, exchange_color, status_text,
}
use my_arbitrager.Market.{stale}
use my_arbitrager.Clients.Session
use my_arbitrager.Clients.Session.{Attempt}
use my_arbitrager.Program
use my_arbitrager.Program.{Program, Lost, parse_arguments, launch, keeps_running, cleanup}
use my_arbitrager.Program.Views.{Delivery, Turn, deliver_all}
use my_arbitrager.Program.Shutdown.{Down, launch-cleanup}
use my_arbitrager.Tests.Pass.{numbers, clock, cheap, dear, stale_one}

abbrev program : Program ℕ
program = Program.create numbers 0

program-Down : Down program
unfolding Program.create Lifecycle.create Session.create Display.create
program-Down = record {
  binance = (refl, refl);
  coinbase = (refl, refl);
  kraken = (refl, refl);
  bybit = (refl, refl);
  worker = (refl, refl);
  display = (refl, refl);
}

abbrev success : Attempt
success = record {
  prepared = true;
  host_name_set = true;
  resolved = true;
  reached = true;
  secured = true;
  accepted = true;
  writes = λ _. true;
}

abbrev unreachable : Attempt
unreachable = record success { reached = false }

-- The program goes on with Coinbase and Bybit.
abbrev binance_lost : Lost
binance_lost = record { binance = true; coinbase = false; kraken = false; bybit = false }

launch-cleanup_example :
    (p' : Program ℕ) × (launch numbers
        (pos 3)
        success
        success
        unreachable
        success
        binance_lost
        program
      ≡ some (true, p'))
    × (keeps_running p' ≡ true)
    × (p'.worker.running ≡ true)
    × (p'.display.running ≡ true)
    × Down (cleanup p')
unfolding Program.create
launch-cleanup_example =
    launch-cleanup numbers (pos 3) success success unreachable success binance_lost program
      program-Down refl

abbrev deliveries : List (Delivery ℕ)
deliveries =
    record { ticker = cheap; now = 100; start_tsc = 10; end_tsc = 20 }
    ∷ record { ticker = dear; now = 101; start_tsc = 30; end_tsc = 40 }
    ∷ []

abbrev opening : Turn ℕ
opening = record { deliveries = deliveries; clock = clock }

abbrev closing : Turn ℕ
closing = record {
  deliveries = record { ticker = stale_one; now = 102; start_tsc = 50; end_tsc = 60 } ∷ [];
  clock = clock;
}

-- A toy `std::stoi`, which reads 7 or throws.
arguments_read :
    (parse_arguments
        (λ v. some (pos 7))
        (codes "-v" ∷ codes "--max-reports" ∷ codes "7" ∷ [])
        (pos 0)
      ≡ some (pos 7))
    × (parse_arguments (λ v. none) (codes "-v" ∷ codes "--max-reports" ∷ []) (pos 0) ≡ some (pos 0))
unfolding parse_arguments same
arguments_read = (refl, refl)

abbrev shown : Dashboard ℕ
shown = (deliver_all numbers 1_000_000_000 program deliveries).dashboard

-- Prices and spreads in whole numbers.
drawn :
    (draw_statistics numbers (record shown { market_data = [] }) ≡ none)
    × (draw_arbitrage_opportunities numbers (λ opps. opps) [] ≡ [])
    × (format_large_number 999 ≡ codes "999")
    × (format_large_number 12_345 ≡ codes "12K")
    × (format_large_number 7_654_321 ≡ codes "7M")
    × (exchange_color (codes "Kraken") ≡ magenta)
    × (status_text stale ≡ codes "STALE")
unfolding draw_statistics draw_arbitrage_opportunities format_large_number to_string digits_before
    exchange_color same status_text
drawn = (refl, refl, refl, refl, refl, refl, refl)
