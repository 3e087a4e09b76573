-- ===== src/Program.antt =====
-- src/main.cpp: the options, the wiring of the clients to the dashboard and the engine, the start, the condition
-- of the main loop, and the shutdown. The default build, with the mutex queue.
pub mod Views
pub mod Shutdown
pub mod Console
use my_arbitrager.Prelude.{
  ℕ, suc, ◌+◌, ◌&&◌, ◌||◌, Bool, true, false, not, List, [], ◌∷◌, Option, none, some, ◌>>=◌,
  if◌then◌else◌,
}
use my_arbitrager.Prelude.Int.{ℤ, pos}
use my_arbitrager.Prelude.Text.{Text, codes, same}
use my_arbitrager.Market.{Double, Ticker}
use my_arbitrager.Tracker
use my_arbitrager.Tracker.{Tracker}
use my_arbitrager.Engine.{Engine, set_min_profit_bps}
use my_arbitrager.Engine.Lifecycle
use my_arbitrager.Engine.Lifecycle.{
  Worker, set_calculation_interval, set_max_reports, set_shutdown_callback,
}
use my_arbitrager.Dashboard
use my_arbitrager.Dashboard.{Dashboard}
use my_arbitrager.Dashboard.Display
use my_arbitrager.Dashboard.Display.{Display, set_arbitrage_engine, set_update_interval}
use my_arbitrager.Clients.Session
use my_arbitrager.Clients.Session.{Client, Attempt, set_message_callback}
use my_arbitrager.Clients.Session.Binance
use my_arbitrager.Clients.Session.Coinbase
use my_arbitrager.Clients.Session.Kraken
use my_arbitrager.Clients.Session.Bybit

-- The globals, with the tracker that the queue reports to.
pub record Program (D : Type 0) : Type 0 where
  pub binance : Client
  pub coinbase : Client
  pub kraken : Client
  pub bybit : Client
  pub dashboard : Dashboard D
  pub display : Display
  pub worker : Worker D
  pub tracker : Tracker
  pub shutdown : Bool

-- The globals once `main` has made the objects, with the tracker's constructor.
unfoldable pub create : {D : Type 0} → Double D → (now : ℕ) → Program D
create d now = record {
  binance = Session.create;
  coinbase = Session.create;
  kraken = Session.create;
  bybit = Session.create;
  dashboard = Dashboard.create now;
  display = Display.create;
  worker = Lifecycle.create d;
  tracker = Tracker.create;
  shutdown = false;
}

-- The limit that the arguments after the program's name set, `max_reports` if they set none. `stoi` is
-- `std::stoi`, and `none` its exception, which ends the program.
unfoldable pub parse_arguments : (stoi : Text → Option ℤ) → List Text → (max_reports : ℤ) → Option ℤ
parse_arguments stoi [] max_reports = some max_reports
parse_arguments stoi (a ∷ []) max_reports = some max_reports
parse_arguments stoi (a ∷ v ∷ arguments) max_reports =
    let skipped = parse_arguments stoi (v ∷ arguments) max_reports in
    let rest = parse_arguments stoi arguments in
    if same a (codes "--max-reports") then stoi v >>= rest else skipped

unfoldable pub symbols : List Text
symbols =
    codes "BTCUSDT"
    ∷ codes "ETHUSDT"
    ∷ codes "ADAUSDT"
    ∷ codes "DOTUSDT"
    ∷ codes "SOLUSDT"
    ∷ codes "MATICUSDT"
    ∷ codes "AVAXUSDT"
    ∷ codes "LTCUSDT"
    ∷ codes "LINKUSDT"
    ∷ codes "XLMUSDT"
    ∷ codes "XRPUSDT"
    ∷ codes "UNIUSDT"
    ∷ codes "AAVEUSDT"
    ∷ codes "ATOMUSDT"
    ∷ codes "ALGOUSDT"
    ∷ []

-- The clients whose streams end before the engine starts.
pub record Lost : Type 0 where
  pub binance : Bool
  pub coinbase : Bool
  pub kraken : Bool
  pub bybit : Bool

unfoldable pub lose : Bool → Client → Client
lose lost c = if lost then record c { connected = false } else c

module _ {D : Type 0} where
  -- The last three clients connect, whether they succeed or not.
  unfoldable pub connect_others : (coinbase kraken bybit : Attempt) → Program D → Option (Program D)
  connect_others a b c p = do
    (coinbase_ok, to_coinbase, coinbase) ← Coinbase.connect a symbols p.coinbase
    (kraken_ok, to_kraken, kraken) ← Kraken.connect b symbols p.kraken
    (bybit_ok, to_bybit, bybit) ← Bybit.connect c symbols p.bybit
    some (record p { coinbase = coinbase; kraken = kraken; bybit = bybit })

  -- What the reading threads may do to the flags until the engine starts, in the pause of two seconds: a
  -- client that has lost its stream is not connected, and its thread can still be joined.
  unfoldable pub pause : Lost → Program D → Program D
  pause lost p = record p {
    binance = lose lost.binance p.binance;
    coinbase = lose lost.coinbase p.coinbase;
    kraken = lose lost.kraken p.kraken;
    bybit = lose lost.bybit p.bybit;
  }

  unfoldable pub wire : Program D → Program D
  wire p = record p {
    binance = set_message_callback true p.binance;
    coinbase = set_message_callback true p.coinbase;
    kraken = set_message_callback true p.kraken;
    bybit = set_message_callback true p.bybit;
    display = set_arbitrage_engine p.display;
  }

module _ {D : Type 0} (d : Double D) where
  -- The callback of each client. The readings of the clock and the counter are arguments.
  unfoldable pub on_ticker :
      (tsc_frequency : ℕ) → Program D → Ticker D → (now start_tsc end_tsc : ℕ) → Program D
  on_ticker f p ticker now start_tsc end_tsc =
      let (worker, tracker) =
        Lifecycle.update_market_data f p.worker p.tracker ticker start_tsc end_tsc in
      record p {
        dashboard = Dashboard.update_market_data d p.dashboard ticker now;
        worker = worker;
        tracker = tracker;
      }

  -- The settings before the engine and the dashboard start.
  unfoldable pub settle : (max_reports : ℤ) → Program D → Program D
  settle max_reports p = record p {
    worker = set_shutdown_callback (
        set_max_reports max_reports (
          set_calculation_interval 100
            (record p.worker { engine = set_min_profit_bps p.worker.engine (d.of_ℕ 5) })));
    display = set_update_interval 500 p.display;
  }

  unfoldable pub start : (max_reports : ℤ) → Program D → Option (Program D)
  start max_reports p = do
    let ready = settle max_reports p
    worker ← Lifecycle.start ready.worker
    display ← Display.start ready.display
    some (record ready { worker = worker; display = display })

  -- From the callbacks to the main loop. Only a failure of Binance ends the program, with `return 1`, which
  -- is `false` here; `none` is `std::terminate`.
  unfoldable pub launch :
      (max_reports : ℤ)
      → (binance coinbase kraken bybit : Attempt) → Lost
      → Program D
      → Option (Bool × Program D)
  launch max_reports a b c e lost p = do
    (ok, requests, binance) ← Binance.connect a symbols (wire p).binance
    let connected = record (wire p) { binance = binance }
    let later = connect_others b c e connected >>= λ all. start max_reports (pause lost all)
    if ok then (later >>= λ started. some (true, started)) else some (false, connected)

-- The condition of the main loop.
unfoldable pub keeps_running : {D : Type 0} → Program D → Bool
keeps_running p =
    not p.shutdown
    && (p.binance.connected || (p.coinbase.connected || (p.kraken.connected || p.bybit.connected)))

-- The cleanup after the loop; the destructors find nothing more to do.
unfoldable pub cleanup : {D : Type 0} → Program D → Program D
cleanup p = record p {
  worker = Lifecycle.stop p.worker;
  display = Display.stop p.display;
  binance = Binance.disconnect p.binance;
  coinbase = Coinbase.disconnect p.coinbase;
  kraken = Kraken.disconnect p.kraken;
  bybit = Bybit.disconnect p.bybit;
}

unfoldable pub signal_handler : {D : Type 0} → Program D → Program D
signal_handler p = cleanup (record p { shutdown = true })
