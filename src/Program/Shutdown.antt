-- ===== src/Program/Shutdown.antt =====
-- The program from its start to its end.
use my_arbitrager.Prelude.{
  ◌≡◌, inl, inr, Bool-cases, refl, sym, ◌∙◌, Bool, true, false, not, ◌&&◌, ◌||◌, if-false, some,
}
use native.Mathlib.Omega.{arith}
use my_arbitrager.Prelude.Int.{ℤ}
use my_arbitrager.Market.{Double}
use my_arbitrager.Engine.Lifecycle
use my_arbitrager.Engine.Lifecycle.{
  Worker, set_calculation_interval, set_max_reports, set_shutdown_callback,
}
use my_arbitrager.Engine.{set_min_profit_bps}
use my_arbitrager.Dashboard.Display
use my_arbitrager.Dashboard.Display.{Display, set_update_interval, set_arbitrage_engine}
use my_arbitrager.Clients.Session.{Client, Attempt, set_message_callback}
use my_arbitrager.Clients.Session.Binance
use my_arbitrager.Clients.Session.Coinbase
use my_arbitrager.Clients.Session.Kraken
use my_arbitrager.Clients.Session.Bybit
use my_arbitrager.Clients.Session.First.{opens, IsUp, connect-Ends, disconnect-IsUp}
use my_arbitrager.Clients.Session.Reconnect.{binance, coinbase, kraken, bybit}
use my_arbitrager.Program.{
  Program, Lost, lose, pause, symbols, wire, settle, start, connect_others, launch, keeps_running,
  cleanup,
}

-- Which threads run: the engine's and the dashboard's, and the flags of the clients.
pub record Down {D : Type 0} (p : Program D) : Type 0 where
  pub binance : IsUp false p.binance
  pub coinbase : IsUp false p.coinbase
  pub kraken : IsUp false p.kraken
  pub bybit : IsUp false p.bybit
  pub worker : (p.worker.running ≡ false) × (p.worker.joinable ≡ false)
  pub display : (p.display.running ≡ false) × (p.display.joinable ≡ false)

stop-display :
    (s : Display)
    → s.joinable ≡ s.running
    → ((Display.stop s).running ≡ false) × ((Display.stop s).joinable ≡ false)
unfolding Display.stop
stop-display s e = (ground arith, ground arith)

start-display :
    (s : Display)
    → (s.running ≡ false) × (s.joinable ≡ false)
    → Display.start s ≡ some (record s { running = true; joinable = true })
unfolding Display.start
start-display s (stopped, idle) = if-false _ _ stopped ∙ if-false _ _ idle

module _ {D : Type 0} where
  start-worker :
      (w : Worker D)
      → (w.running ≡ false) × (w.joinable ≡ false)
      → Lifecycle.start w ≡ some (record w { running = true; joinable = true })
  unfolding Lifecycle.start
  start-worker w (stopped, idle) = if-false _ _ stopped ∙ if-false _ _ idle

  pub cleanup-Down : (p : Program D) → p.display.joinable ≡ p.display.running → Down (cleanup p)
  unfolding cleanup Lifecycle.stop Binance.disconnect Coinbase.disconnect Kraken.disconnect
      Bybit.disconnect
  cleanup-Down p e = record {
    binance = disconnect-IsUp p.binance;
    coinbase = disconnect-IsUp p.coinbase;
    kraken = disconnect-IsUp p.kraken;
    bybit = disconnect-IsUp p.bybit;
    worker = (refl, refl);
    display = stop-display p.display e;
  }

  keeps_running-four :
      (p : Program D) (w x y z : Bool)
      → p.shutdown ≡ false
      → p.binance.connected ≡ w
      → p.coinbase.connected ≡ x
      → p.kraken.connected ≡ y
      → p.bybit.connected ≡ z
      → keeps_running p ≡ (w || (x || (y || z)))
  unfolding keeps_running
  keeps_running-four p w x y z off e e' e'' e3 = ground arith

-- Whether a stream that opens, if it does, stands until the engine starts.
abbrev pub stands : Attempt → (lost : Bool) → Bool
stands a lost = opens a && not lost

lose-connected :
    (lost b : Bool) (c : Client) → c.connected ≡ b → (lose lost c).connected ≡ (b && not lost)
unfolding lose
lose-connected lost b c e = ground arith

module _ {D : Type 0} (d : Double D) where
  -- The program after the start of the engine and the dashboard.
  abbrev on : ℤ → Program D → Program D
  on max_reports p = record (settle d max_reports p) {
    worker = record (settle d max_reports p).worker { running = true; joinable = true };
    display = record (settle d max_reports p).display { running = true; joinable = true };
  }

  started :
      (max_reports : ℤ) (p : Program D)
      → (p.worker.running ≡ false) × (p.worker.joinable ≡ false)
      → (p.display.running ≡ false) × (p.display.joinable ≡ false)
      → start d max_reports p ≡ some (on max_reports p)
  unfolding start settle set_min_profit_bps set_calculation_interval set_max_reports
      set_shutdown_callback set_update_interval
  started max_reports p w s =
      rw
        (
          start-worker (settle d max_reports p).worker w,
          start-display (settle d max_reports p).display s,
        )
        refl

  -- A program that is down, whatever its network calls do and whichever streams are lost in the pause before
  -- the engine starts, starts without terminating: the engine and the dashboard run exactly if Binance
  -- connects, and the main loop then goes on exactly if one of the streams that opened still stands;
  -- otherwise `main` returns with neither started. The cleanup then leaves no client connected and no thread
  -- to join.
  pub launch-cleanup :
      (max_reports : ℤ) (a b c e : Attempt) (lost : Lost) (p : Program D)
      → Down p
      → p.shutdown ≡ false
      → (p' : Program D) × (launch d max_reports a b c e lost p ≡ some (opens a, p'))
        × (keeps_running p' ≡ (
            opens a
            && (stands a lost.binance
                || (stands b lost.coinbase || (stands c lost.kraken || stands e lost.bybit)))))
        × (p'.worker.running ≡ opens a)
        × (p'.display.running ≡ opens a)
        × Down (cleanup p')
  unfolding launch connect_others pause wire settle set_message_callback set_arbitrage_engine
      set_update_interval
  launch-cleanup max_reports a b c e lost p down on_going =
      let (requests, to_binance, first, up) =
        connect-Ends binance a symbols (wire p).binance (down.binance.0, down.binance.1) in
      let (requests', to_coinbase, second, up') =
        connect-Ends coinbase b symbols (wire p).coinbase (down.coinbase.0, down.coinbase.1) in
      let (requests'', to_kraken, third, up'') =
        connect-Ends kraken c symbols (wire p).kraken (down.kraken.0, down.kraken.1) in
      let (requests3, to_bybit, fourth, up3) =
        connect-Ends bybit e symbols (wire p).bybit (down.bybit.0, down.bybit.1) in
      let off : Program D = record (wire p) { binance = to_binance } in
      let connected : Program D = record (wire p) {
        binance = to_binance;
        coinbase = to_coinbase;
        kraken = to_kraken;
        bybit = to_bybit;
      } in
      let paused : Program D = pause lost connected in
      elim (Bool-cases (opens a)) [
        | inl hit ↦ (
          on max_reports paused,
          rw
              (
                first,
                second,
                third,
                fourth,
                started max_reports paused down.worker down.display,
                hit,
              )
              refl,
          keeps_running-four (on max_reports paused) (stands a lost.binance)
                (stands b lost.coinbase) (stands c lost.kraken) (stands e lost.bybit) on_going
                (lose-connected lost.binance (opens a) to_binance up.0)
                (lose-connected lost.coinbase (opens b) to_coinbase up'.0)
                (lose-connected lost.kraken (opens c) to_kraken up''.0)
                (lose-connected lost.bybit (opens e) to_bybit up3.0)
              ∙ rw hit refl,
          sym hit,
          sym hit,
          cleanup-Down (on max_reports paused) refl,
        )
        | inr miss ↦ (
          off,
          rw (first, miss) refl,
          keeps_running-four off (opens a) false false false on_going up.0 down.coinbase.0
                down.kraken.0 down.bybit.0
              ∙ rw miss refl,
          down.worker.0 ∙ sym miss,
          down.display.0 ∙ sym miss,
          cleanup-Down off (down.display.1 ∙ sym down.display.0),
        )
      ]
