-- ===== src/Program/Views.antt =====
-- What the dashboard and the engine know of the market.
use my_arbitrager.Prelude.{ℕ, ◌≡◌, List, [], ◌∷◌}
use my_arbitrager.Prelude.Text.{Text}
use my_arbitrager.Market.{Double, Ticker}
use my_arbitrager.Intake
use my_arbitrager.Intake.{drain_from}
use my_arbitrager.Engine.{Clock, Engine, calculate_arbitrage}
use my_arbitrager.Engine.Lifecycle
use my_arbitrager.Engine.Lifecycle.{drain_incoming_queues}
use my_arbitrager.Dashboard
use my_arbitrager.Program.{Program, on_ticker}

-- A ticker of some client, with the clock and the counter when it is passed on.
pub record Delivery (D : Type 0) : Type 0 where
  pub ticker : Ticker D
  pub now : ℕ
  pub start_tsc : ℕ
  pub end_tsc : ℕ

-- What arrives before a turn of the engine's loop, and the clock of its pass.
pub record Turn (D : Type 0) : Type 0 where
  pub deliveries : List (Delivery D)
  pub clock : Clock D

module _ {D : Type 0} (d : Double D) (tsc_frequency : ℕ) where
  abbrev pub deliver_all : Program D → List (Delivery D) → Program D
  deliver_all p [] = p
  deliver_all p (t ∷ ts) =
      deliver_all (on_ticker d tsc_frequency p t.ticker t.now t.start_tsc t.end_tsc) ts

  -- The market data that a drain of these tickers leaves.
  abbrev drained : List (Ticker D) → List (Text × Ticker D) → List (Text × Ticker D)
  drained queue market_data = (drain_from queue market_data 0).1

  -- Nothing is queued, and the engine knows what the dashboard shows.
  abbrev pub InStep : Program D → Type 0
  InStep p =
      (p.worker.incoming_queues ≡ []) × (p.worker.engine.market_data ≡ p.dashboard.market_data)

  -- One turn of the engine's loop, after the tickers that have arrived since the last one.
  unfoldable pub turn : Program D → Turn D → Program D
  turn p t =
      let p' = deliver_all p t.deliveries in
      let drained = drain_incoming_queues p'.worker in
      record p' {
        worker = record drained { engine = calculate_arbitrage d t.clock drained.engine };
      }

  abbrev pub turns : Program D → List (Turn D) → Program D
  turns p [] = p
  turns p (t ∷ ts) = turns (turn p t) ts
