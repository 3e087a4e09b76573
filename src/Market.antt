-- ===== src/Market.antt =====
-- src/types.hpp: tickers, their age, opportunities, and the map from keys to tickers.
pub mod Map
use my_arbitrager.Prelude.{ℕ, ◌++◌, Bool, true, false, List, [], ◌∷◌, ltb, if◌then◌else◌}
use my_arbitrager.Prelude.Bits.{sub64}
use my_arbitrager.Prelude.Int.{ℤ, int64, below}
use my_arbitrager.Prelude.Text.{Text, codes}

-- What the program does with a `double`: arithmetic, comparison, and
-- conversion from and to an integer. The
-- model fixes no rounding: it holds for every choice of these operations.
pub record Double (D : Type 0) : Type 0 where
  pub add : D → D → D
  pub sub : D → D → D
  pub mul : D → D → D
  pub div : D → D → D
  pub of_ℕ : ℕ → D
  pub to_ℕ : D → ℕ  -- the conversion to `uint64_t`
  pub lt : D → D → Bool
  pub le : D → D → Bool

-- `TickerData`
pub record Ticker (D : Type 0) : Type 0 where
  pub symbol : Text
  pub exchange : Text
  pub bid_price : D
  pub ask_price : D
  pub bid_quantity : D
  pub ask_quantity : D
  pub timestamp_ms : ℕ
  pub enqueue_tsc : ℕ

-- `age()`, of a ticker or an opportunity with this time stamp, when the clock reads `now_ms`: the
-- subtraction is one of `uint64_t`.
unfoldable pub age : ℕ → ℕ → ℤ
age now_ms timestamp_ms = int64 (sub64 now_ms timestamp_ms)

pub data DataStatus : Type 0 where
  live slow stale : DataStatus

unfoldable pub get_data_status : ℕ → ℕ → DataStatus
unfolding age
get_data_status now_ms timestamp_ms =
    let age_ms = age now_ms timestamp_ms in
    if below age_ms 1000 then live else if below age_ms 5000 then slow else stale

-- `make_ticker_key`
unfoldable pub make_ticker_key : Text → Text → Text
make_ticker_key exchange symbol = exchange ++ codes ":" ++ symbol

-- `ArbitrageOpportunity`
pub record Opportunity (D : Type 0) : Type 0 where
  pub symbol : Text
  pub buy_exchange : Text
  pub sell_exchange : Text
  pub buy_price : D
  pub sell_price : D
  pub profit_bps : D
  pub max_quantity : D
  pub timestamp_ms : ℕ

module _ {D : Type 0} (d : Double D) where
  open d use {add, sub, mul, div, of_ℕ, lt}

  unfoldable pub spread_bps : Ticker D → D
  spread_bps t =
      if lt (of_ℕ 0) t.bid_price
      then mul (div (sub t.ask_price t.bid_price) t.bid_price) (of_ℕ 10000)
      else of_ℕ 0

  unfoldable pub mid_price : Ticker D → D
  mid_price t = div (add t.bid_price t.ask_price) (of_ℕ 2)

  unfoldable pub profit_percentage : Opportunity D → D
  profit_percentage o = div o.profit_bps (of_ℕ 100)
