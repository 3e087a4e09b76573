-- ===== src/Dashboard/Drawing.antt =====
-- What src/dashboard.cpp draws, as the values, texts and colours that it prints; Dashboard.Frame prints them.
use my_arbitrager.Prelude.{
  ℕ, ◌/◌, List, [], ◌∷◌, ◌++◌, Option, none, some, map, length, take, ltb, if◌then◌else◌,
}
use my_arbitrager.Prelude.Text.{Text, codes, same, to_string}
use my_arbitrager.Market.{
  Double, Ticker, DataStatus, live, slow, stale, Opportunity, get_data_status, spread_bps,
  mid_price,
}
use my_arbitrager.Market.Map.{lookup}
use my_arbitrager.Output.{Color, green, red, yellow, blue, magenta, reset, bright_green}
use my_arbitrager.Dashboard.{Dashboard}

unfoldable pub exchange_color : Text → Color
exchange_color exchange =
    if same exchange (codes "Binance")
    then yellow
    else if same exchange (codes "Kraken")
    then magenta
    else if same exchange (codes "Bybit")
    then green
    else blue

unfoldable pub status_color : DataStatus → Color
status_color live = green
status_color slow = yellow
status_color stale = red

unfoldable pub status_text : DataStatus → Text
status_text live = codes "LIVE"
status_text slow = codes "SLOW"
status_text stale = codes "STALE"

-- In thousands or millions from there on.
unfoldable pub format_large_number : ℕ → Text
format_large_number number =
    if ltb number 1000
    then to_string number
    else if ltb number 1_000_000
    then to_string (number / 1000) ++ codes "K"
    else to_string (number / 1_000_000) ++ codes "M"

-- A row of `draw_market_data`.
pub record Row (D : Type 0) : Type 0 where
  pub ticker : Ticker D
  pub exchange_shown : Color
  pub price_shown : Color
  pub spread : D
  pub spread_shown : Color
  pub status_shown : Color
  pub status : Text

-- The values of `draw_statistics`.
pub record Statistics (D : Type 0) : Type 0 where
  pub avg_spread : D
  pub min_spread : D
  pub max_spread : D
  pub min_spread_symbol : Text
  pub max_spread_symbol : Text

-- A row of `draw_arbitrage_opportunities`.
pub record Signal (D : Type 0) : Type 0 where
  pub opportunity : Opportunity D
  pub buy_shown : Color
  pub sell_shown : Color
  pub profit_shown : Color

module _ {D : Type 0} (d : Double D) where
  -- The colour of the prices: how the middle has moved since the ticker before.
  unfoldable pub price_color : Dashboard D → Text → Ticker D → Color
  price_color s key ticker = elim (lookup key s.previous_prices) [
    | none ↦ reset
    | some previous_mid ↦
        if d.lt previous_mid (mid_price d ticker)
        then green
        else if d.lt (mid_price d ticker) previous_mid
        then red
        else reset
  ]

  unfoldable pub spread_color : D → Color
  spread_color spread =
      if d.lt (d.of_ℕ 20) spread then red else if d.lt (d.of_ℕ 10) spread then yellow else green

  -- `now_ms` is the clock when the row of a ticker is drawn.
  unfoldable pub draw_row : (now_ms : Ticker D → ℕ) → Dashboard D → Text → Ticker D → Row D
  draw_row now_ms s key ticker =
      let status = get_data_status (now_ms ticker) ticker.timestamp_ms in
      record {
        ticker = ticker;
        exchange_shown = exchange_color ticker.exchange;
        price_shown = price_color s key ticker;
        spread = spread_bps d ticker;
        spread_shown = spread_color (spread_bps d ticker);
        status_shown = status_color status;
        status = status_text status;
      }

  unfoldable pub draw_rows : (now_ms : Ticker D → ℕ) → Dashboard D → List Text → List (Row D)
  draw_rows now_ms s [] = []
  draw_rows now_ms s (key ∷ keys) =
      let rest = draw_rows now_ms s keys in
      elim (lookup key s.market_data) [
        | none ↦ rest
        | some ticker ↦ draw_row now_ms s key ticker ∷ rest
      ]

  -- `sort` is `std::sort` of the keys.
  unfoldable pub draw_market_data :
      (sort : List Text → List Text) → (now_ms : Ticker D → ℕ) → Dashboard D → List (Row D)
  draw_market_data sort now_ms s =
      draw_rows now_ms s (sort (map (λ (entry : Text × Ticker D). entry.0) s.market_data))

  -- The loop over the market data.
  unfoldable pub add_spreads : List (Text × Ticker D) → Statistics D → Statistics D
  add_spreads [] v = v
  add_spreads ((symbol, ticker) ∷ market_data) v =
      let spread = spread_bps d ticker in
      add_spreads market_data (record {
        avg_spread = d.add v.avg_spread spread;
        min_spread = if d.lt spread v.min_spread then spread else v.min_spread;
        max_spread = if d.lt v.max_spread spread then spread else v.max_spread;
        min_spread_symbol = if d.lt spread v.min_spread then symbol else v.min_spread_symbol;
        max_spread_symbol = if d.lt v.max_spread spread then symbol else v.max_spread_symbol;
      })

  -- `none`: there is no market data yet.
  unfoldable pub draw_statistics : Dashboard D → Option (Statistics D)
  draw_statistics s = elim s.market_data [
    | [] ↦ none
    | entry ∷ entries ↦
        let v = add_spreads (entry ∷ entries) (record {
          avg_spread = d.of_ℕ 0;
          min_spread = d.of_ℕ 1_000_000_000;
          max_spread = d.of_ℕ 0;
          min_spread_symbol = [];
          max_spread_symbol = [];
        }) in
        some (record v { avg_spread = d.div v.avg_spread (d.of_ℕ (length (entry ∷ entries))) })
  ]

  unfoldable pub profit_color : D → Color
  profit_color profit_bps =
      if d.lt (d.of_ℕ 50) profit_bps
      then bright_green
      else if d.lt (d.of_ℕ 20) profit_bps
      then green
      else yellow

  unfoldable pub draw_signal : Opportunity D → Signal D
  draw_signal opp = record {
    opportunity = opp;
    buy_shown = exchange_color opp.buy_exchange;
    sell_shown = exchange_color opp.sell_exchange;
    profit_shown = profit_color opp.profit_bps;
  }

  -- The first five in descending order of profit; `sort` is `std::sort` by it.
  unfoldable pub draw_arbitrage_opportunities :
      (sort : List (Opportunity D) → List (Opportunity D)) → List (Opportunity D) → List (Signal D)
  draw_arbitrage_opportunities sort opportunities = map draw_signal (take 5 (sort opportunities))
