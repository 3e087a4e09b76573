-- ===== src/Dashboard/Frame/Market.antt =====
-- The table of the market data that src/dashboard.cpp prints.
use my_arbitrager.Prelude.{List, [], ◌∷◌, ◌++◌}
use my_arbitrager.Output.{
  Insertion, item, double, setw, setprecision, left, right, fixed, text, lit, line, paint, cyan,
  reset, bold,
}
use my_arbitrager.Dashboard.Drawing.{Row}

module _ {D : Type 0} where
  -- A row of the table of the market data.
  unfoldable pub print_row : Row D → List (Insertion D)
  print_row row =
      paint cyan
      ∷ lit "║ "
      ∷ paint reset
      ∷ paint bold
      ∷ left
      ∷ setw 9
      ∷ item (text row.ticker.symbol)
      ∷ paint reset
      ∷ paint cyan
      ∷ lit " ║ "
      ∷ paint reset
      ∷ paint row.exchange_shown
      ∷ left
      ∷ setw 8
      ∷ item (text row.ticker.exchange)
      ∷ paint reset
      ∷ paint cyan
      ∷ lit " ║ "
      ∷ paint reset
      ∷ paint row.price_shown
      ∷ right
      ∷ setw 13
      ∷ fixed
      ∷ setprecision 2
      ∷ double row.ticker.bid_price
      ∷ paint reset
      ∷ paint cyan
      ∷ lit " ║ "
      ∷ paint reset
      ∷ paint row.price_shown
      ∷ right
      ∷ setw 13
      ∷ fixed
      ∷ setprecision 2
      ∷ double row.ticker.ask_price
      ∷ paint reset
      ∷ paint cyan
      ∷ lit " ║ "
      ∷ paint reset
      ∷ right
      ∷ setw 10
      ∷ fixed
      ∷ setprecision 4
      ∷ double row.ticker.bid_quantity
      ∷ paint cyan
      ∷ lit " ║ "
      ∷ paint reset
      ∷ right
      ∷ setw 10
      ∷ fixed
      ∷ setprecision 4
      ∷ double row.ticker.ask_quantity
      ∷ paint cyan
      ∷ lit " ║ "
      ∷ paint reset
      ∷ paint row.spread_shown
      ∷ right
      ∷ setw 7
      ∷ fixed
      ∷ setprecision 2
      ∷ double row.spread
      ∷ lit " bp"
      ∷ paint reset
      ∷ paint cyan
      ∷ lit " ║ "
      ∷ paint reset
      ∷ paint row.status_shown
      ∷ setw 10
      ∷ item (text row.status)
      ∷ paint reset
      ∷ paint cyan
      ∷ lit " ║"
      ∷ paint reset
      ∷ line ""
      ∷ []

  unfoldable pub market_data_end : List (Insertion D)
  market_data_end =
      paint cyan
      ∷ line
          "╠═══════════╩══════════╩═══════════════╩═══════════════╩════════════╩════════════╩═══════════╩════════════╣"
      ∷ paint reset
      ∷ []

  unfoldable pub print_rows : List (Row D) → List (Insertion D)
  print_rows [] = market_data_end
  print_rows (row ∷ rows) = print_row row ++ print_rows rows
