-- ===== src/Dashboard/Frame/Signals.antt =====
-- The table of the opportunities that src/dashboard.cpp prints.
use my_arbitrager.Prelude.{List, [], ◌∷◌, ◌++◌}
use my_arbitrager.Output.{
  Insertion, item, double, setw, setprecision, left, right, fixed, text, lit, line, spaces, paint,
  cyan, reset, bold, yellow,
}
use my_arbitrager.Dashboard.Drawing.{Signal}

module _ {D : Type 0} where
  unfoldable pub opportunities_title : List (Insertion D)
  opportunities_title =
      paint cyan
      ∷ line
          "╠════════════════════════════════════════════════════════════════════════════════════════════════╣"
      ∷ lit "║ "
      ∷ paint bold
      ∷ lit "ARBITRAGE OPPORTUNITIES (Live Signals)"
      ∷ paint reset
      ∷ spaces 57
      ∷ paint cyan
      ∷ line "║"
      ∷ line
          "╠═══════════╦══════════╦══════════╦═══════════════╦═══════════════╦═══════════╦════════════════════╣"
      ∷ lit "║  "
      ∷ paint bold
      ∷ lit "SYMBOL"
      ∷ paint reset
      ∷ paint cyan
      ∷ lit "  ║   "
      ∷ paint bold
      ∷ lit "BUY"
      ∷ paint reset
      ∷ paint cyan
      ∷ lit "    ║  "
      ∷ paint bold
      ∷ lit "SELL"
      ∷ paint reset
      ∷ paint cyan
      ∷ lit "   ║   "
      ∷ paint bold
      ∷ lit "BUY PRICE"
      ∷ paint reset
      ∷ paint cyan
      ∷ lit "   ║  "
      ∷ paint bold
      ∷ lit "SELL PRICE"
      ∷ paint reset
      ∷ paint cyan
      ∷ lit "  ║  "
      ∷ paint bold
      ∷ lit "PROFIT"
      ∷ paint reset
      ∷ paint cyan
      ∷ lit "  ║   "
      ∷ paint bold
      ∷ lit "MAX QUANTITY"
      ∷ paint reset
      ∷ paint cyan
      ∷ line "   ║"
      ∷ line
          "╠═══════════╬══════════╬══════════╬═══════════════╬═══════════════╬═══════════╬════════════════════╣"
      ∷ paint reset
      ∷ []

  unfoldable pub no_opportunities : List (Insertion D)
  no_opportunities =
      paint cyan
      ∷ lit "║ "
      ∷ paint yellow
      ∷ lit "No arbitrage opportunities found yet..."
      ∷ spaces 54
      ∷ paint cyan
      ∷ line "║"
      ∷ []

  -- A row of the table of the opportunities.
  unfoldable pub print_signal : Signal D → List (Insertion D)
  print_signal s =
      paint cyan
      ∷ lit "║ "
      ∷ paint reset
      ∷ paint bold
      ∷ left
      ∷ setw 9
      ∷ item (text s.opportunity.symbol)
      ∷ paint reset
      ∷ paint cyan
      ∷ lit " ║ "
      ∷ paint reset
      ∷ paint s.buy_shown
      ∷ left
      ∷ setw 8
      ∷ item (text s.opportunity.buy_exchange)
      ∷ paint reset
      ∷ paint cyan
      ∷ lit " ║ "
      ∷ paint reset
      ∷ paint s.sell_shown
      ∷ left
      ∷ setw 8
      ∷ item (text s.opportunity.sell_exchange)
      ∷ paint reset
      ∷ paint cyan
      ∷ lit " ║ "
      ∷ paint reset
      ∷ right
      ∷ setw 13
      ∷ fixed
      ∷ setprecision 2
      ∷ double s.opportunity.buy_price
      ∷ paint cyan
      ∷ lit " ║ "
      ∷ paint reset
      ∷ right
      ∷ setw 13
      ∷ fixed
      ∷ setprecision 2
      ∷ double s.opportunity.sell_price
      ∷ paint cyan
      ∷ lit " ║ "
      ∷ paint reset
      ∷ paint s.profit_shown
      ∷ paint bold
      ∷ right
      ∷ setw 7
      ∷ fixed
      ∷ setprecision 2
      ∷ double s.opportunity.profit_bps
      ∷ lit " bp"
      ∷ paint reset
      ∷ paint cyan
      ∷ lit " ║ "
      ∷ paint reset
      ∷ right
      ∷ setw 17
      ∷ fixed
      ∷ setprecision 4
      ∷ double s.opportunity.max_quantity
      ∷ paint cyan
      ∷ lit " ║"
      ∷ paint reset
      ∷ line ""
      ∷ []

  unfoldable pub opportunities_end : List (Insertion D)
  opportunities_end =
      paint cyan
      ∷ line
          "╠═══════════╩══════════╩══════════╩═══════════════╩═══════════════╩═══════════╩════════════════════╣"
      ∷ paint reset
      ∷ []

  unfoldable pub print_signals : List (Signal D) → List (Insertion D)
  print_signals [] = opportunities_end
  print_signals (s ∷ signals) = print_signal s ++ print_signals signals

  unfoldable pub print_opportunities : List (Signal D) → List (Insertion D)
  print_opportunities [] = opportunities_title ++ no_opportunities ++ opportunities_end
  print_opportunities (s ∷ signals) = opportunities_title ++ print_signals (s ∷ signals)
