-- ===== src/Dashboard/Frame/Summary.antt =====
-- The statistics that src/dashboard.cpp prints, with the spaces up to the right edge.
use my_arbitrager.Prelude.{
  Bool, ℕ, ◌-◌, List, [], ◌∷◌, ◌++◌, Option, none, some, length, ltb, if◌then◌else◌,
}
use my_arbitrager.Prelude.Text.{Text}
use my_arbitrager.Output.{
  Insertion, item, double, setprecision, fixed, text, lit, line, spaces, paint, cyan, reset, bold,
  blue, green, red, yellow, default_format, print, bytes_of_all,
}
use my_arbitrager.Dashboard.Drawing.{Statistics}

module _ {D : Type 0} where
  unfoldable pub no_market_data : List (Insertion D)
  no_market_data =
      paint cyan
      ∷ lit "║ "
      ∷ paint yellow
      ∷ lit "No market data available yet..."
      ∷ spaces 62
      ∷ paint cyan
      ∷ line "║"
      ∷ []

  unfoldable pub statistics_title : List (Insertion D)
  statistics_title =
      paint cyan
      ∷ lit "║ "
      ∷ paint bold
      ∷ lit "MARKET STATISTICS"
      ∷ paint reset
      ∷ spaces 78
      ∷ paint cyan
      ∷ line "║"
      ∷ []

  unfoldable pub statistics_line : Statistics D → List (Insertion D)
  statistics_line v =
      paint cyan
      ∷ lit "║ "
      ∷ paint reset
      ∷ lit "  Average Spread: "
      ∷ paint blue
      ∷ paint bold
      ∷ fixed
      ∷ setprecision 2
      ∷ double v.avg_spread
      ∷ lit " bp"
      ∷ paint reset
      ∷ lit "  │  "
      ∷ lit "Min: "
      ∷ paint green
      ∷ item (text v.min_spread_symbol)
      ∷ lit " ("
      ∷ fixed
      ∷ setprecision 2
      ∷ double v.min_spread
      ∷ lit " bp)"
      ∷ paint reset
      ∷ lit "  │  "
      ∷ lit "Max: "
      ∷ paint red
      ∷ item (text v.max_spread_symbol)
      ∷ lit " ("
      ∷ fixed
      ∷ setprecision 2
      ∷ double v.max_spread
      ∷ lit " bp)"
      ∷ paint reset
      ∷ []

  -- What the code writes again, without colours, to measure the line.
  unfoldable pub stats_stream : Statistics D → List (Insertion D)
  stats_stream v =
      lit "  Average Spread: "
      ∷ fixed
      ∷ setprecision 2
      ∷ double v.avg_spread
      ∷ lit " bp"
      ∷ lit "  │  Min: "
      ∷ item (text v.min_spread_symbol)
      ∷ lit " ("
      ∷ fixed
      ∷ setprecision 2
      ∷ double v.min_spread
      ∷ lit " bp)"
      ∷ lit "  │  Max: "
      ∷ item (text v.max_spread_symbol)
      ∷ lit " ("
      ∷ fixed
      ∷ setprecision 2
      ∷ double v.max_spread
      ∷ lit " bp)"
      ∷ []

  -- `length` is that of the stream's contents, in bytes.
  unfoldable pub padding_after : (length : ℕ) → List (Insertion D)
  padding_after n = if ltb n 95 then spaces (95 - n) ∷ [] else []

module _ {D : Type 0} (show : (is_fixed : Bool) (precision : ℕ) → D → Text) where
  -- The line with the values, up to the right edge.
  unfoldable pub padded_line : Statistics D → List (Insertion D)
  padded_line v =
      statistics_line v
      ++ padding_after (length (bytes_of_all (print show default_format (stats_stream v))))
      ++ paint cyan ∷ line "║" ∷ []

  unfoldable pub print_statistics : Option (Statistics D) → List (Insertion D)
  print_statistics none = no_market_data
  print_statistics (some v) = statistics_title ++ padded_line v
