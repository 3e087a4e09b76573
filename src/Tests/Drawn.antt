-- ===== src/Tests/Drawn.antt =====
-- What the dashboard prints.
use my_arbitrager.Prelude.{ℕ, ◌-◌, ◌≡◌, refl, Bool, arith, ltb, if◌then◌else◌}
use my_arbitrager.Prelude.Text.{Text, codes, to_string, digits_before}
use my_arbitrager.Output.{default_format, print, bytes_of, bytes_of_all, green, yellow, blue, reset}
use my_arbitrager.Output.Columns.{width_of}
use my_arbitrager.Dashboard.Drawing.{Row, Statistics, Signal}
use my_arbitrager.Dashboard.Frame.{
  print_row, market_data_end, print_signal, opportunities_end, statistics_title, padded_line,
  format_duration, get_current_time_string,
}
use my_arbitrager.Dashboard.Frame.Widths.{RowFits, SignalFits, table_widths}
use my_arbitrager.Dashboard.Frame.Padding.{stats_length, padded_line-columns}
use my_arbitrager.Tests.Pass.{cheap}

-- A whole number of cents, as the text of a `double`.
abbrev shown : Bool → ℕ → ℕ → Text
shown is_fixed precision x = codes "12.34"

abbrev row : Row ℕ
row = record {
  ticker = cheap;
  exchange_shown = yellow;
  price_shown = reset;
  spread = 4;
  spread_shown = green;
  status_shown = green;
  status = codes "LIVE";
}

abbrev signal : Signal ℕ
signal = record {
  opportunity = record {
    symbol = codes "BTC";
    buy_exchange = codes "Binance";
    sell_exchange = codes "Coinbase";
    buy_price = 100;
    sell_price = 210;
    profit_bps = 4;
    max_quantity = 2;
    timestamp_ms = 0;
  };
  buy_shown = yellow;
  sell_shown = blue;
  profit_shown = green;
}

row-RowFits : RowFits shown row
row-RowFits = record {
  symbol = omega arith;
  exchange = omega arith;
  bid_price = omega arith;
  ask_price = omega arith;
  bid_quantity = omega arith;
  ask_quantity = omega arith;
  spread = omega arith;
  status = omega arith;
}

signal-SignalFits : SignalFits shown signal
signal-SignalFits = record {
  symbol = omega arith;
  buy_exchange = omega arith;
  sell_exchange = omega arith;
  buy_price = omega arith;
  sell_price = omega arith;
  profit_bps = omega arith;
  max_quantity = omega arith;
}

table_widths_example :
    (width_of (print shown default_format (print_row row)) ≡ 108)
    × (width_of (print shown default_format market_data_end) ≡ 107)
    × (width_of (print shown default_format (print_signal signal)) ≡ 100)
    × (width_of (print shown default_format opportunities_end) ≡ 100)
table_widths_example =
    table_widths shown default_format row signal (refl, refl) row-RowFits signal-SignalFits

abbrev statistics : Statistics ℕ
statistics = record {
  avg_spread = 4;
  min_spread = 4;
  max_spread = 4;
  min_spread_symbol = codes "Kraken:BTC/USD";
  max_spread_symbol = codes "Kraken:BTC/USD";
}

padded_line-columns_example :
    (width_of (print shown default_format statistics_title) ≡ 98)
    × (width_of (print shown default_format (padded_line shown statistics)) ≡ (
        if ltb (stats_length shown statistics) 95 then 94 else stats_length shown statistics - 1))
padded_line-columns_example =
    padded_line-columns shown default_format statistics (refl, refl)
      (record {
        avg_spread = omega arith;
        min_spread = omega arith;
        max_spread = omega arith;
        min_spread_symbol = omega arith;
        max_spread_symbol = omega arith;
      })

duration_text : format_duration 3_725_999 ≡ codes "01:02:05"
unfolding format_duration to_string bytes_of_all print bytes_of digits_before
duration_text = refl

time_text : get_current_time_string (codes "12:00:01") 86_407 ≡ codes "12:00:01.407"
unfolding get_current_time_string to_string bytes_of_all print bytes_of digits_before
time_text = refl
