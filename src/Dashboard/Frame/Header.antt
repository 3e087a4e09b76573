-- ===== src/Dashboard/Frame/Header.antt =====
-- The header and the footer that src/dashboard.cpp prints, and its texts of times.
use my_arbitrager.Prelude.{ℕ, ◌-◌, ◌*◌, ◌/◌, ◌%◌, List, [], ◌∷◌}
use my_arbitrager.Prelude.Text.{Text}
use my_arbitrager.Output.{
  Insertion, item, number, setw, setfill, left, text, clear_screen, lit, line, spaces, paint, cyan,
  reset, bold, blue, green, default_format, print, bytes_of_all,
}
use my_arbitrager.Dashboard.Drawing.{format_large_number}

-- `get_current_time_string`: `hms` is the text of `std::put_time`, and `now_ms` the clock.
unfoldable pub get_current_time_string : (hms : Text) (now_ms : ℕ) → Text
get_current_time_string hms now_ms = bytes_of_all (
    print {D = Unit {0}} (λ f p x. []) default_format
      (item (text hms) ∷ lit "." ∷ setfill 48 ∷ setw 3 ∷ number (now_ms % 1000) ∷ []))

unfoldable pub format_duration : (duration_ms : ℕ) → Text
format_duration duration =
    let hours = duration / 3_600_000 in
    let minutes = (duration - 3_600_000 * hours) / 60_000 in
    let seconds = (duration - 3_600_000 * hours - 60_000 * minutes) / 1000 in
    bytes_of_all (
      print {D = Unit {0}} (λ f p x. []) default_format
        (setfill 48
          ∷ setw 2
          ∷ number hours
          ∷ lit ":"
          ∷ setfill 48
          ∷ setw 2
          ∷ number minutes
          ∷ lit ":"
          ∷ setfill 48
          ∷ setw 2
          ∷ number seconds
          ∷ []))

module _ {D : Type 0} where
  unfoldable pub clear_screen_text : List (Insertion D)
  clear_screen_text = item clear_screen ∷ []

  unfoldable pub draw_header : (now_str : Text) (update_count symbols : ℕ) → List (Insertion D)
  draw_header now_str update_count symbols =
      paint cyan
      ∷ paint bold
      ∷ line
          "╔════════════════════════════════════════════════════════════════════════════════════════════════╗"
      ∷ line
          "║                        BINANCE REAL-TIME CRYPTOCURRENCY DASHBOARD                              ║"
      ∷ line
          "╠════════════════════════════════════════════════════════════════════════════════════════════════╣"
      ∷ paint reset
      ∷ paint cyan
      ∷ lit "║ "
      ∷ paint bold
      ∷ lit "Time: "
      ∷ paint reset
      ∷ left
      ∷ setw 20
      ∷ item (text now_str)
      ∷ paint cyan
      ∷ paint bold
      ∷ lit " Updates: "
      ∷ paint reset
      ∷ left
      ∷ setw 15
      ∷ item (text (format_large_number update_count))
      ∷ paint cyan
      ∷ paint bold
      ∷ lit " Symbols: "
      ∷ paint reset
      ∷ left
      ∷ setw 39
      ∷ number symbols
      ∷ paint cyan
      ∷ line "║"
      ∷ line
          "╠═══════════╦══════════╦═══════════════╦═══════════════╦════════════╦════════════╦═══════════╦════════════╣"
      ∷ lit "║  "
      ∷ paint bold
      ∷ lit "SYMBOL"
      ∷ paint reset
      ∷ paint cyan
      ∷ lit "  ║ "
      ∷ paint bold
      ∷ lit "EXCHANGE"
      ∷ paint reset
      ∷ paint cyan
      ∷ lit " ║   "
      ∷ paint bold
      ∷ lit "BID PRICE"
      ∷ paint reset
      ∷ paint cyan
      ∷ lit "   ║   "
      ∷ paint bold
      ∷ lit "ASK PRICE"
      ∷ paint reset
      ∷ paint cyan
      ∷ lit "   ║  "
      ∷ paint bold
      ∷ lit "BID SIZE"
      ∷ paint reset
      ∷ paint cyan
      ∷ lit " ║  "
      ∷ paint bold
      ∷ lit "ASK SIZE"
      ∷ paint reset
      ∷ paint cyan
      ∷ lit " ║  "
      ∷ paint bold
      ∷ lit "SPREAD"
      ∷ paint reset
      ∷ paint cyan
      ∷ lit "  ║  "
      ∷ paint bold
      ∷ lit "STATUS"
      ∷ paint reset
      ∷ paint cyan
      ∷ line "   ║"
      ∷ line
          "╠═══════════╬══════════╬═══════════════╬═══════════════╬════════════╬════════════╬═══════════╬════════════╣"
      ∷ paint reset
      ∷ []

  unfoldable pub draw_footer : (update_interval : ℕ) (now_str : Text) → List (Insertion D)
  draw_footer update_interval now_str =
      paint cyan
      ∷ line
          "╠════════════════════════════════════════════════════════════════════════════════════════════════╣"
      ∷ lit "║ "
      ∷ paint reset
      ∷ paint bold
      ∷ lit "Controls:"
      ∷ paint reset
      ∷ lit " Press Ctrl+C to exit  │  "
      ∷ lit "Update Interval: "
      ∷ paint blue
      ∷ paint bold
      ∷ number update_interval
      ∷ lit "ms"
      ∷ paint reset
      ∷ lit "  │  "
      ∷ lit "Last Update: "
      ∷ paint green
      ∷ item (text now_str)
      ∷ paint reset
      ∷ spaces 28
      ∷ paint cyan
      ∷ line "║"
      ∷ line
          "╚════════════════════════════════════════════════════════════════════════════════════════════════╝"
      ∷ paint reset
      ∷ []
