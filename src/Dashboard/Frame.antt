-- ===== src/Dashboard/Frame.antt =====
-- A turn of the display loop of src/dashboard.cpp, as what it inserts into `std::cout`.
mod Header
mod Market
mod Summary
mod Signals
pub mod Widths
pub mod Padding
unfoldable pub use Header.*
unfoldable pub use Market.*
unfoldable pub use Summary.*
unfoldable pub use Signals.*
use my_arbitrager.Prelude.{ℕ, Bool, List, ◌++◌, length}
use my_arbitrager.Prelude.Text.{Text}
use my_arbitrager.Market.{Double, Ticker, Opportunity}
use my_arbitrager.Output.{Insertion}
use my_arbitrager.Dashboard.{Dashboard}
use my_arbitrager.Dashboard.Drawing.{
  draw_market_data, draw_statistics, draw_arbitrage_opportunities,
}

module _ {D : Type 0} (d : Double D) (show : (is_fixed : Bool) (precision : ℕ) → D → Text) where
  -- The clock is read for the header, for each row and for the footer; `opportunities` are those of the
  -- engine, none without one.
  unfoldable pub display :
      (sort_keys : List Text → List Text)
      → (sort_opportunities : List (Opportunity D) → List (Opportunity D))
      → (header_time footer_time : Text) → (now_ms : Ticker D → ℕ) → (update_interval : ℕ)
      → List (Opportunity D)
      → Dashboard D
      → List (Insertion D)
  display sort_keys sort_opportunities header_time footer_time now_ms update_interval opportunities
        s =
      clear_screen_text
      ++ draw_header header_time s.update_count (length s.market_data)
      ++ print_rows (draw_market_data d sort_keys now_ms s)
      ++ print_statistics show (draw_statistics d s)
      ++ print_opportunities (draw_arbitrage_opportunities d sort_opportunities opportunities)
      ++ draw_footer update_interval footer_time
