-- ===== src/Dashboard/Frame/Widths.antt =====
-- How wide the rows of the tables of the dashboard are, in columns of the terminal.
use my_arbitrager.Prelude.{ℕ, ◌≡◌, ◌∙◌, Bool, true, List}
use native.Mathlib.Nat.{zero-sub, zero-add}
use my_arbitrager.Prelude.Text.{Text}
use my_arbitrager.Output.{Insertion, Format, print, bytes_of}
use my_arbitrager.Output.Columns.{
  width_of, Fits, columns-Fits, columns_of, columns-spaces, NoFill, measure, size_of-print,
}
use my_arbitrager.Dashboard.Drawing.{Row, Signal}
use my_arbitrager.Dashboard.Frame.Market.{print_row, market_data_end}
use my_arbitrager.Dashboard.Frame.Signals.{print_signal, opportunities_end}

-- The stream between two lines: nothing is left of a width, and the fill is a space.
abbrev pub AtRest : Format → Type 0
AtRest f = (f.width ≡ 0) × (f.fill ≡ 32)

module _ {D : Type 0} (show : (is_fixed : Bool) (precision : ℕ) → D → Text) where
  -- The texts of a row fit its fields.
  pub record RowFits (row : Row D) : Type 0 where
    pub symbol : Fits 9 row.ticker.symbol
    pub exchange : Fits 8 row.ticker.exchange
    pub bid_price : Fits 13 (show true 2 row.ticker.bid_price)
    pub ask_price : Fits 13 (show true 2 row.ticker.ask_price)
    pub bid_quantity : Fits 10 (show true 4 row.ticker.bid_quantity)
    pub ask_quantity : Fits 10 (show true 4 row.ticker.ask_quantity)
    pub spread : Fits 7 (show true 2 row.spread)
    pub status : Fits 10 row.status

  pub record SignalFits (s : Signal D) : Type 0 where
    pub symbol : Fits 9 s.opportunity.symbol
    pub buy_exchange : Fits 8 s.opportunity.buy_exchange
    pub sell_exchange : Fits 8 s.opportunity.sell_exchange
    pub buy_price : Fits 13 (show true 2 s.opportunity.buy_price)
    pub sell_price : Fits 13 (show true 2 s.opportunity.sell_price)
    pub profit_bps : Fits 7 (show true 2 s.opportunity.profit_bps)
    pub max_quantity : Fits 17 (show true 4 s.opportunity.max_quantity)

  -- The columns of a piece of a line, between two widths.
  pub columns_printed :
      (f : Format) (is : List (Insertion D))
      → AtRest f
      → NoFill is
      → width_of (print show f is) ≡ measure show columns_of columns-spaces f is
  columns_printed f is rest plain = size_of-print show columns_of columns-spaces f is rest.1 plain

  print_row-columns :
      (f : Format) (row : Row D)
      → AtRest f
      → RowFits row
      → width_of (print show f (print_row row)) ≡ 108
  unfolding print_row bytes_of
  print_row-columns f row rest fits =
      columns_printed f (print_row row) rest tt
      ∙ simp (
        rest.0,
        zero-sub,
        zero-add,
        columns-Fits 9 row.ticker.symbol fits.symbol,
        columns-Fits 8 row.ticker.exchange fits.exchange,
        columns-Fits 13 (show true 2 row.ticker.bid_price) fits.bid_price,
        columns-Fits 13 (show true 2 row.ticker.ask_price) fits.ask_price,
        columns-Fits 10 (show true 4 row.ticker.bid_quantity) fits.bid_quantity,
        columns-Fits 10 (show true 4 row.ticker.ask_quantity) fits.ask_quantity,
        columns-Fits 7 (show true 2 row.spread) fits.spread,
        columns-Fits 10 row.status fits.status,
      )

  print_signal-columns :
      (f : Format) (s : Signal D)
      → AtRest f
      → SignalFits s
      → width_of (print show f (print_signal s)) ≡ 100
  unfolding print_signal bytes_of
  print_signal-columns f s rest fits =
      columns_printed f (print_signal s) rest tt
      ∙ simp (
        rest.0,
        zero-sub,
        zero-add,
        columns-Fits 9 s.opportunity.symbol fits.symbol,
        columns-Fits 8 s.opportunity.buy_exchange fits.buy_exchange,
        columns-Fits 8 s.opportunity.sell_exchange fits.sell_exchange,
        columns-Fits 13 (show true 2 s.opportunity.buy_price) fits.buy_price,
        columns-Fits 13 (show true 2 s.opportunity.sell_price) fits.sell_price,
        columns-Fits 7 (show true 2 s.opportunity.profit_bps) fits.profit_bps,
        columns-Fits 17 (show true 4 s.opportunity.max_quantity) fits.max_quantity,
      )

  rules-columns :
      (f : Format)
      → AtRest f
      → (width_of (print show f market_data_end) ≡ 107)
        × (width_of (print show f opportunities_end) ≡ 100)
  unfolding market_data_end opportunities_end bytes_of
  rules-columns f rest = (
    columns_printed f market_data_end rest tt ∙ simp (rest.0, zero-add),
    columns_printed f opportunities_end rest tt ∙ simp (rest.0, zero-add),
  )

  -- Where every text fits its field, a row of the opportunities is as wide as the rule under their
  -- table, 100 columns; but a row of the market data takes 108 columns, and the rule under it 107.
  pub table_widths :
      (f : Format) (row : Row D) (s : Signal D)
      → AtRest f
      → RowFits row
      → SignalFits s
      → (width_of (print show f (print_row row)) ≡ 108)
        × (width_of (print show f market_data_end) ≡ 107)
        × (width_of (print show f (print_signal s)) ≡ 100)
        × (width_of (print show f opportunities_end) ≡ 100)
  table_widths f row s rest row_fits signal_fits =
      let (market, opportunities) = rules-columns f rest in
      (
        print_row-columns f row rest row_fits,
        market,
        print_signal-columns f s rest signal_fits,
        opportunities,
      )
