-- ===== src/Dashboard/Frame/Padding.antt =====
-- How wide the line of the statistics of the dashboard is, in columns of the terminal.
use my_arbitrager.Prelude.{
  ℕ, ◌+◌, ◌-◌, ◌≡◌, refl, ◌∙◌, Bool, true, length, ltb, ltb→lt, if◌then◌else◌, Bool-cases, inl, inr,
  arith,
}
use native.Mathlib.Nat.{zero-sub, zero-add, add-zero}
use my_arbitrager.Prelude.Text.{Text}
use my_arbitrager.Output.{Format, print, default_format, bytes_of, bytes_of_all}
use my_arbitrager.Output.Columns.{
  columns, width_of, IsPlain, columns-IsPlain, columns-spaces, byte_count, length-spaces,
  length-bytes_of_all, size_of-print,
}
use my_arbitrager.Dashboard.Drawing.{Statistics}
use my_arbitrager.Dashboard.Frame.Summary.{
  stats_stream, statistics_line, statistics_title, padding_after, padded_line,
}
use my_arbitrager.Dashboard.Frame.Widths.{AtRest, columns_printed}

module _ {D : Type 0} (show : (is_fixed : Bool) (precision : ℕ) → D → Text) where
  -- The texts between the literals of the statistics.
  pub record StatisticsPlain (v : Statistics D) : Type 0 where
    pub avg_spread : IsPlain (show true 2 v.avg_spread)
    pub min_spread : IsPlain (show true 2 v.min_spread)
    pub max_spread : IsPlain (show true 2 v.max_spread)
    pub min_spread_symbol : IsPlain v.min_spread_symbol
    pub max_spread_symbol : IsPlain v.max_spread_symbol

  abbrev pub stats_length : Statistics D → ℕ
  stats_length v = length (bytes_of_all (print show default_format (stats_stream v)))

  stats_length_lem :
      (v : Statistics D)
      → stats_length v
        ≡ 57
          + length (show true 2 v.avg_spread)
          + length (show true 2 v.min_spread)
          + length (show true 2 v.max_spread)
          + length v.min_spread_symbol
          + length v.max_spread_symbol
  unfolding stats_stream bytes_of
  stats_length_lem v =
      length-bytes_of_all (print show default_format (stats_stream v))
      ∙ size_of-print show byte_count length-spaces default_format (stats_stream v) refl tt
      ∙ simp (zero-sub, add-zero) (omega arith)

  columns_plain :
      (v : Statistics D)
      → StatisticsPlain v
      → (columns (show true 2 v.avg_spread) ≡ length (show true 2 v.avg_spread))
        × (columns (show true 2 v.min_spread) ≡ length (show true 2 v.min_spread))
        × (columns (show true 2 v.max_spread) ≡ length (show true 2 v.max_spread))
        × (columns v.min_spread_symbol ≡ length v.min_spread_symbol)
        × (columns v.max_spread_symbol ≡ length v.max_spread_symbol)
  columns_plain v plain = (
    columns-IsPlain (show true 2 v.avg_spread) plain.avg_spread,
    columns-IsPlain (show true 2 v.min_spread) plain.min_spread,
    columns-IsPlain (show true 2 v.max_spread) plain.max_spread,
    columns-IsPlain v.min_spread_symbol plain.min_spread_symbol,
    columns-IsPlain v.max_spread_symbol plain.max_spread_symbol,
  )

  padded_line_width :
      (f : Format) (v : Statistics D)
      → AtRest f
      → StatisticsPlain v
      → width_of (print show f (padded_line show v))
        ≡ (if ltb (stats_length v) 95 then 94 else stats_length v - 1)
  unfolding padded_line statistics_line padding_after bytes_of
  padded_line_width f v rest plain = elim (Bool-cases (ltb (stats_length v) 95)) [
    | inl short ↦ rw short (
        columns_printed show f _ rest tt
        ∙ simp (rest.0, zero-sub, add-zero, columns-spaces)
            (omega
              (arith, stats_length_lem v, columns_plain v plain, ltb→lt (stats_length v) 95 short)))
    | inr long ↦ rw long (
        columns_printed show f _ rest tt
        ∙ simp (rest.0, zero-sub, add-zero)
            (omega (arith, stats_length_lem v, columns_plain v plain)))
  ]

  -- The line of the statistics is padded by its length in bytes, of which each of its two bars has
  -- three: a line of plain texts that is padded takes 94 columns, a longer one one column less than it
  -- has bytes without the edges, and the title above it 98.
  pub padded_line-columns :
      (f : Format) (v : Statistics D)
      → AtRest f
      → StatisticsPlain v
      → (width_of (print show f statistics_title) ≡ 98)
        × (width_of (print show f (padded_line show v))
            ≡ (if ltb (stats_length v) 95 then 94 else stats_length v - 1))
  unfolding statistics_title bytes_of
  padded_line-columns f v rest plain = (
    columns_printed show f statistics_title rest tt ∙ simp (rest.0, zero-sub, zero-add),
    padded_line_width f v rest plain,
  )
