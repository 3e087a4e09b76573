-- ===== src/Tracker/Report/Print.antt =====
-- What the reports of src/queue_latency_tracker.hpp insert into `std::cout`.
use my_arbitrager.Prelude.{
  ℕ, ◌-◌, Bool, true, List, [], ◌∷◌, ◌++◌, Option, none, some, ◌>>=◌, length, replicate, ltb,
  if◌then◌else◌,
}
use my_arbitrager.Prelude.Text.{Text, codes, to_string}
use my_arbitrager.Market.{Double}
use my_arbitrager.Output.{
  Insertion, item, number, double, setw, setprecision, left, right, fixed, text, lit, line, spaces,
}
use my_arbitrager.Tracker.{Tracker}
use my_arbitrager.Tracker.Report.{
  Time, in_ns, in_us, in_ms, Row, Line, no_bar, bar, print_report, print_histogram, print_occupancy,
}

-- Of the default build.
abbrev pub queue_type : Text
queue_type = codes "Shared Mutex"

abbrev pub bucket_labels : List Text
bucket_labels =
    codes "   <50ns"
    ∷ codes " 50-100ns"
    ∷ codes "100-250ns"
    ∷ codes "250-500ns"
    ∷ codes "  0.5-1us"
    ∷ codes "    1-5us"
    ∷ codes "   5-10us"
    ∷ codes "    >10us"
    ∷ []

abbrev pub bar_width : ℕ
bar_width = 40

-- The field of `%4...`.
unfoldable pub at_least_4 : Text → Text
at_least_4 t = replicate (4 - length t) 32 ++ t

module _ {D : Type 0} where
  unfoldable pub report_header : List (Insertion D)
  report_header =
      line ""
      ∷ line "╔═══════════════════════════════════════════════════════════════════════════╗"
      ∷ lit "║           QUEUE PUSH LATENCY ("
      ∷ left
      ∷ setw 20
      ∷ item (text queue_type)
      ∷ line ")                      ║"
      ∷ line "╠═══════════════════════════════════════════════════════════════════════════╣"
      ∷ line "║ Exchange   │   Count   │   Median   │     Min    │     Max    │    P99    ║"
      ∷ line "╠═══════════════════════════════════════════════════════════════════════════╣"
      ∷ []

  unfoldable pub report_end : List (Insertion D)
  report_end =
      line "╚═══════════════════════════════════════════════════════════════════════════╝" ∷ []

  unfoldable pub histogram_header : Text → (sample_count : ℕ) → List (Insertion D)
  histogram_header name sample_count =
      line ""
      ∷ lit "  "
      ∷ item (text name)
      ∷ lit " latency distribution ("
      ∷ number sample_count
      ∷ line " samples)"
      ∷ line "  ┌─────────────────────────────────────────────────────────────┐"
      ∷ []

  -- A bar longer than its field makes a string of a negative length, which throws: `none`.
  unfoldable pub bar_line : (label : Text) → Line D → Option (List (Insertion D))
  bar_line label no_bar =
      some (lit "  │ " ∷ item (text label) ∷ lit " │" ∷ spaces bar_width ∷ line "│   0 │" ∷ [])
  bar_line label (bar len n percent) =
      if ltb bar_width len
      then none
      else some (
          lit "  │ "
          ∷ item (text label)
          ∷ lit " │"
          ∷ item (text (replicate len 35))
          ∷ spaces (bar_width - len)
          ∷ lit "│"
          ∷ right
          ∷ setw 4
          ∷ number n
          ∷ lit " │ "
          ∷ fixed
          ∷ setprecision 1
          ∷ setw 5
          ∷ double percent
          ∷ line "%"
          ∷ [])

  -- A line without a label is beyond the arrays.
  unfoldable pub bar_lines : (labels : List Text) → List (Line D) → Option (List (Insertion D))
  bar_lines labels [] = some []
  bar_lines [] (l ∷ lines) = none
  bar_lines (label ∷ labels) (l ∷ lines) = do
    first ← bar_line label l
    rest ← bar_lines labels lines
    some (first ++ rest)

  unfoldable pub histogram_end : List (Insertion D)
  histogram_end = line "  └─────────────────────────────────────────────────────────────┘" ∷ []

  unfoldable pub one_histogram : Text × ℕ × List (Line D) → Option (List (Insertion D))
  one_histogram (name, sample_count, lines) = do
    bars ← bar_lines bucket_labels lines
    some (histogram_header name sample_count ++ bars ++ histogram_end)

  unfoldable pub all_histograms : List (Text × ℕ × List (Line D)) → Option (List (Insertion D))
  all_histograms [] = some []
  all_histograms (h ∷ hs) = do
    first ← one_histogram h
    rest ← all_histograms hs
    some (first ++ rest)

  unfoldable pub occupancy_header : List (Insertion D)
  occupancy_header =
      line ""
      ∷ line "  Queue Occupancy at Push Time (head-to-tail distance)"
      ∷ line "  ┌────────────────────────────────────────────────────┐"
      ∷ line "  │ Exchange   │    Mean    │    Min   │    Max       │"
      ∷ line "  ├────────────────────────────────────────────────────┤"
      ∷ []

  unfoldable pub occupancy_row : Text × D × ℕ × ℕ → List (Insertion D)
  occupancy_row (name, mean_occ, min_occ, max_occ) =
      lit "  │ "
      ∷ left
      ∷ setw 10
      ∷ item (text name)
      ∷ lit " │ "
      ∷ right
      ∷ fixed
      ∷ setprecision 1
      ∷ setw 10
      ∷ double mean_occ
      ∷ lit " │ "
      ∷ setw 8
      ∷ number min_occ
      ∷ lit " │ "
      ∷ setw 8
      ∷ number max_occ
      ∷ line "     │"
      ∷ []

  unfoldable pub occupancy_rows : List (Text × D × ℕ × ℕ) → List (Insertion D)
  occupancy_rows [] = line "  └────────────────────────────────────────────────────┘" ∷ []
  occupancy_rows (r ∷ rs) = occupancy_row r ++ occupancy_rows rs

-- `show` is the text of a `double`, for `snprintf` too.
module _ {D : Type 0} (d : Double D) (show : (is_fixed : Bool) (precision : ℕ) → D → Text) where
  unfoldable pub time_text : Time → Text
  time_text (in_ns ns) = at_least_4 (to_string ns) ++ codes "ns"
  time_text (in_us ns) = at_least_4 (show true 1 (d.div (d.of_ℕ ns) (d.of_ℕ 1000))) ++ codes "us"
  time_text (in_ms ns) =
      at_least_4 (show true 1 (d.div (d.of_ℕ ns) (d.of_ℕ 1_000_000))) ++ codes "ms"

  unfoldable pub table_row : Row → List (Insertion D)
  table_row row =
      lit "║ "
      ∷ left
      ∷ setw 10
      ∷ item (text row.name)
      ∷ lit " │ "
      ∷ right
      ∷ setw 9
      ∷ number row.count
      ∷ lit " │ "
      ∷ setw 10
      ∷ item (text (time_text row.median))
      ∷ lit " │ "
      ∷ setw 10
      ∷ item (text (time_text row.least))
      ∷ lit " │ "
      ∷ setw 10
      ∷ item (text (time_text row.most))
      ∷ lit " │ "
      ∷ setw 9
      ∷ item (text (time_text row.p99))
      ∷ line " ║"
      ∷ []

  unfoldable pub table_rows : List Row → List (Insertion D)
  table_rows [] = report_end
  table_rows (row ∷ rows) = table_row row ++ table_rows rows

  -- The whole report; `none` if it throws.
  unfoldable pub print_all : (sort : List ℕ → List ℕ) → Tracker → Option (List (Insertion D))
  print_all sort t = do
    histograms ← all_histograms (print_histogram d t)
    some (
        report_header
        ++ table_rows (print_report sort t)
        ++ histograms
        ++ occupancy_header
        ++ occupancy_rows (print_occupancy d t))
