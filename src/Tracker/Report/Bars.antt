-- ===== src/Tracker/Report/Bars.antt =====
-- The bars of the printed histogram fit their field.
use my_arbitrager.Prelude.{
  none-ne-some, ℕ, suc, ◌+◌, ◌≤◌, ◌<◌, ◌≡◌, refl, ap, sym, subst, ◌∙◌, Bool, Bool-cases, inl, inr,
  if-true, if-false, List, [], ◌∷◌, Option, none, some, All, arith, length, min, take, ltb, ◌==◌,
  if◌then◌else◌, ◌&&◌, of_some, ◌>>=◌,
}
use my_arbitrager.Market.{Double}
use my_arbitrager.Tracker.{ExchangeStats, sample_buffer_size, Tracker, kept_samples}
use my_arbitrager.Tracker.Report.{
  Line, no_bar, bar, bucket_bounds, count_sample, count_samples, bucket_counts, max_count,
  bar_length, lines_from, histogram_of, each_printed, print_histogram,
}
use my_arbitrager.Tracker.Report.Print.{
  bar_line, bar_lines, bar_width, bucket_labels, one_histogram, all_histograms, print_all,
}
use my_arbitrager.Prelude.Text.{Text}

max_count-le : (counts : List ℕ) (m : ℕ) → m ≤ max_count counts m
unfolding max_count
max_count-le [] m = omega arith
max_count-le (n ∷ counts) m = ground (arith, max_count-le counts (if ltb m n then n else m))

max_count_bounds : (counts : List ℕ) (m : ℕ) → All (λ n. n ≤ max_count counts m) counts
unfolding max_count
max_count_bounds [] m = tt
max_count_bounds (n ∷ counts) m = (
  ground (arith, max_count-le counts (if ltb m n then n else m)),
  max_count_bounds counts (if ltb m n then n else m),
)

length-count_sample :
    (bounds : List ℕ) (val : ℕ) (counts : List ℕ)
    → length (count_sample bounds val counts) ≡ length counts
unfolding count_sample
length-count_sample [] val counts = refl
length-count_sample (b ∷ bounds) val [] = refl
length-count_sample (b ∷ bounds) val (n ∷ counts) =
    ground (arith, length-count_sample bounds val counts)

length-count_samples :
    (bounds samples counts : List ℕ) → length (count_samples bounds samples counts) ≡ length counts
unfolding count_samples
length-count_samples bounds [] counts = refl
length-count_samples bounds (v ∷ samples) counts =
    length-count_samples bounds samples (count_sample bounds v counts)
    ∙ length-count_sample bounds v counts

abbrev FitsBar : {D : Type 0} → Line D → Type 0
FitsBar no_bar = Unit
FitsBar (bar len n percent) = len ≤ bar_width

-- Nothing is thrown.
abbrev pub Total : {A : Type 0} → Option A → Type 0
Total {A} o = (a : A) × (o ≡ some a)

Total-bind :
    {A B : Type 0} (m : Option A) (f : A → Option B)
    → Total m
    → ((a : A) → Total (f a))
    → Total (m >>= f)
Total-bind none f (a, e) h = cc
Total-bind (some b) f t h = h b

module _ {D : Type 0} where
  bar_line-Total : (label : Text) (l : Line D) → FitsBar l → Total (bar_line label l)
  unfolding bar_line
  bar_line-Total label no_bar fits = (_, refl)
  bar_line-Total label (bar len n percent) fits =
      (_, if-false {c = ltb bar_width len} _ _ (ground (arith, fits)))

  bar_lines-Total :
      (labels : List Text) (lines : List (Line D))
      → length lines ≤ length labels
      → All FitsBar lines
      → Total (bar_lines labels lines)
  unfolding bar_lines
  bar_lines-Total labels [] short fits = ([], refl)
  bar_lines-Total [] (l ∷ lines) short fits = absurd (omega (arith, short))
  bar_lines-Total (label ∷ labels) (l ∷ lines) short (first, others) =
      Total-bind (bar_line label l) _ (bar_line-Total label l first) (λ a.
        Total-bind (bar_lines labels lines) _
          (bar_lines-Total labels lines (omega (arith, short)) others) (λ b. (_, refl)))

abbrev AllTotal : {D : Type 0} → List (Text × ℕ × List (Line D)) → Type 0
AllTotal = All (λ h. Total (one_histogram h))

-- What is relied on of `double`: a quotient of at most one, times 40, is at most 40 when it is cut off.
abbrev pub QuotientsFit : {D : Type 0} → Double D → Type 0
QuotientsFit d =
    (n most : ℕ)
    → n ≤ most
    → 0 < most
    → d.to_ℕ (d.mul (d.div (d.of_ℕ n) (d.of_ℕ most)) (d.of_ℕ 40)) ≤ 40

module _ {D : Type 0} (d : Double D) (quotients : QuotientsFit d) where
  bar_length-le : (n most : ℕ) → n ≤ most → 0 < most → bar_length d n most ≤ 40
  unfolding bar_length
  bar_length-le n most h pos = ground (arith, quotients n most h pos)

  lines_from_fit :
      (b sample_count most : ℕ) (counts : List ℕ)
      → 0 < most
      → All (λ n. n ≤ most) counts
      → All FitsBar (lines_from d b sample_count most counts)
        × (length (lines_from d b sample_count most counts) ≡ length counts)
  unfolding lines_from
  lines_from_fit b sample_count most [] pos h = (tt, refl)
  lines_from_fit b sample_count most (n ∷ counts) pos (h, hs) =
      let (fits, e) = lines_from_fit (b + 1) sample_count most counts pos hs in
      elim (Bool-cases (n == 0 && (ltb 0 b && ltb b 7))) [
        | inl empty ↦ rw empty ((tt, fits), ap suc e)
        | inr drawn ↦ rw drawn ((bar_length-le n most h pos, fits), ap suc e)
      ]

  counted-Total :
      (name : Text) (sample_count : ℕ) (samples : List ℕ)
      → let counts = bucket_counts samples in
        0 < max_count counts 0
        → Total (
            one_histogram
              (name, sample_count, lines_from d 0 sample_count (max_count counts 0) counts))
  unfolding one_histogram bucket_counts
  counted-Total name sample_count samples pos =
      let counts = bucket_counts samples in
      let (fits, e) =
        lines_from_fit 0 sample_count (max_count counts 0) counts pos (max_count_bounds counts 0) in
      Total-bind _ _
        (bar_lines-Total bucket_labels _
          (omega (
            arith,
            e,
            length-count_samples bucket_bounds samples (0 ∷ 0 ∷ 0 ∷ 0 ∷ 0 ∷ 0 ∷ 0 ∷ 0 ∷ []),
          ))
          fits)
        (λ bars. (_, refl))

  histogram-Total :
      (ex : ExchangeStats) (h : Text × ℕ × List (Line D))
      → histogram_of d ex ≡ some h
      → Total (one_histogram h)
  unfolding histogram_of
  histogram-Total ex h e = elim (Bool-cases (min ex.sample_index sample_buffer_size == 0)) [
    | inl unused ↦ absurd (none-ne-some (sym (if-true _ _ unused) ∙ e))
    | inr used ↦ elim (Bool-cases (max_count (bucket_counts (kept_samples ex)) 0 == 0)) [
      | inl uncounted ↦
          absurd (none-ne-some (sym (if-true _ _ uncounted) ∙ sym (if-false _ _ used) ∙ e))
      | inr counted ↦
          subst (λ x. Total (one_histogram x))
            (of_some (sym (if-false _ _ counted) ∙ sym (if-false _ _ used) ∙ e))
            (counted-Total ex.name (min ex.sample_index sample_buffer_size) (kept_samples ex)
              (ground (arith, counted)))
    ]
  ]

  kept-Total :
      (o : Option (Text × ℕ × List (Line D))) (rest : List (Text × ℕ × List (Line D)))
      → ((h : Text × ℕ × List (Line D)) → o ≡ some h → Total (one_histogram h))
      → AllTotal rest
      → AllTotal (elim o [ none ↦ rest | some x ↦ x ∷ rest ])
  kept-Total none rest h others = others
  kept-Total (some x) rest h others = (h x refl, others)

  each-Total : (exchanges : List ExchangeStats) → AllTotal (each_printed (histogram_of d) exchanges)
  unfolding each_printed
  each-Total [] = tt
  each-Total (ex ∷ exchanges) =
      kept-Total (histogram_of d ex) (each_printed (histogram_of d) exchanges) (histogram-Total ex)
        (each-Total exchanges)

  all_histograms-Total :
      (hs : List (Text × ℕ × List (Line D))) → AllTotal hs → Total (all_histograms hs)
  unfolding all_histograms
  all_histograms-Total [] h = (_, refl)
  all_histograms-Total (h ∷ hs) (first, others) =
      Total-bind (one_histogram h) _ first
        (λ a. Total-bind (all_histograms hs) _ (all_histograms-Total hs others) (λ b. (_, refl)))

  -- Whatever the tracker has recorded, its report is printed without throwing, if a quotient of two
  -- counts, the first of them no larger, times 40, is cut off to at most 40: every bar fits its field.
  pub print_all-Total :
      (show : (is_fixed : Bool) (precision : ℕ) → D → Text) (sort : List ℕ → List ℕ) (t : Tracker)
      → Total (print_all d show sort t)
  unfolding print_all print_histogram
  print_all-Total show sort t =
      Total-bind _ _
        (all_histograms-Total (print_histogram d t)
          (each-Total (take t.exchange_count t.exchanges)))
        (λ histograms. (_, refl))
