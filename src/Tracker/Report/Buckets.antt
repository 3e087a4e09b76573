-- ===== src/Tracker/Report/Buckets.antt =====
-- The buckets of `print_histogram`.
use my_arbitrager.Prelude.{
  ℕ, suc, ◌+◌, ◌≤◌, ◌<◌, ◌≡◌, refl, sym, subst, ap, ◌∙◌, inl, inr, Bool-cases, List, [], ◌∷◌, arith,
  All, map, ltb, if-true, if-false, if◌then◌else◌,
}
use my_arbitrager.Tracker.Rank.{count_below, IsSorted}
use my_arbitrager.Tracker.Report.{bucket_bounds, count_sample, count_samples, bucket_counts}

-- The numbers of samples up to each bucket.
abbrev pub sums_from : ℕ → List ℕ → List ℕ
sums_from acc [] = []
sums_from acc (n ∷ counts) = (acc + n) ∷ sums_from (acc + n) counts

-- They are the values of `F` at the bounds.
abbrev Sums : (ℕ → ℕ) → ℕ → (bounds counts : List ℕ) → Type 0
Sums F acc [] [] = Unit
Sums F acc [] (n ∷ counts) = ⊥
Sums F acc (b ∷ bounds) [] = ⊥
Sums F acc (b ∷ bounds) (n ∷ counts) = (acc + n ≡ F b) × Sums F (acc + n) bounds counts

Sums-map :
    (F : ℕ → ℕ) (bounds counts : List ℕ) (acc : ℕ)
    → Sums F acc bounds counts
    → sums_from acc counts ≡ map F bounds
Sums-map F [] [] acc h = refl
Sums-map F [] (n ∷ counts) acc h = elim h [ ]
Sums-map F (b ∷ bounds) [] acc h = elim h [ ]
Sums-map F (b ∷ bounds) (n ∷ counts) acc (e, h) =
    ap (λ k. k ∷ sums_from (acc + n) counts) e
    ∙ ap (λ ks. F b ∷ ks) (Sums-map F bounds counts (acc + n) h)

-- The value of one sample at a bound.
abbrev plus_one : (ℕ → ℕ) → ℕ → ℕ → ℕ
plus_one F val b = if ltb val b then suc (F b) else F b

-- One sample more before these buckets, all of whose bounds lie above it.
Sums-suc :
    (F : ℕ → ℕ) (bounds counts : List ℕ) (acc acc' val : ℕ)
    → All (λ b. val < b) bounds
    → acc' ≡ suc acc
    → Sums F acc bounds counts
    → Sums (plus_one F val) acc' bounds counts
Sums-suc F [] [] acc acc' val above e h = tt
Sums-suc F [] (n ∷ counts) acc acc' val above e h = h
Sums-suc F (b ∷ bounds) [] acc acc' val above e h = h
Sums-suc F (b ∷ bounds) (n ∷ counts) acc acc' val (lt, above) e (g, h) =
    (ground arith, Sums-suc F bounds counts (acc + n) (acc' + n) val above (omega arith) h)

All-below :
    (val b : ℕ) (bounds : List ℕ) → val < b → All (λ c. b ≤ c) bounds → All (λ c. val < c) bounds
All-below val b [] lt h = tt
All-below val b (c ∷ bounds) lt (g, h) = (omega arith, All-below val b bounds lt h)

count_sample-Sums :
    (F : ℕ → ℕ) (bounds counts : List ℕ) (acc val : ℕ)
    → IsSorted bounds
    → Sums F acc bounds counts
    → Sums (plus_one F val) acc bounds (count_sample bounds val counts)
unfolding count_sample
count_sample-Sums F [] [] acc val sorted h = tt
count_sample-Sums F [] (n ∷ counts) acc val sorted h = h
count_sample-Sums F (b ∷ bounds) [] acc val sorted h = h
count_sample-Sums F (b ∷ bounds) (n ∷ counts) acc val (least, sorted) (e, h) =
    elim (Bool-cases (ltb val b)) [
      | inl lt ↦ subst (Sums (plus_one F val) acc (b ∷ bounds)) (sym (if-true _ _ lt)) (
        ground arith,
        Sums-suc F bounds counts (acc + n) (acc + suc n) val
            (All-below val b bounds (ground arith) least) (omega arith) h,
      )
      | inr ge ↦
          subst (Sums (plus_one F val) acc (b ∷ bounds)) (sym (if-false _ _ ge))
            (ground arith, count_sample-Sums F bounds counts (acc + n) val sorted h)
    ]

Sums-eq :
    (F G : ℕ → ℕ) (bounds counts : List ℕ) (acc : ℕ)
    → ((b : ℕ) → F b ≡ G b)
    → Sums F acc bounds counts
    → Sums G acc bounds counts
Sums-eq F G [] [] acc same h = tt
Sums-eq F G [] (n ∷ counts) acc same h = h
Sums-eq F G (b ∷ bounds) [] acc same h = h
Sums-eq F G (b ∷ bounds) (n ∷ counts) acc same (e, h) =
    (e ∙ same b, Sums-eq F G bounds counts (acc + n) same h)

count_samples-Sums :
    (F : ℕ → ℕ) (bounds samples counts : List ℕ)
    → IsSorted bounds
    → Sums F 0 bounds counts
    → Sums (λ b. count_below b samples + F b) 0 bounds (count_samples bounds samples counts)
unfolding count_samples
count_samples-Sums F bounds [] counts sorted h =
    Sums-eq F (λ b. 0 + F b) bounds counts 0 (λ b. omega arith) h
count_samples-Sums F bounds (val ∷ samples) counts sorted h =
    Sums-eq (λ b. count_below b samples + plus_one F val b)
      (λ b. count_below b (val ∷ samples) + F b) bounds
      (count_samples bounds samples (count_sample bounds val counts)) 0 (λ b. ground arith)
      (count_samples-Sums (plus_one F val) bounds samples (count_sample bounds val counts) sorted
        (count_sample-Sums F bounds counts 0 val sorted h))

bounds-IsSorted : IsSorted bucket_bounds
bounds-IsSorted = ground arith

-- For every bucket of the histogram, the counts up to it add up to the number of samples below its bound;
-- the last bound is 2 ^ 64 - 1, so that a sample of that value is in none of the counts.
pub bucket_counts_cumulative :
    (samples : List ℕ)
    → sums_from 0 (bucket_counts samples) ≡ map (λ bound. count_below bound samples) bucket_bounds
unfolding bucket_counts
bucket_counts_cumulative samples =
    Sums-map (λ bound. count_below bound samples) bucket_bounds (bucket_counts samples) 0
      (Sums-eq (λ b. count_below b samples + 0) (λ b. count_below b samples) bucket_bounds
        (bucket_counts samples) 0 (λ b. omega arith)
        (count_samples-Sums (λ b. 0) bucket_bounds samples (0 ∷ 0 ∷ 0 ∷ 0 ∷ 0 ∷ 0 ∷ 0 ∷ 0 ∷ [])
          bounds-IsSorted (refl, (refl, (refl, (refl, (refl, (refl, (refl, (refl, tt))))))))))
