-- ===== src/Histogram/Percentile.antt =====
-- `get_percentile` walks to the bucket of the value of the wanted rank.
use my_arbitrager.Prelude.{
  ℕ, suc, ◌+◌, ◌^◌, ◌≤◌, ◌<◌, ◌≡◌, refl, ap, ◌∙◌, List, [], ◌∷◌, some, arith, length, leb,
  Bool-cases, inl, inr,
}
use my_arbitrager.Prelude.Bits.{add64}
use my_arbitrager.Histogram.{
  Histogram, create, calculate_bucket_count, scan, value_at_rank, index_to_value,
}
use my_arbitrager.Histogram.Counts.{
  prefix, sum, below, put_all, Stats, create-Stats, put_all-counts, prefix-replicate,
}

-- The walk stops at the first bucket at which the counts reach the target.
scan_found :
    (cs : List ℕ) (i acc target : ℕ)
    → acc < target
    → target ≤ acc + sum cs
    → acc + sum cs < 2 ^ 64
    → (k : ℕ) × (scan cs i acc target ≡ some (i + k))
      × (acc + prefix k cs < target)
      × (target ≤ acc + prefix (suc k) cs)
      × (k < length cs)
unfolding scan sum prefix
scan_found [] i acc target lo hi small = absurd (omega arith)
scan_found (c ∷ cs) i acc target lo hi small = elim (Bool-cases (leb target (acc + c))) [
  | inl e ↦ (0, rw (wrap, e) (ap some (omega arith)), omega arith, ground arith, omega arith)
  | inr e ↦
      let (k, f, p, q, r) =
        scan_found cs (i + 1) (acc + c) target (ground arith) (omega arith) (omega arith) in
      (suc k, rw (wrap, e) (f ∙ ap some (omega arith)), omega arith, omega arith, omega arith)
]
  where
    wrap : add64 acc c ≡ acc + c
    wrap = omega arith

value_at_rank_lem :
    (h : Histogram) (target k : ℕ)
    → scan h.counts 0 0 target ≡ some k
    → value_at_rank h target ≡ index_to_value k
unfolding value_at_rank
value_at_rank_lem h target k e = rw (e, value_at_rank) refl

-- A histogram fresh from its constructor, after the values `vs`.
pub recorded : ℕ → ℕ → List ℕ → Histogram
recorded max_value figures vs = put_all (create max_value figures) vs

counts_of_recorded :
    (max_value figures i : ℕ) (vs : List ℕ)
    → length vs < 2 ^ 64
    → max_value < 2 ^ 64
    → (prefix i (recorded max_value figures vs).counts ≡ below (create max_value figures) i vs)
      × ((recorded max_value figures vs).total_count ≡ length vs)
      × Stats (recorded max_value figures vs)
unfolding recorded create
counts_of_recorded max_value figures i vs small range =
    let (p, t, s) =
      put_all-counts (create max_value figures) vs i (omega arith) range
        (create-Stats max_value figures) in
    (omega (arith, p, prefix-replicate i (calculate_bucket_count max_value)), omega (arith, t), s)

-- The value of rank `target` among the values recorded in a fresh histogram, when their number fits
-- a word: fewer than `target` of them belong to lower buckets than the one whose midpoint is
-- returned, and at least `target` to that one or lower ones.
pub value_at_rank_correct :
    (max_value figures target : ℕ) (vs : List ℕ)
    → length vs < 2 ^ 64
    → max_value < 2 ^ 64
    → 0 < target
    → target ≤ length vs
    → (k : ℕ) × (value_at_rank (recorded max_value figures vs) target ≡ index_to_value k)
      × (below (create max_value figures) k vs < target)
      × (target ≤ below (create max_value figures) (suc k) vs)
value_at_rank_correct max_value figures target vs small range lo hi =
    let h = recorded max_value figures vs in
    let (p₀, t, s) = counts_of_recorded max_value figures 0 vs small range in
    let (k, f, p, q, r) =
      scan_found h.counts 0 0 target lo (omega (arith, t, s.total)) (omega (arith, t, s.total)) in
    let low = counts_of_recorded max_value figures k vs small range in
    let high = counts_of_recorded max_value figures (suc k) vs small range in
    (
      k,
      value_at_rank_lem h target k (f ∙ ap some (omega arith)),
      omega (arith, p, low.0),
      omega (arith, q, high.0),
    )
