-- ===== src/Histogram/Accuracy.antt =====
-- How far a reported value may be from a recorded one.
use my_arbitrager.Prelude.{
  ℕ, suc, ◌+◌, ◌-◌, ◌*◌, ◌/◌, ◌^◌, ◌≤◌, ◌<◌, ◌≡◌, refl, ap, ◌∙◌, List, [], ◌∷◌, arith, All, length,
  length-replicate, ltb, if◌then◌else◌, min,
}
use my_arbitrager.Histogram.{
  create, calculate_bucket_count, value_to_index, index_to_value, clamp, value_at_rank,
}
use my_arbitrager.Histogram.Counts.{bucket, below}
use my_arbitrager.Histogram.Percentile.{recorded, value_at_rank_correct}

bucket-create :
    (max_value figures v : ℕ)
    → bucket (create max_value figures) v
      ≡ min ((if ltb max_value v then max_value else v) / 10) (calculate_bucket_count max_value - 1)
unfolding bucket create value_to_index clamp
bucket-create max_value figures v =
    rw (length-replicate {A = ℕ} (calculate_bucket_count max_value) 0) refl

-- Below both limits the midpoint of a value's bucket is within 5 of the value.
pub midpoint_close :
    (max_value figures v : ℕ)
    → v ≤ max_value
    → v < calculate_bucket_count max_value * 10
    → let m = index_to_value (bucket (create max_value figures) v) in (m ≤ v + 5) × (v ≤ m + 4)
unfolding index_to_value calculate_bucket_count
midpoint_close max_value figures v h k = rw (bucket-create max_value figures v) (ground arith)

bucket_high :
    (max_value figures v : ℕ)
    → 1_000_000 ≤ max_value
    → 1_000_000 ≤ v
    → bucket (create max_value figures) v ≡ 99_999
unfolding calculate_bucket_count
bucket_high max_value figures v h k = rw (bucket-create max_value figures v) (ground arith)

below_high :
    (max_value figures j : ℕ) (vs : List ℕ)
    → 1_000_000 ≤ max_value
    → All (λ v. 1_000_000 ≤ v) vs
    → below (create max_value figures) j vs ≡ (if ltb 99_999 j then length vs else 0)
unfolding below
below_high max_value figures j [] h a = ground arith
below_high max_value figures j (v ∷ vs) h (k, a) =
    ground (arith, bucket_high max_value figures v h k, below_high max_value figures j vs h a)

-- A histogram for values of a million and more has buckets only up to a million: of values that all
-- lie above, every rank is reported as 999,995.
pub value_at_rank_saturates :
    (max_value figures target : ℕ) (vs : List ℕ)
    → 1_000_000 ≤ max_value
    → max_value < 2 ^ 64
    → length vs < 2 ^ 64
    → All (λ v. 1_000_000 ≤ v) vs
    → 0 < target
    → target ≤ length vs
    → value_at_rank (recorded max_value figures vs) target ≡ 999_995
unfolding index_to_value
value_at_rank_saturates max_value figures target vs wide range small high lo hi =
    let (k, e, p, q) = value_at_rank_correct max_value figures target vs small range lo hi in
    let last : k ≡ 99_999 = ground (
      arith,
      p,
      q,
      below_high max_value figures k vs wide high,
      below_high max_value figures (suc k) vs wide high,
    ) in
    e ∙ ap index_to_value last
