-- ===== src/Histogram/Counts.antt =====
-- What the buckets add up to.
use my_arbitrager.Prelude.{
  ℕ, zero, suc, ◌+◌, ◌^◌, ◌≤◌, ◌<◌, ◌≡◌, refl, sym, ap, ◌⊎◌, inl, inr, true, List, [], ◌∷◌, arith,
  length, replicate, length-replicate, ltb, if◌then◌else◌, if-true,
}
use my_arbitrager.Prelude.Bits.{add64}
use my_arbitrager.Histogram.{
  Histogram, uint64_max, calculate_bucket_count, create, value_to_index, bump, clamp, put,
}

-- The sum of the first `i` counts, and of all.
unfoldable pub prefix : ℕ → List ℕ → ℕ
prefix zero cs = 0
prefix (suc i) [] = 0
prefix (suc i) (c ∷ cs) = c + prefix i cs

unfoldable pub sum : List ℕ → ℕ
sum [] = 0
sum (c ∷ cs) = c + sum cs

pub prefix-le-sum : (i : ℕ) (cs : List ℕ) → prefix i cs ≤ sum cs
unfolding prefix sum
prefix-le-sum zero cs = omega arith
prefix-le-sum (suc i) [] = omega arith
prefix-le-sum (suc i) (c ∷ cs) = omega (arith, prefix-le-sum i cs)

pub length-bump : (cs : List ℕ) (j : ℕ) → length (bump cs j) ≡ length cs
unfolding bump
length-bump [] j = refl
length-bump (c ∷ cs) zero = refl
length-bump (c ∷ cs) (suc j) = ap suc (length-bump cs j)

sum-bump :
    (cs : List ℕ) (j : ℕ) → j < length cs → sum cs + 1 < 2 ^ 64 → sum (bump cs j) ≡ sum cs + 1
unfolding bump sum
sum-bump [] j h small = absurd (omega arith)
sum-bump (c ∷ cs) zero h small = omega arith
sum-bump (c ∷ cs) (suc j) h small = omega (arith, sum-bump cs j)

prefix-bump :
    (i j : ℕ) (cs : List ℕ)
    → j < length cs
    → sum cs + 1 < 2 ^ 64
    → prefix i (bump cs j) ≡ prefix i cs + (if ltb j i then 1 else 0)
unfolding bump sum prefix
prefix-bump i j [] h small = absurd (omega arith)
prefix-bump zero j (c ∷ cs) h small = ground arith
prefix-bump (suc i) zero (c ∷ cs) h small = ground arith
prefix-bump (suc i) (suc j) (c ∷ cs) h small = ground (arith, prefix-bump i j cs)

-- The bucket of a value, and the number of values of a list in the buckets below number `i`.
unfoldable pub bucket : Histogram → ℕ → ℕ
bucket h v = value_to_index h (clamp h v)

unfoldable pub below : Histogram → ℕ → List ℕ → ℕ
below h i [] = 0
below h i (v ∷ vs) = (if ltb (bucket h v) i then 1 else 0) + below h i vs

-- Recording the values of a list, in order.
unfoldable pub put_all : Histogram → List ℕ → Histogram
put_all h [] = h
put_all h (v ∷ vs) = put_all (put h v) vs

pub record Stats (h : Histogram) : Type 0 where
  pub buckets : 0 < length h.counts
  pub total : h.total_count ≡ sum h.counts
  pub extremes :
      ((h.total_count ≡ 0) × (h.min_value ≡ uint64_max) × (h.max_value_recorded ≡ 0))
      ⊎ ((0 < h.total_count)
          × (h.min_value ≤ h.max_value_recorded)
          × (h.max_value_recorded ≤ h.max_value))

bucket-lt : (h : Histogram) (v : ℕ) → 0 < length h.counts → bucket h v < length h.counts
unfolding bucket value_to_index
bucket-lt h v b = omega arith

-- A value always lands in a bucket.
put_lem :
    (h : Histogram) (v : ℕ)
    → 0 < length h.counts
    → put h v ≡ record h {
      counts = bump h.counts (bucket h v);
      total_count = add64 h.total_count 1;
      min_value = if ltb (clamp h v) h.min_value then clamp h v else h.min_value;
      max_value_recorded =
          if ltb h.max_value_recorded (clamp h v) then clamp h v else h.max_value_recorded;
    }
unfolding put bucket
put_lem h v b = if-true {c = ltb (value_to_index h (clamp h v)) (length h.counts)} _ _ inside
  where
    inside : ltb (value_to_index h (clamp h v)) (length h.counts) ≡ true
    inside = ground (arith, bucket-lt h v b)

bucket-put : (h : Histogram) (v x : ℕ) → 0 < length h.counts → bucket (put h v) x ≡ bucket h x
unfolding bucket value_to_index clamp
bucket-put h v x b = rw (put_lem h v b, length-bump h.counts (bucket h v)) refl

below-put :
    (h : Histogram) (v i : ℕ) (vs : List ℕ)
    → 0 < length h.counts
    → below (put h v) i vs ≡ below h i vs
unfolding below
below-put h v i [] b = refl
below-put h v i (x ∷ vs) b = rw (bucket-put h v x b, below-put h v i vs b) refl

-- Recording a value keeps the statistics consistent: the counts add up to the total, and the minimum
-- and the maximum are in order and within range.
pub put-Stats :
    (h : Histogram) (v : ℕ)
    → h.total_count + 1 < 2 ^ 64
    → h.max_value < 2 ^ 64
    → Stats h
    → Stats (put h v)
unfolding clamp
put-Stats h v small range s = rw (put_lem h v s.buckets) record {
  buckets = rw (length-bump h.counts (bucket h v)) s.buckets;
  total =
      omega
        (arith, s.total, sum-bump h.counts (bucket h v) (bucket-lt h v s.buckets) (omega arith));
  extremes = inr (omega arith, ordered, bounded);
}
  where
    clamp-le : clamp h v ≤ h.max_value
    clamp-le = ground arith

    ordered :
        (if ltb (clamp h v) h.min_value then clamp h v else h.min_value)
        ≤ (if ltb h.max_value_recorded (clamp h v) then clamp h v else h.max_value_recorded)
    ordered = ground (arith, clamp-le, s.extremes)

    bounded :
        (if ltb h.max_value_recorded (clamp h v) then clamp h v else h.max_value_recorded)
        ≤ h.max_value
    bounded = ground (arith, clamp-le, s.extremes)

sum-replicate : (n : ℕ) → sum (replicate n 0) ≡ 0
unfolding sum
sum-replicate zero = refl
sum-replicate (suc n) = omega (arith, sum-replicate n)

pub create-Stats : (max_value figures : ℕ) → Stats (create max_value figures)
unfolding create calculate_bucket_count sum
create-Stats max_value figures = record {
  buckets = rw (length-replicate {A = ℕ} (calculate_bucket_count max_value) 0) (ground arith);
  total = sym (sum-replicate (calculate_bucket_count max_value));
  extremes = inl (refl, refl, refl);
}

pub prefix-replicate : (i n : ℕ) → prefix i (replicate n 0) ≡ 0
unfolding prefix
prefix-replicate zero n = refl
prefix-replicate (suc i) zero = refl
prefix-replicate (suc i) (suc n) = omega (arith, prefix-replicate i n)

-- One value more.
put-effect :
    (h : Histogram) (v i : ℕ)
    → h.total_count + 1 < 2 ^ 64
    → Stats h
    → (prefix i (put h v).counts ≡ prefix i h.counts + (if ltb (bucket h v) i then 1 else 0))
      × ((put h v).total_count ≡ h.total_count + 1)
      × ((put h v).max_value ≡ h.max_value)
put-effect h v i small s = rw (put_lem h v s.buckets) (
  prefix-bump i (bucket h v) h.counts (bucket-lt h v s.buckets) (omega (arith, s.total)),
  omega arith,
  refl,
)

-- After any list of values has been recorded, without overflow of the total, the first `i` buckets have
-- gained the number of values that belong below bucket `i`, the total has gained the number of values,
-- and the statistics are still consistent.
pub put_all-counts :
    (h : Histogram) (vs : List ℕ) (i : ℕ)
    → h.total_count + length vs < 2 ^ 64
    → h.max_value < 2 ^ 64
    → Stats h
    → (prefix i (put_all h vs).counts ≡ prefix i h.counts + below h i vs)
      × ((put_all h vs).total_count ≡ h.total_count + length vs)
      × Stats (put_all h vs)
unfolding put_all below
put_all-counts h [] i small range s = (omega arith, omega arith, s)
put_all-counts h (v ∷ vs) i small range s =
    let (p, t, m) = put-effect h v i (omega arith) s in
    let (q, u, w) =
      put_all-counts (put h v) vs i (omega (arith, t)) (omega (arith, m))
        (put-Stats h v (omega arith) range s) in
    (omega (arith, p, q, below-put h v i vs s.buckets), omega (arith, t, u), w)

-- All the buckets together.
pub prefix_all : (cs : List ℕ) → prefix (length cs) cs ≡ sum cs
unfolding prefix sum
prefix_all [] = refl
prefix_all (c ∷ cs) = ap (λ n. c + n) (prefix_all cs)
