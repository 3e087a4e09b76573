-- ===== src/Latency/Timing.antt =====
-- `TSCCalibrator` of src/timing.hpp: clock cycles and nanoseconds, in `uint64_t`.
use my_arbitrager.Prelude.{ℕ, ◌+◌, ◌*◌, ◌/◌, ◌^◌, ◌≤◌, ◌<◌, ◌≡◌, ap, List, [], ◌∷◌, arith}
use my_arbitrager.Prelude.Bits.{add64, sub64, mul64}

abbrev pub giga : ℕ
giga = 1_000_000_000

-- `rdtsc()` and `rdtscp()`, from the two words of 32 bits that the instruction leaves; the code puts them
-- together by a shift and an `|`, and the low one has no bit above.
unfoldable pub rdtsc : (hi lo : ℕ) → ℕ
rdtsc hi lo = hi * 2 ^ 32 + lo

-- The frequency that `calibrate` computes from what it measured; both divisions are by numbers that the
-- hardware keeps from being 0.
unfoldable pub calibrate : (start_tsc end_tsc duration_ns : ℕ) → ℕ
calibrate start_tsc end_tsc duration_ns = mul64 (sub64 end_tsc start_tsc) giga / duration_ns

unfoldable pub cycles_to_ns : (tsc_frequency cycles : ℕ) → ℕ
cycles_to_ns tsc_frequency cycles = mul64 cycles giga / tsc_frequency

unfoldable pub ns_to_cycles : (tsc_frequency ns : ℕ) → ℕ
ns_to_cycles tsc_frequency ns = mul64 ns tsc_frequency / giga

-- `now_ns()` and `now_ns_precise()`, for a reading of the counter.
unfoldable pub now_ns : (tsc_frequency reading : ℕ) → ℕ
now_ns tsc_frequency reading = cycles_to_ns tsc_frequency reading

-- `ScopedTimer`: its destructor stores the time since its constructor, whose reading is `start`.
unfoldable pub scoped_timer : (tsc_frequency start end : ℕ) → ℕ
scoped_timer tsc_frequency start end = cycles_to_ns tsc_frequency (sub64 end start)

-- `total` after the rounds of `measure_rdtsc_overhead`, from the two readings of each.
unfoldable pub add_rounds : List (ℕ × ℕ) → ℕ → ℕ
add_rounds [] total = total
add_rounds ((start, end) ∷ rounds) total = add_rounds rounds (add64 total (sub64 end start))

unfoldable pub measure_rdtsc_overhead : (tsc_frequency : ℕ) → List (ℕ × ℕ) → ℕ
measure_rdtsc_overhead tsc_frequency readings =
    cycles_to_ns tsc_frequency (add_rounds readings 0 / 1000)

-- Below 18,446,744,074 cycles the conversion is the exact quotient, rounded down, and never goes back.
pub cycles_to_ns_exact :
    (f c c' : ℕ)
    → 0 < f
    → c ≤ c'
    → c' < 18_446_744_074
    → (cycles_to_ns f c' ≡ c' * giga / f) × (cycles_to_ns f c ≤ cycles_to_ns f c')
unfolding cycles_to_ns
cycles_to_ns_exact f c c' pos le small = (ap (λ n. n / f) (omega arith), grind arith)

-- The product wraps: the conversion has period 2 ^ 55 in the cycles, so that 2 ^ 55 cycles later it
-- gives the same time again.
pub cycles_to_ns_periodic : (f c : ℕ) → cycles_to_ns f (c + 2 ^ 55) ≡ cycles_to_ns f c
unfolding cycles_to_ns
cycles_to_ns_periodic f c = ap (λ n. n / f) (omega arith)

-- A timer over fewer than 18,446,744,074 cycles has the exact quotient, rounded down, also when the counter
-- wraps in between.
scoped_timer_exact :
    (f start cycles : ℕ)
    → start < 2 ^ 64
    → cycles < 18_446_744_074
    → scoped_timer f start (add64 start cycles) ≡ cycles * giga / f
unfolding scoped_timer cycles_to_ns
scoped_timer_exact f start cycles fits small = ap (λ n. n / f) (omega arith)
