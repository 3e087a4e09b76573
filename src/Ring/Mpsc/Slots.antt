-- ===== src/Ring/Mpsc/Slots.antt =====
-- Positions and slots: two positions less than a turn apart never share a slot, and the signed
-- difference of two counters compares them.
use my_arbitrager.Prelude.{
  ℕ, zero, suc, ◌+◌, ◌*◌, ◌/◌, ◌%◌, ◌^◌, ◌≤◌, ◌<◌, ◌≡◌, ◌≢◌, refl, ap, ◌∙◌, true, false, some,
  arith, get_elem?, length,
}
use native.Mathlib.Decide.{dec_le}
use native.Mathlib.Nat.{div-add-mod, mul-le-mul_left}
use my_arbitrager.Prelude.Int.{below}
use my_arbitrager.Ring.Mpsc.{diff, is_zero, fresh_slots}

pub slots_apart : (size a b low : ℕ) → low ≤ a → a < b → b < low + size → a % size ≢ b % size
slots_apart size a b low la ab bl e = elim (dec_le (b / size) (a / size)) [
  | yes back ↦ absurd (omega (arith, parts_a, parts_b, mul-le-mul_left size back))
  | no on ↦ absurd (omega (arith, parts_a, parts_b, turn on))
]
  where
    parts_a : size * (a / size) + a % size ≡ a
    parts_a = div-add-mod a size

    parts_b : size * (b / size) + b % size ≡ b
    parts_b = div-add-mod b size

    turn : ¬ (b / size ≤ a / size) → size * (a / size) + size ≤ size * (b / size)
    turn on = grind (arith, mul-le-mul_left {m = a / size + 1} {n = b / size} size (omega arith))

pub diff_zero : (s p : ℕ) → s < 2 ^ 63 → p < 2 ^ 63 → is_zero (diff s p) ≡ true → s ≡ p
diff_zero s p hs hp e = ground arith

pub diff_above : (s p : ℕ) → s < 2 ^ 63 → p < 2 ^ 63 → below (diff s p) 0 ≡ false → p ≤ s
diff_above s p hs hp e = ground arith

-- The signs of the difference, from the counters.
pub diff_equal : (s p : ℕ) → s < 2 ^ 63 → s ≡ p → is_zero (diff s p) ≡ true
diff_equal s p hs e = ground arith

pub diff_behind :
    (s p : ℕ) → p < 2 ^ 63 → s < p → (is_zero (diff s p) ≡ false) × (below (diff s p) 0 ≡ true)
diff_behind s p hp h = (ground arith, ground arith)

pub diff_reached : (s p : ℕ) → s < 2 ^ 63 → p ≤ s → below (diff s p) 0 ≡ false
diff_reached s p hs h = ground arith

pub get_elem?-fresh_slots :
    {A : Type 0} (blank : A) (i n k : ℕ)
    → k < n
    → get_elem? (fresh_slots blank i n) k ≡ some (record { sequence = i + k; item = blank })
unfolding fresh_slots
get_elem?-fresh_slots blank i zero k h = elim h [ ]
get_elem?-fresh_slots blank i (suc n) zero h =
    ap (λ z. some (record { sequence = z; item = blank })) (omega arith)
get_elem?-fresh_slots blank i (suc n) (suc k) h =
    get_elem?-fresh_slots blank (i + 1) n k (omega arith)
    ∙ ap (λ z. some (record { sequence = z; item = blank })) (omega arith)

pub length-fresh_slots : {A : Type 0} (blank : A) (i n : ℕ) → length (fresh_slots blank i n) ≡ n
unfolding fresh_slots
length-fresh_slots blank i zero = refl
length-fresh_slots blank i (suc n) = ap suc (length-fresh_slots blank (i + 1) n)
