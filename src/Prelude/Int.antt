-- ===== src/Prelude/Int.antt =====
-- Signed 64-bit numbers: what a bit pattern of `uint64_t` reads as in `int64_t`.
use Prim.Native.Nat.{ℕ, suc, ◌+◌, ◌-◌, ◌^◌}
use mathlib.Core.Bool.{Bool, true}
use my_arbitrager.Prelude.Tests.{ltb, leb, if◌then◌else◌}

-- `negsuc n` is -(n + 1).
pub data ℤ : Type 0 where
  pos : ℕ → ℤ
  negsuc : ℕ → ℤ

abbrev pub int64 : ℕ → ℤ
int64 w = if ltb w (2 ^ 63) then pos w else negsuc (2 ^ 64 - w - 1)

-- `z < n` for a literal `n` that is not negative.
abbrev pub below : ℤ → ℕ → Bool
below (pos k) n = ltb k n
below (negsuc k) n = true

-- `std::abs(a - b)`
abbrev pub abs_diff : ℤ → ℤ → ℕ
abs_diff (pos a) (pos b) = if leb b a then a - b else b - a
abs_diff (pos a) (negsuc b) = a + suc b
abs_diff (negsuc a) (pos b) = b + suc a
abs_diff (negsuc a) (negsuc b) = if leb b a then a - b else b - a
