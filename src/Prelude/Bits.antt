-- ===== src/Prelude/Bits.antt =====
-- `size_t` and `uint64_t` arithmetic, and `&` with a mask of low bits at every width.
use Prim.Native.Nat.{
  ℕ, zero, suc, ◌+◌, ◌-◌, ◌*◌, ◌/◌, ◌%◌, ◌^◌, ◌≤◌, ◌<◌, min, bit_and, digits, bit_and-bitwise,
}
use mathlib.Core.Path.{◌≡◌, refl, ap, ◌∙◌}
use native.Mathlib.Omega.{arith}
use my_arbitrager.Prelude.Tests.{◌==◌, leb, if◌then◌else◌}
use native.Mathlib.Decide.{dec_le}
use native.Mathlib.Nat.{
  pow-suc, one-le-pow, mul-add-mod_self_left, mod-eq_of_lt, mod-lt, mod_self, div-add-mod, add-zero,
  add-suc,
}

abbrev pub word : ℕ
word = 2 ^ 64

-- Addition, subtraction and multiplication of 64-bit unsigned numbers.
abbrev pub add64 : ℕ → ℕ → ℕ
add64 a b = (a + b) % 2 ^ 64

abbrev pub sub64 : ℕ → ℕ → ℕ
sub64 a b = (a + 2 ^ 64 - b) % 2 ^ 64

abbrev pub mul64 : ℕ → ℕ → ℕ
mul64 a b = (a * b) % 2 ^ 64

digitwise : ℕ → ℕ → ℕ → ℕ
digitwise fuel a b = digits (λ _. zero) min fuel a b

-- Extra fuel changes nothing.
digitwise_enough : (n m a b : ℕ) → a ≤ n → a ≤ m → digitwise n a b ≡ digitwise m a b
unfolding digitwise
digitwise_enough zero zero a b h k = refl
digitwise_enough zero (suc m) zero b h k = refl
digitwise_enough zero (suc m) (suc a) b h k = absurd (omega arith)
digitwise_enough (suc n) zero zero b h k = refl
digitwise_enough (suc n) zero (suc a) b h k = absurd (omega arith)
digitwise_enough (suc n) (suc m) zero b h k = refl
digitwise_enough (suc n) (suc m) (suc a) b h k =
    omega (arith, digitwise_enough n m (suc a / 2) (b / 2) (omega arith) (omega arith))

-- The lowest bit of a conjunction, and the rest.
bit_and-halves : (a b : ℕ) → bit_and a b ≡ bit_and (a / 2) (b / 2) * 2 + min (a % 2) (b % 2)
unfolding digitwise
bit_and-halves zero b = omega (arith, bit_and-bitwise 0 b, bit_and-bitwise 0 (b / 2))
bit_and-halves (suc a) b = omega (
  arith,
  bit_and-bitwise (suc a) b,
  bit_and-bitwise (suc a / 2) (b / 2),
  digitwise_enough a (suc a / 2) (suc a / 2) (b / 2) (omega arith) (omega arith),
)

mod-halves : (a m : ℕ) → 0 < m → a % (m * 2) ≡ a / 2 % m * 2 + a % 2
mod-halves a m h =
    ap (λ t. t % (m * 2)) split
    ∙ mul-add-mod_self_left (m * 2) (a / 2 / m) (a / 2 % m * 2 + a % 2)
    ∙ mod-eq_of_lt (omega (arith, mod-lt (a / 2) h))
  where
    split : a ≡ m * 2 * (a / 2 / m) + (a / 2 % m * 2 + a % 2)
    split = grind (arith, div-add-mod (a / 2) m)

pow_pos : (k : ℕ) → 0 < 2 ^ k
pow_pos k = one-le-pow k 2 (omega arith)

pub pow-add : (k j : ℕ) → 2 ^ (k + j) ≡ 2 ^ k * 2 ^ j
pow-add k zero = rw add-zero (omega arith)
pow-add k (suc j) = rw (add-suc, pow-suc, pow-suc, pow-add k j) (omega arith)

bit_and-zero : (n a : ℕ) → a ≤ n → bit_and a 0 ≡ 0
bit_and-zero n zero h = refl
bit_and-zero zero (suc a) h = absurd (omega arith)
bit_and-zero (suc n) (suc a) h =
    omega (arith, bit_and-halves (suc a) 0, bit_and-zero n (suc a / 2) (omega arith))

-- `a & (2 ^ k - 1)` is the remainder by `2 ^ k`.
pub bit_and-mod : (k a : ℕ) → bit_and a (2 ^ k - 1) ≡ a % 2 ^ k
bit_and-mod zero a = omega (arith, bit_and-zero a a)
bit_and-mod (suc k) a =
    bit_and-halves a (2 ^ suc k - 1)
    ∙ ap (λ t. bit_and (a / 2) t * 2 + min (a % 2) ((2 ^ suc k - 1) % 2)) half
    ∙ rw (bit_and-mod k (a / 2), odd)
        (omega (arith, mod-halves a (2 ^ k) (pow_pos k), pow-suc 2 k, cast))
  where
    half : (2 ^ suc k - 1) / 2 ≡ 2 ^ k - 1
    half = omega (arith, pow-suc 2 k, pow_pos k)

    odd : (2 ^ suc k - 1) % 2 ≡ 1
    odd = omega (arith, pow-suc 2 k, pow_pos k)

    cast : a % 2 ^ suc k ≡ a % (2 ^ k * 2)
    cast = rw pow-suc

-- A template parameter that its `static_assert` lets pass, as `size_t` holds it.
pub record IsPow2 (size : ℕ) : Type 0 where
  pub exponent : ℕ
  pub small : exponent < 64
  pub eq : size ≡ 2 ^ exponent

-- The word is a multiple of the size.
word_split : {size : ℕ} (p : IsPow2 size) → 2 ^ 64 ≡ size * 2 ^ (64 - p.exponent)
word_split {size} p = ap (◌^◌ 2) fits ∙ pow-add p.exponent (64 - p.exponent) ∙ rw p.eq
  where
    fits : 64 ≡ p.exponent + (64 - p.exponent)
    fits = omega (arith, p.small)

pub IsPow2-bounds : {size : ℕ} → IsPow2 size → (0 < size) × (size ≤ 2 ^ 63)
IsPow2-bounds {size} p =
    (rw p.eq (pow_pos p.exponent), grind (arith, even, pow_pos (63 - p.exponent)))
  where
    even : 2 ^ 64 ≡ size * (2 ^ (63 - p.exponent) * 2)
    even = word_split p ∙ ap (λ k. size * k) (ap (◌^◌ 2) later ∙ pow-suc 2 (63 - p.exponent))
      where
        later : 64 - p.exponent ≡ suc (63 - p.exponent)
        later = omega (arith, p.small)

pub mask-mod : {size : ℕ} (a : ℕ) → IsPow2 size → bit_and a (size - 1) ≡ a % size
mask-mod a p = rw p.eq (bit_and-mod p.exponent a)

-- `(i + 1) & (size - 1)`: one step round the buffer.
pub mask-add-one :
    {size : ℕ} (i : ℕ)
    → IsPow2 size
    → i < size
    → bit_and (add64 i 1) (size - 1) ≡ (if i + 1 == size then 0 else i + 1)
mask-add-one {size} i p h =
    mask-mod (add64 i 1) p
    ∙ ground (arith, IsPow2-bounds p, mod-eq_of_lt {n = i + 1} {m = size}, mod_self size)

sub64_above : (t h : ℕ) → h ≤ t → t < 2 ^ 64 → sub64 t h ≡ t - h
sub64_above t h le small = omega arith

sub64_below : (t h : ℕ) → t < h → h < 2 ^ 64 → sub64 t h ≡ t + 2 ^ 64 - h
sub64_below t h lt small = omega arith

around :
    (size c t h w : ℕ)
    → w ≡ size * c
    → 0 < c
    → t < h
    → h < size
    → t + w - h ≡ size * (c - 1) + (t + size - h)
around size zero t h w e pos lt lt' = absurd (omega arith)
around size (suc c) t h w e pos lt lt' = rw (e, suc-sub-one) (omega arith)
  where
    suc-sub-one : suc c - 1 ≡ c
    suc-sub-one = omega arith

-- `(t - h) & (size - 1)`: the distance round the buffer, also where the subtraction wraps.
pub mask-sub :
    {size : ℕ} (t h : ℕ)
    → IsPow2 size
    → t < size
    → h < size
    → bit_and (sub64 t h) (size - 1) ≡ (if leb h t then t - h else t + size - h)
mask-sub {size} t h p ht hh = mask-mod (sub64 t h) p ∙ elim (dec_le h t) [
  | yes le ↦
      rw (sub64_above t h le (omega (arith, IsPow2-bounds p)))
        (ground (arith, mod-eq_of_lt {n = t - h} {m = size}))
  | no gt ↦
      ap (λ x. x % size) (wrapped (omega arith))
      ∙ mul-add-mod_self_left size (2 ^ (64 - p.exponent) - 1) (t + size - h)
      ∙ ground (arith, mod-eq_of_lt {n = t + size - h} {m = size})
]
  where
    wrapped : t < h → sub64 t h ≡ size * (2 ^ (64 - p.exponent) - 1) + (t + size - h)
    wrapped lt =
        sub64_below t h lt (omega (arith, IsPow2-bounds p))
        ∙ around size (2 ^ (64 - p.exponent)) t h (2 ^ 64) (word_split p) (pow_pos _) lt hh
