-- ===== src/Ring/Blocking/Race.antt =====
-- Overwriting moves `head_`, which the consumer also stores: the ring is then no queue for two threads.
use my_arbitrager.Prelude.{
  ℕ, suc, ◌+◌, ◌-◌, ◌≤◌, ◌<◌, ◌≡◌, ◌∙◌, ap, true, List, [], ◌∷◌, ◌++◌, some, arith, length,
  length-append, leb, if◌then◌else◌,
}
use my_arbitrager.Prelude.Bits.{IsPow2}
use my_arbitrager.Ring.Spsc
use my_arbitrager.Ring.Spsc.{capacity}
use my_arbitrager.Ring.Window.{step, wrap, next_index, next_index-eq-step}
use my_arbitrager.Ring.Spsc.Refine.{Represents, count_lem}
use my_arbitrager.Ring.Blocking.{Blocking, push, empty, count}
use my_arbitrager.Ring.Blocking.Refine.{overwritten, overwritten-Represents, push-full_overwrite}

-- The last step of a `try_pop` that loaded `current_head` earlier: its store of `head_`.
pub finish_pop {ℓ} : {A : Type ℓ} → ℕ → Blocking A → ℕ → Blocking A
finish_pop size b current_head = record b {
  ring = record b.ring { head = next_index size current_head };
}

abbrev distance : ℕ → ℕ → ℕ → ℕ
distance size t h = if leb h t then t - h else t + size - h

-- The arithmetic of the race: two steps round a full ring take `tail_` one step past the old head.
record IsLapped (size head tail : ℕ) : Type 0 where
  meets : step size (step size tail) ≡ step size head
  next_in : step size head < size
  second_in : step size (step size head) < size
  gap : distance size (step size head) (step size (step size head)) + 1 ≡ size

lapped :
    (size head tail n : ℕ)
    → 2 ≤ size
    → n + 1 ≡ size
    → head < size
    → tail ≡ wrap size (head + n)
    → IsLapped size head tail
lapped size head tail n two full in_range at = ground arith

module _ {ℓ} {A : Type ℓ} {size : ℕ} (p : IsPow2 size) where
  -- If a ring of two slots or more is full and overwrites, two calls of `push` that run between a
  -- consumer's load of `head_` and its store succeed, and leave `Size - 1` entries; the store then
  -- puts `head_` onto `tail_`, so that the ring counts 0 entries and calls itself empty.
  pub overwrite_race :
      (b : Blocking A) (xs : List A) (x y : A)
      → 2 ≤ size
      → b.overwrite_on_full ≡ true
      → Represents size b.ring xs
      → length xs + 1 ≡ size
      → (b₁ : Blocking A) × (b₂ : Blocking A) × (push size b x ≡ some (true, b₁))
        × (push size b₁ y ≡ some (true, b₂))
        × (count size b₂ + 1 ≡ size)
        × (count size (finish_pop size b₂ b.ring.head) ≡ 0)
        × (empty size (finish_pop size b₂ b.ring.head) ≡ true)
  unfolding count empty finish_pop Spsc.empty capacity
  overwrite_race b [] x y two mode v full = absurd (omega arith)
  overwrite_race b (z ∷ q) x y two mode v full = (
    overwritten p b x v,
    overwritten p (overwritten p b x v) y w,
    push-full_overwrite p b x v (ground arith) mode,
    push-full_overwrite p (overwritten p b x v) y w (ground (arith, length-append q (x ∷ []))) mode,
    rw lap.meets (ap (λ n. n + 1) (count_lem p _ lap.next_in lap.second_in) ∙ lap.gap),
    rw (lap.meets, around) (count_lem p _ lap.next_in lap.next_in ∙ ground arith),
    rw (lap.meets, around) (ground arith),
  )
    where
      w : Represents size (overwritten p b x v).ring (q ++ x ∷ [])
      w = overwritten-Represents p b z q x v (omega arith)

      lap : IsLapped size b.ring.head b.ring.tail
      lap = lapped size b.ring.head b.ring.tail (suc (length q)) two full v.head_in v.tail_at

      around : next_index size b.ring.head ≡ step size b.ring.head
      around = next_index-eq-step b.ring.head p v.head_in
