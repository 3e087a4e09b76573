-- ===== src/Ring/Mpsc/Threads/Access.antt =====
-- The accesses of a thread to the slot of a position.
use my_arbitrager.Prelude.{
  ℕ, ◌+◌, ◌%◌, ◌≤◌, ◌<◌, ◌≡◌, sym, ap, ◌∙◌, List, some, arith, length, get_elem?, length-append,
  of_some, set, store,
}
use native.Mathlib.Nat.{mod-lt}
use my_arbitrager.Prelude.Bits.{IsPow2, IsPow2-bounds, mask-mod}
use my_arbitrager.Ring.Mpsc.{Slot, slot_index}
use my_arbitrager.Ring.Mpsc.Threads.{System}
use my_arbitrager.Ring.Mpsc.Threads.Invariant.{Inv}
use my_arbitrager.Ring.Mpsc.Threads.Steps.{stored}

pub index : {size : ℕ} → IsPow2 size → (at : ℕ) → slot_index size at ≡ at % size
unfolding slot_index
index p at = mask-mod at p

pub size_pos : {size : ℕ} → IsPow2 size → 0 < size
size_pos p = (IsPow2-bounds p).0

-- Reads and writes of a slot, by its position.
module _ {A : Type 0} {size : ℕ} {s : System A} (p : IsPow2 size) (v : Inv size s) where
  pub full_turn : length s.pushed ≤ length s.popped + size
  full_turn = omega (arith, ap length v.split, length-append s.popped v.waiting, v.room)

  pub low_turn : length s.popped ≤ length s.pushed
  low_turn = omega (arith, ap length v.split, length-append s.popped v.waiting)

  pub index_in : (at : ℕ) → at % size < length s.ring.buffer
  index_in at = omega (arith, v.sized, mod-lt at (size_pos p))

  pub store_at :
      (at : ℕ) (w : Slot A) {buffer : List (Slot A)}
      → store s.ring.buffer (slot_index size at) w ≡ some buffer
      → buffer ≡ set s.ring.buffer (at % size) w
  store_at at w st =
      stored s.ring.buffer (at % size) w (ap (λ i. store s.ring.buffer i w) (sym (index p at)) ∙ st)
        (index_in at)

  pub slot_at :
      (at : ℕ) {slot slot' : Slot A}
      → get_elem? s.ring.buffer (slot_index size at) ≡ some slot
      → get_elem? s.ring.buffer (at % size) ≡ some slot'
      → slot ≡ slot'
  slot_at at found there = of_some (sym found ∙ ap (get_elem? s.ring.buffer) (index p at) ∙ there)
