-- ===== src/Ring/Spsc.antt =====
-- `SPSCRingBuffer<T, Size>` of src/ring_buffer.hpp. Each call is modelled whole here; in `Threads` the
-- calls of the two threads are interleaved one shared access at a time.
pub mod Refine
pub mod Threads
use my_arbitrager.Prelude.{
  ℕ, ◌-◌, Bool, true, false, List, [], ◌∷◌, Option, none, some, bit_and, get_elem?, replicate,
  store, ◌>>=◌, ◌==◌, if◌then◌else◌,
}
use my_arbitrager.Prelude.Bits.{sub64}
use my_arbitrager.Ring.Window.{next_index}
use my_arbitrager.Queue.{Call, put, take, Reply, stored, taken}

-- `head_`, `tail_` and `buffer_`.
pub record Spsc {ℓ} (A : Type ℓ) : Type ℓ where
  pub head : ℕ
  pub tail : ℕ
  pub buffer : List A

unfoldable pub capacity : ℕ → ℕ
capacity size = size - 1

module _ {ℓ} {A : Type ℓ} (size : ℕ) where
  -- The constructor; `blank` is the value that `make_unique` gives each slot.
  unfoldable pub create : A → Spsc A
  create blank = record { head = 0; tail = 0; buffer = replicate size blank }

  -- The outer `none` is an access out of bounds. The flag is the value returned.
  unfoldable pub try_push : Spsc A → A → Option (Bool × Spsc A)
  try_push r item =
      let next_tail = next_index size r.tail in
      if next_tail == r.head then some (false, r) else do
        buffer ← store r.buffer r.tail item
        some (true, record r { buffer = buffer; tail = next_tail })

  -- The inner `none` is the return value `false`, with `item` untouched.
  unfoldable pub try_pop : Spsc A → Option (Option A × Spsc A)
  try_pop r = if r.head == r.tail then some (none, r) else do
    item ← get_elem? r.buffer r.head
    some (some item, record r { head = next_index size r.head })

  unfoldable pub empty : Spsc A → Bool
  empty r = r.head == r.tail

  unfoldable pub full : Spsc A → Bool
  full r = next_index size r.tail == r.head

  -- `size()` of the class.
  unfoldable pub count : Spsc A → ℕ
  count r = bit_and (sub64 r.tail r.head) (size - 1)

  -- A client's calls in order; `none` if one of them goes out of bounds.
  unfoldable pub run : Spsc A → List (Call A) → Option (List (Reply A))
  run r [] = some []
  run r (put x ∷ calls) = do
    (ok, r') ← try_push r x
    replies ← run r' calls
    some (stored ok ∷ replies)
  run r (take ∷ calls) = do (x, r') ← try_pop r; replies ← run r' calls; some (taken x ∷ replies)
