-- ===== src/Ring/Blocking.antt =====
-- `BlockingSPSCRingBuffer<T, Size>` of src/ring_buffer.hpp. Its `head_`, `tail_` and `buffer_` are
-- those of `Spsc`, and `try_pop`, `empty` and `size` repeat the code of that class.
pub mod Refine
pub mod Race
use my_arbitrager.Prelude.{ℕ, Bool, true, false, Option, some, store, ◌>>=◌, ◌==◌, if◌then◌else◌}
use my_arbitrager.Prelude.Bits.{add64}
use my_arbitrager.Ring.Window.{next_index}
use my_arbitrager.Ring.Spsc
use my_arbitrager.Ring.Spsc.{Spsc}

pub record Blocking {ℓ} (A : Type ℓ) : Type ℓ where
  pub ring : Spsc A
  pub dropped_count : ℕ
  pub overwrite_on_full : Bool

module _ {ℓ} {A : Type ℓ} where
  unfoldable pub create : ℕ → A → Blocking A
  create size blank = record {
    ring = Spsc.create size blank;
    dropped_count = 0;
    overwrite_on_full = false;
  }

  unfoldable pub set_overwrite_on_full : Blocking A → Bool → Blocking A
  set_overwrite_on_full b enable = record b { overwrite_on_full = enable }

  unfoldable pub get_dropped_count : Blocking A → ℕ
  get_dropped_count b = b.dropped_count

  unfoldable pub reset_dropped_count : Blocking A → Blocking A
  reset_dropped_count b = record b { dropped_count = 0 }

module _ {ℓ} {A : Type ℓ} (size : ℕ) where
  -- The branch of `push` on a full ring in overwrite mode: the new entry takes the free slot, and
  -- `head_` moves past the oldest entry.
  unfoldable pub overwrite : Blocking A → A → Option (Bool × Blocking A)
  overwrite b item = do
    let r = b.ring
    buffer ← store r.buffer r.tail item
    let r' = record r {
      buffer = buffer;
      tail = next_index size r.tail;
      head = next_index size r.head;
    }
    some (true, record b { ring = r'; dropped_count = add64 b.dropped_count 1 })

  -- The branch of `push` on a ring with room.
  unfoldable pub append : Blocking A → A → Option (Bool × Blocking A)
  append b item = do
    let r = b.ring
    buffer ← store r.buffer r.tail item
    some (true, record b { ring = record r { buffer = buffer; tail = next_index size r.tail } })

  -- The outer `none` is an access out of bounds. The flag is the value returned.
  unfoldable pub push : Blocking A → A → Option (Bool × Blocking A)
  push b item =
      if next_index size b.ring.tail == b.ring.head
      then (if b.overwrite_on_full then overwrite b item else some (false, b))
      else append b item

  unfoldable pub try_pop : Blocking A → Option (Option A × Blocking A)
  try_pop b = do (item, r) ← Spsc.try_pop size b.ring; some (item, record b { ring = r })

  unfoldable pub empty : Blocking A → Bool
  empty b = Spsc.empty size b.ring

  -- `size()` of the class.
  unfoldable pub count : Blocking A → ℕ
  count b = Spsc.count size b.ring
