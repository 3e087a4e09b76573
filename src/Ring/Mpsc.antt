-- ===== src/Ring/Mpsc.antt =====
-- `MPSCRingBuffer<T, Size>` of src/mpsc_ring_buffer.hpp, a ring for any number of producers and one
-- consumer. Each call is modelled whole here; in `Threads` the calls are interleaved.
pub mod Slots
pub mod Refine
pub mod Threads
use my_arbitrager.Prelude.{
  ℕ, zero, suc, ◌+◌, ◌-◌, Bool, true, false, List, [], ◌∷◌, Option, none, some, bit_and, get_elem?,
  store, ◌>>=◌, ◌==◌, if◌then◌else◌,
}
use my_arbitrager.Prelude.Bits.{add64, sub64}
use my_arbitrager.Prelude.Int.{ℤ, pos, negsuc, int64, below}
use my_arbitrager.Queue.{Call, put, take, Reply, stored, taken}

pub record Slot {ℓ} (A : Type ℓ) : Type ℓ where
  pub sequence : ℕ
  pub item : A  -- `data`

-- `head_`, `tail_` and `buffer_`. The two counters are not reduced to the size of the buffer.
pub record Mpsc {ℓ} (A : Type ℓ) : Type ℓ where
  pub head : ℕ
  pub tail : ℕ
  pub buffer : List (Slot A)

-- `static_cast<intptr_t>(seq) - static_cast<intptr_t>(pos)`
abbrev pub diff : ℕ → ℕ → ℤ
diff seq at = int64 (sub64 seq at)

abbrev pub is_zero : ℤ → Bool
is_zero (pos n) = n == 0
is_zero (negsuc n) = false

-- The slots that the constructor makes, the first of them number `i`.
unfoldable pub fresh_slots {ℓ} : {A : Type ℓ} → A → (i n : ℕ) → List (Slot A)
fresh_slots blank i zero = []
fresh_slots blank i (suc n) = record { sequence = i; item = blank } ∷ fresh_slots blank (i + 1) n

-- `pos & (Size - 1)`
unfoldable pub slot_index : ℕ → ℕ → ℕ
slot_index size at = bit_and at (size - 1)

module _ {ℓ} {A : Type ℓ} (size : ℕ) where
  unfoldable pub create : A → Mpsc A
  create blank = record { head = 0; tail = 0; buffer = fresh_slots blank 0 size }

  -- The claimed slot is written and published.
  unfoldable pub fill : Mpsc A → A → (at : ℕ) → Option (Bool × Mpsc A)
  fill r item at = do
    let filled : Slot A = record { sequence = add64 at 1; item = item }
    buffer ← store r.buffer (slot_index size at) filled
    some (true, record r { tail = add64 at 1; buffer = buffer })

  -- The loop of `try_push`, when no other thread moves `tail_`: the exchange then succeeds. The outer
  -- `none` is an access out of bounds or no fuel left.
  unfoldable pub push_loop : (fuel : ℕ) → Mpsc A → A → (at : ℕ) → Option (Bool × Mpsc A)
  push_loop zero r item at = none
  push_loop (suc fuel) r item at = do
    let again = push_loop fuel r item r.tail
    slot ← get_elem? r.buffer (slot_index size at)
    if is_zero (diff slot.sequence at)
        then fill r item at
        else (if below (diff slot.sequence at) 0 then some (false, r) else again)

  unfoldable pub try_push : (fuel : ℕ) → Mpsc A → A → Option (Bool × Mpsc A)
  try_push fuel r item = push_loop fuel r item r.tail

  -- The slot is read and given back. The moved-from data of the slot is left as it was: it is written
  -- before it is read again.
  unfoldable pub reclaim : Mpsc A → Slot A → Option (Option A × Mpsc A)
  reclaim r slot = do
    buffer ← store r.buffer (slot_index size r.head) (record slot { sequence = add64 r.head size })
    some (some slot.item, record r { head = add64 r.head 1; buffer = buffer })

  -- The inner `none` is the return value `false`.
  unfoldable pub try_pop : Mpsc A → Option (Option A × Mpsc A)
  try_pop r = do
    slot ← get_elem? r.buffer (slot_index size r.head)
    if below (diff slot.sequence (add64 r.head 1)) 0 then some (none, r) else reclaim r slot

unfoldable pub capacity : ℕ → ℕ
capacity size = size

unfoldable pub empty {ℓ} : {A : Type ℓ} → Mpsc A → Bool
empty r = r.head == r.tail

-- `size()` of the class.
unfoldable pub count {ℓ} : {A : Type ℓ} → Mpsc A → ℕ
count r = sub64 r.tail r.head

-- A client's calls in order, each with the fuel of one turn of the loop.
unfoldable pub run {ℓ} : {A : Type ℓ} → ℕ → Mpsc A → List (Call A) → Option (List (Reply A))
run size r [] = some []
run size r (put x ∷ calls) = do
  (ok, r') ← try_push size 1 r x
  replies ← run size r' calls
  some (stored ok ∷ replies)
run size r (take ∷ calls) = do
  (x, r') ← try_pop size r
  replies ← run size r' calls
  some (taken x ∷ replies)
