-- ===== src/Tests/Rings.antt =====
-- The ring buffers of src/ring_buffer.hpp on a ring of two slots, which holds one entry.
use my_arbitrager.Prelude.{
  ℕ, ◌+◌, ◌<◌, ◌≡◌, ◌≢◌, refl, Bool, true, false, List, [], ◌∷◌, none, some, arith, length, store,
}
use my_arbitrager.Prelude.Bits.{IsPow2}
use my_arbitrager.Queue
use my_arbitrager.Queue.{Call, put, take, Reply, stored, taken}
use my_arbitrager.Ring.Window.{next_index}
use my_arbitrager.Ring.Spsc
use my_arbitrager.Ring.Spsc.{Spsc, capacity}
use my_arbitrager.Ring.Spsc.Refine.{Represents, run-refines}
use my_arbitrager.Ring.Spsc.Threads.{
  Producer, Consumer, System, push_claim, push_write, push_publish, pop_claim, Reach, here, next,
}
use my_arbitrager.Ring.Spsc.Threads.Safety.{fifo, race_free}
use my_arbitrager.Ring.Blocking
use my_arbitrager.Ring.Blocking.{Blocking}
use my_arbitrager.Ring.Blocking.Refine.{push-refines-displace}
use my_arbitrager.Ring.Blocking.Race.{finish_pop, overwrite_race}

two-IsPow2 : IsPow2 2
two-IsPow2 = record { exponent = 1; small = omega arith; eq = refl }

four-IsPow2 : IsPow2 4
four-IsPow2 = record { exponent = 2; small = omega arith; eq = refl }

-- One entry, 7, in a ring of two slots.
abbrev one : Spsc ℕ
one = record { head = 0; tail = 1; buffer = 7 ∷ 0 ∷ [] }

one-Represents : Represents 2 one (7 ∷ [])
one-Represents = record {
  sized = refl;
  head_in = omega arith;
  room = omega arith;
  tail_at = refl;
  held = (refl, tt);
}

abbrev calls : List (Call ℕ)
calls = put 7 ∷ put 8 ∷ take ∷ put 9 ∷ take ∷ take ∷ []

script_replies :
    Spsc.run 2 (Spsc.create 2 0) calls
    ≡ some (
        stored true
        ∷ stored false
        ∷ taken (some 7)
        ∷ stored true
        ∷ taken (some 9)
        ∷ taken none
        ∷ [])
unfolding Spsc.run Spsc.create Spsc.try_push Spsc.try_pop next_index store
script_replies = refl

run-refines_example : Spsc.run 2 (Spsc.create 2 0) calls ≡ some (Queue.run (capacity 2) [] calls)
run-refines_example = run-refines two-IsPow2 0 calls

-- The producer has pushed 7 and claimed the next slot for 8, while the consumer claims the slot of 7.
abbrev both_claimed : System ℕ
both_claimed = record {
  ring = record { head = 0; tail = 1; buffer = 7 ∷ 0 ∷ 0 ∷ 0 ∷ [] };
  producer = Producer.claimed 8 1 2;
  consumer = Consumer.claimed 0;
  pushed = 7 ∷ [];
  popped = [];
}

both_claimed-Reach : Reach 4 0 both_claimed
unfolding next_index Spsc.create store
both_claimed-Reach =
    next
      (next
        (next
          (next (next here (push_claim 7 refl (λ e. absurd (omega arith)))) (push_write refl refl))
          (push_publish refl))
        (push_claim 8 refl (λ e. absurd (omega arith))))
      (pop_claim refl (λ e. absurd (omega arith)))

fifo_example : (queue : List ℕ) × (7 ∷ [] ≡ queue) × (length queue < 4)
fifo_example = fifo four-IsPow2 both_claimed-Reach

race_free_example : (one.tail ≢ one.head) × (1 < 4) × (0 < 4)
race_free_example = race_free four-IsPow2 both_claimed-Reach 8 1 2 0 refl refl

abbrev overwriting : Bool → Blocking ℕ
overwriting mode = record { ring = one; dropped_count = 0; overwrite_on_full = mode }

push-refines-displace_example :
    (b : Blocking ℕ) × (Blocking.push 2 (overwriting true) 8 ≡ some (true, b))
    × Represents 2 b.ring (8 ∷ [])
    × (b.dropped_count ≡ 1)
    × (b.overwrite_on_full ≡ true)
unfolding Queue.displace capacity
push-refines-displace_example =
    push-refines-displace two-IsPow2 (overwriting true) (7 ∷ []) 8 (omega arith) refl one-Represents

overwrite_race_example :
    (b₁ : Blocking ℕ) × (b₂ : Blocking ℕ) × (Blocking.push 2 (overwriting true) 8 ≡ some (true, b₁))
    × (Blocking.push 2 b₁ 9 ≡ some (true, b₂))
    × (Blocking.count 2 b₂ + 1 ≡ 2)
    × (Blocking.count 2 (finish_pop 2 b₂ 0) ≡ 0)
    × (Blocking.empty 2 (finish_pop 2 b₂ 0) ≡ true)
overwrite_race_example =
    overwrite_race two-IsPow2 (overwriting true) (7 ∷ []) 8 9 (omega arith) refl one-Represents refl
