-- ===== src/Ring/Spsc/Threads/Safety.antt =====
-- What holds of the ring under every interleaving of its two threads.
use my_arbitrager.Prelude.{ℕ, ◌<◌, ◌≡◌, subst, ◌≢◌, List, ◌++◌, arith, length}
use my_arbitrager.Prelude.Bits.{IsPow2}
use my_arbitrager.Ring.Spsc.Threads.{Producer, Consumer, System, Reach}
use my_arbitrager.Ring.Spsc.Threads.Invariant.{ProducerKnows, ConsumerKnows, Inv}
use my_arbitrager.Ring.Spsc.Threads.Steps.{Reach-Inv}

module _ {A : Type 0} {size : ℕ} (p : IsPow2 size) where
  -- Under every interleaving of the two threads, the entries popped are, in order, the first of the
  -- entries pushed, none lost and none repeated, and at most `Size - 1` wait in between.
  pub fifo :
      {blank : A} {s : System A}
      → Reach size blank s
      → (queue : List A) × (s.pushed ≡ s.popped ++ queue) × (length queue < size)
  fifo r = let v = Reach-Inv p r in (v.queue, v.split, v.holds.room)

  -- The slot that the producer is about to write lies in the buffer and is never the one that the
  -- consumer is about to read, which lies in the buffer too.
  pub race_free :
      {blank : A} {s : System A}
      → Reach size blank s
      → (item : A) (current_tail next_tail current_head : ℕ)
      → s.producer ≡ Producer.claimed item current_tail next_tail
      → s.consumer ≡ Consumer.claimed current_head
      → (current_tail ≢ current_head)
        × (current_tail < length s.ring.buffer)
        × (current_head < length s.ring.buffer)
  race_free {s} r item t n h e f = ground (arith, v.holds)
    where
      v : Inv size s
      v = Reach-Inv p r

      k : ProducerKnows size s.ring.tail s.ring.buffer v.queue (Producer.claimed item t n)
      k = subst (ProducerKnows size s.ring.tail s.ring.buffer v.queue) e v.producer_knows

      c : ConsumerKnows s.ring.head v.queue (Consumer.claimed h)
      c = subst (ConsumerKnows s.ring.head v.queue) f v.consumer_knows
