-- ===== src/Ring/Spsc/Threads.antt =====
-- `SPSCRingBuffer` under its two threads: each step makes one access to what they share.
-- Every atomic has one writer, so a thread's loads of its own index and of the other's are one step.
pub mod Invariant
pub mod Steps
pub mod Safety
use my_arbitrager.Prelude.{
  ℕ, ◌+◌, ◌<◌, ◌≡◌, ◌≢◌, List, [], ◌∷◌, ◌++◌, some, length, get_elem?, store,
}
use my_arbitrager.Ring.Window.{next_index}
use my_arbitrager.Ring.Spsc.{Spsc, create}

-- Where the producer stands in `try_push`, with its live variables.
pub data Producer (A : Type 0) : Type 0 where
  idle : Producer A
  claimed : (item : A) (current_tail next_tail : ℕ) → Producer A  -- before the write of the slot
  written : (item : A) (next_tail : ℕ) → Producer A  -- before the store of `tail_`

-- Where the consumer stands in `try_pop`.
pub data Consumer (A : Type 0) : Type 0 where
  idle : Consumer A
  claimed : (current_head : ℕ) → Consumer A  -- before the read of the slot
  reading : (current_head : ℕ) (item : A) → Consumer A  -- before the store of `head_`

-- `pushed` and `popped` record the entries of the calls that returned `true`, in order.
pub record System (A : Type 0) : Type 0 where
  pub ring : Spsc A
  pub producer : Producer A
  pub consumer : Consumer A
  pub pushed : List A
  pub popped : List A

pub data Step {A : Type 0} (size : ℕ) (s : System A) : System A → Type 0 where
  push_full : s.producer ≡ Producer.idle → next_index size s.ring.tail ≡ s.ring.head → Step size s s
  push_claim :
      (item : A)
      → s.producer ≡ Producer.idle
      → next_index size s.ring.tail ≢ s.ring.head
      → Step size s
          (record s { producer = Producer.claimed item s.ring.tail (next_index size s.ring.tail) })
  push_write :
      {item : A} {current_tail next_tail : ℕ} {buffer : List A}
      → s.producer ≡ Producer.claimed item current_tail next_tail
      → store s.ring.buffer current_tail item ≡ some buffer
      → Step size s (record s {
        ring = record s.ring { buffer = buffer };
        producer = Producer.written item next_tail;
      })
  push_publish :
      {item : A} {next_tail : ℕ}
      → s.producer ≡ Producer.written item next_tail
      → Step size s (record s {
        ring = record s.ring { tail = next_tail };
        producer = Producer.idle;
        pushed = s.pushed ++ item ∷ [];
      })
  pop_empty : s.consumer ≡ Consumer.idle → s.ring.head ≡ s.ring.tail → Step size s s
  pop_claim :
      s.consumer ≡ Consumer.idle
      → s.ring.head ≢ s.ring.tail
      → Step size s (record s { consumer = Consumer.claimed s.ring.head })
  pop_read :
      {item : A} {current_head : ℕ}
      → s.consumer ≡ Consumer.claimed current_head
      → get_elem? s.ring.buffer current_head ≡ some item
      → Step size s (record s { consumer = Consumer.reading current_head item })
  pop_release :
      {item : A} {current_head : ℕ}
      → s.consumer ≡ Consumer.reading current_head item
      → Step size s (record s {
        ring = record s.ring { head = next_index size current_head };
        consumer = Consumer.idle;
        popped = s.popped ++ item ∷ [];
      })

-- A fresh ring, with both threads outside their calls.
abbrev pub start : {A : Type 0} → ℕ → A → System A
start size blank = record {
  ring = create size blank;
  producer = Producer.idle;
  consumer = Consumer.idle;
  pushed = [];
  popped = [];
}

pub data Reach {A : Type 0} (size : ℕ) (blank : A) : System A → Type 0 where
  here : Reach size blank (start size blank)
  next : {s t : System A} → Reach size blank s → Step size s t → Reach size blank t
