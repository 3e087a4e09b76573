-- ===== src/Ring/Mpsc/Threads.antt =====
-- `MPSCRingBuffer` under any number of producers and its consumer: each step makes one access to what
-- they share. An exchange that fails gives the producer the `tail_` of that moment; it may also fail with
-- no reason, as a weak one does.
pub mod Invariant
pub mod Steps
pub mod Access
pub mod Pushes
pub mod Pops
pub mod Safety
use my_arbitrager.Prelude.{
  ℕ, ◌+◌, ◌≡◌, Bool, true, false, List, [], ◌∷◌, ◌++◌, some, get_elem?, store, ◌==◌, if◌then◌else◌,
}
use my_arbitrager.Prelude.Bits.{add64}
use my_arbitrager.Prelude.Int.{below}
use my_arbitrager.Ring.Mpsc.{Slot, Mpsc, create, diff, is_zero, slot_index}

-- Where a producer stands in `try_push`, with its live variables.
pub data Producer (A : Type 0) : Type 0 where
  idle : Producer A
  looping : (item : A) (at : ℕ) → Producer A  -- before the load of the slot's sequence
  reloading : (item : A) → Producer A  -- before the load of `tail_` for another turn
  checked : (item : A) (at : ℕ) → Producer A  -- before the exchange of `tail_`
  claimed : (item : A) (at : ℕ) → Producer A  -- before the write of the slot
  written : (item : A) (at : ℕ) → Producer A  -- before the store of the slot's sequence

-- Where the consumer stands in `try_pop`.
pub data Consumer (A : Type 0) : Type 0 where
  idle : Consumer A
  ready : (at : ℕ) → Consumer A  -- before the read of the slot
  taken : (item : A) (at : ℕ) → Consumer A  -- before the store of the slot's sequence
  reclaimed : (at : ℕ) → Consumer A  -- before the store of `head_`

-- `pushed` records the items in the order of the exchanges that claimed a slot for them, and `popped`
-- the items whose slots have been given back. The producers are numbered.
pub record System (A : Type 0) : Type 0 where
  pub ring : Mpsc A
  pub producers : ℕ → Producer A
  pub consumer : Consumer A
  pub pushed : List A
  pub popped : List A

-- Producer `k` moves on.
abbrev pub move : {A : Type 0} → (ℕ → Producer A) → ℕ → Producer A → ℕ → Producer A
move ps k q j = if k == j then q else ps j

pub data Step {A : Type 0} (size : ℕ) (s : System A) : System A → Type 0 where
  push_call :
      (k : ℕ) (item : A)
      → s.producers k ≡ Producer.idle
      → Step size s
          (record s { producers = move s.producers k (Producer.looping item s.ring.tail) })
  push_full :
      (k : ℕ) {item : A} {at : ℕ} {slot : Slot A}
      → s.producers k ≡ Producer.looping item at
      → get_elem? s.ring.buffer (slot_index size at) ≡ some slot
      → is_zero (diff slot.sequence at) ≡ false
      → below (diff slot.sequence at) 0 ≡ true
      → Step size s (record s { producers = move s.producers k Producer.idle })
  push_late :
      (k : ℕ) {item : A} {at : ℕ} {slot : Slot A}
      → s.producers k ≡ Producer.looping item at
      → get_elem? s.ring.buffer (slot_index size at) ≡ some slot
      → is_zero (diff slot.sequence at) ≡ false
      → below (diff slot.sequence at) 0 ≡ false
      → Step size s (record s { producers = move s.producers k (Producer.reloading item) })
  push_reload :
      (k : ℕ) {item : A}
      → s.producers k ≡ Producer.reloading item
      → Step size s
          (record s { producers = move s.producers k (Producer.looping item s.ring.tail) })
  push_check :
      (k : ℕ) {item : A} {at : ℕ} {slot : Slot A}
      → s.producers k ≡ Producer.looping item at
      → get_elem? s.ring.buffer (slot_index size at) ≡ some slot
      → is_zero (diff slot.sequence at) ≡ true
      → Step size s (record s { producers = move s.producers k (Producer.checked item at) })
  push_fail :
      (k : ℕ) {item : A} {at : ℕ}
      → s.producers k ≡ Producer.checked item at
      → Step size s
          (record s { producers = move s.producers k (Producer.looping item s.ring.tail) })
  push_claim :
      (k : ℕ) {item : A} {at : ℕ}
      → s.producers k ≡ Producer.checked item at
      → s.ring.tail ≡ at
      → Step size s (record s {
        ring = record s.ring { tail = add64 at 1 };
        producers = move s.producers k (Producer.claimed item at);
        pushed = s.pushed ++ item ∷ [];
      })
  push_write :
      (k : ℕ) {item : A} {at : ℕ} {slot : Slot A} {buffer : List (Slot A)}
      → s.producers k ≡ Producer.claimed item at
      → get_elem? s.ring.buffer (slot_index size at) ≡ some slot
      → store s.ring.buffer (slot_index size at) (record slot { item = item }) ≡ some buffer
      → Step size s (record s {
        ring = record s.ring { buffer = buffer };
        producers = move s.producers k (Producer.written item at);
      })
  push_publish :
      (k : ℕ) {item : A} {at : ℕ} {slot : Slot A} {buffer : List (Slot A)}
      → s.producers k ≡ Producer.written item at
      → get_elem? s.ring.buffer (slot_index size at) ≡ some slot
      → store s.ring.buffer (slot_index size at) (record slot { sequence = add64 at 1 })
        ≡ some buffer
      → Step size s (record s {
        ring = record s.ring { buffer = buffer };
        producers = move s.producers k Producer.idle;
      })
  pop_empty :
      {slot : Slot A}
      → s.consumer ≡ Consumer.idle
      → get_elem? s.ring.buffer (slot_index size s.ring.head) ≡ some slot
      → below (diff slot.sequence (add64 s.ring.head 1)) 0 ≡ true
      → Step size s s
  pop_check :
      {slot : Slot A}
      → s.consumer ≡ Consumer.idle
      → get_elem? s.ring.buffer (slot_index size s.ring.head) ≡ some slot
      → below (diff slot.sequence (add64 s.ring.head 1)) 0 ≡ false
      → Step size s (record s { consumer = Consumer.ready s.ring.head })
  pop_read :
      {at : ℕ} {slot : Slot A}
      → s.consumer ≡ Consumer.ready at
      → get_elem? s.ring.buffer (slot_index size at) ≡ some slot
      → Step size s (record s { consumer = Consumer.taken slot.item at })
  pop_reclaim :
      {item : A} {at : ℕ} {slot : Slot A} {buffer : List (Slot A)}
      → s.consumer ≡ Consumer.taken item at
      → get_elem? s.ring.buffer (slot_index size at) ≡ some slot
      → store s.ring.buffer (slot_index size at) (record slot { sequence = add64 at size })
        ≡ some buffer
      → Step size s (record s {
        ring = record s.ring { buffer = buffer };
        consumer = Consumer.reclaimed at;
        popped = s.popped ++ item ∷ [];
      })
  pop_advance :
      {at : ℕ}
      → s.consumer ≡ Consumer.reclaimed at
      → Step size s
          (record s { ring = record s.ring { head = add64 at 1 }; consumer = Consumer.idle })

-- A fresh ring, with every thread outside its calls.
abbrev pub start : {A : Type 0} → ℕ → A → System A
start size blank = record {
  ring = create size blank;
  producers = λ _. Producer.idle;
  consumer = Consumer.idle;
  pushed = [];
  popped = [];
}

pub data Reach {A : Type 0} (size : ℕ) (blank : A) : System A → Type 0 where
  here : Reach size blank (start size blank)
  next : {s t : System A} → Reach size blank s → Step size s t → Reach size blank t
