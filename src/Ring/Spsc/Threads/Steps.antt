-- ===== src/Ring/Spsc/Threads/Steps.antt =====
-- Every step of either thread keeps the invariant.
use my_arbitrager.Prelude.{
  ℕ, ◌+◌, ◌<◌, ◌≡◌, refl, sym, ap, subst, ◌∙◌, ◌≢◌, List, [], ◌∷◌, ◌++◌, append_assoc, some, arith,
  length, length-append, length-set, get_elem?, of_some, get_elem?-set_self, set, store,
  store_in_bounds,
}
use my_arbitrager.Prelude.Bits.{IsPow2}
use my_arbitrager.Ring.Window.{step, next_index, next_index-eq-step, Holds-append, Holds-set_past}
use my_arbitrager.Ring.Spsc.Refine.{Represents, create-Represents}
use my_arbitrager.Ring.Spsc.Threads.{
  Producer, Consumer, System, Step, push_full, push_claim, push_write, push_publish, pop_empty,
  pop_claim, pop_read, pop_release, Reach, here, next,
}
use my_arbitrager.Ring.Spsc.Threads.Invariant.{
  ProducerKnows, ConsumerKnows, Inv, ConsumerKnows-append, ProducerKnows-tail, oldest,
}

module _ {A : Type 0} {size : ℕ} (p : IsPow2 size) where
  push_claim-Inv :
      {s : System A} (item : A)
      → s.producer ≡ Producer.idle
      → next_index size s.ring.tail ≢ s.ring.head
      → (v : Inv size s) → length v.queue + 1 < size
  push_claim-Inv {s} item e ne v = ground (arith, next_index-eq-step s.ring.tail p)

  push_write-Inv :
      {s : System A} {item : A} {current_tail next_tail : ℕ} {buffer : List A}
      → s.producer ≡ Producer.claimed item current_tail next_tail
      → store s.ring.buffer current_tail item ≡ some buffer
      → Inv size s
      → Inv size (record s {
        ring = record s.ring { buffer = buffer };
        producer = Producer.written item next_tail;
      })
  push_write-Inv {s} {item} {current_tail = t} {next_tail = n} {buffer} e st v = record {
    queue = v.queue;
    holds = record {
      sized = ap length result ∙ length-set s.ring.buffer s.ring.tail item ∙ v.holds.sized;
      head_in = v.holds.head_in;
      room = v.holds.room;
      tail_at = v.holds.tail_at;
      held = rw result (
          Holds-set_past size s.ring.buffer item v.queue s.ring.head s.ring.tail v.holds.head_in
            v.holds.room v.holds.tail_at v.holds.held);
    };
    split = v.split;
    producer_knows =
        (k.1, k.2, rw result (get_elem?-set_self s.ring.buffer s.ring.tail item in_bounds));
    consumer_knows = v.consumer_knows;
  }
    where
      k : ProducerKnows size s.ring.tail s.ring.buffer v.queue (Producer.claimed item t n)
      k = subst (ProducerKnows size s.ring.tail s.ring.buffer v.queue) e v.producer_knows

      in_bounds : s.ring.tail < length s.ring.buffer
      in_bounds = ground arith

      result : buffer ≡ set s.ring.buffer s.ring.tail item
      result =
          of_some
            (sym st ∙ ap (λ i. store s.ring.buffer i item) k.0 ∙ store_in_bounds _ _ item in_bounds)

  push_publish-Inv :
      {s : System A} {item : A} {next_tail : ℕ}
      → s.producer ≡ Producer.written item next_tail
      → Inv size s
      → Inv size (record s {
        ring = record s.ring { tail = next_tail };
        producer = Producer.idle;
        pushed = s.pushed ++ item ∷ [];
      })
  push_publish-Inv {s} {item} {next_tail = n} e v = record {
    queue = v.queue ++ item ∷ [];
    holds = record {
      sized = v.holds.sized;
      head_in = v.holds.head_in;
      room = omega (arith, k.1, length-append v.queue (item ∷ []));
      tail_at = ground (arith, k, length-append v.queue (item ∷ []));
      held =
          Holds-append size s.ring.buffer item v.queue s.ring.head s.ring.tail v.holds.head_in
            v.holds.room v.holds.tail_at k.2 v.holds.held;
    };
    split = ap (λ l. l ++ item ∷ []) v.split ∙ append_assoc s.popped v.queue (item ∷ []);
    producer_knows = tt;
    consumer_knows = ConsumerKnows-append s.ring.head v.queue item s.consumer v.consumer_knows;
  }
    where
      k : ProducerKnows size s.ring.tail s.ring.buffer v.queue (Producer.written item n)
      k = subst (ProducerKnows size s.ring.tail s.ring.buffer v.queue) e v.producer_knows

  pop_read-Inv :
      {s : System A} {item : A} {current_head : ℕ}
      → s.consumer ≡ Consumer.claimed current_head
      → get_elem? s.ring.buffer current_head ≡ some item
      → Inv size s
      → Inv size (record s { consumer = Consumer.reading current_head item })
  pop_read-Inv {s} {item} {current_head = h} e at v = record {
    queue = v.queue;
    holds = v.holds;
    split = v.split;
    producer_knows = v.producer_knows;
    consumer_knows = (k.0, first.0, first.1);
  }
    where
      k : ConsumerKnows s.ring.head v.queue (Consumer.claimed h)
      k = subst (ConsumerKnows s.ring.head v.queue) e v.consumer_knows

      first : (rest : List A) × (v.queue ≡ item ∷ rest)
      first =
          oldest size s.ring.head s.ring.buffer v.queue v.holds.held
            (ap (get_elem? s.ring.buffer) (sym k.0) ∙ at) k.1

  pop_release-Inv :
      {s : System A} {item : A} {current_head : ℕ}
      → s.consumer ≡ Consumer.reading current_head item
      → Inv size s
      → Inv size (record s {
        ring = record s.ring { head = next_index size current_head };
        consumer = Consumer.idle;
        popped = s.popped ++ item ∷ [];
      })
  pop_release-Inv {s} {item} {current_head = h} e v = record {
    queue = rest;
    holds = record {
      sized = w.sized;
      head_in = rw next_head (ground arith);
      room = omega (arith, w.room);
      tail_at = rw next_head (ground (arith, w.tail_at));
      held = rw next_head w.held.1;
    };
    split = v.split ∙ rw (front, append_assoc);
    producer_knows = ProducerKnows-tail size s.ring.tail s.ring.buffer item rest s.producer (
        subst (λ q. ProducerKnows size s.ring.tail s.ring.buffer q s.producer) front
          v.producer_knows);
    consumer_knows = tt;
  }
    where
      k : ConsumerKnows s.ring.head v.queue (Consumer.reading h item)
      k = subst (ConsumerKnows s.ring.head v.queue) e v.consumer_knows

      rest : List A
      rest = k.1

      front : v.queue ≡ item ∷ rest
      front = k.2

      w : Represents size s.ring (item ∷ rest)
      w = subst (Represents size s.ring) front v.holds

      next_head : next_index size h ≡ step size s.ring.head
      next_head = ap (next_index size) k.0 ∙ next_index-eq-step s.ring.head p v.holds.head_in

  -- Every step of either thread keeps the invariant.
  Step-Inv : {s t : System A} → Step size s t → Inv size s → Inv size t
  Step-Inv (push_full _ _) v = v
  Step-Inv {s} (push_claim item e ne) v = record {
    queue = v.queue;
    holds = v.holds;
    split = v.split;
    producer_knows =
        (refl, next_index-eq-step s.ring.tail p (ground arith), push_claim-Inv item e ne v);
    consumer_knows = v.consumer_knows;
  }
  Step-Inv (push_write e st) v = push_write-Inv e st v
  Step-Inv (push_publish e) v = push_publish-Inv e v
  Step-Inv (pop_empty _ _) v = v
  Step-Inv {s} (pop_claim e ne) v = record {
    queue = v.queue;
    holds = v.holds;
    split = v.split;
    producer_knows = v.producer_knows;
    consumer_knows = (refl, ground arith);
  }
  Step-Inv (pop_read e at) v = pop_read-Inv e at v
  Step-Inv (pop_release e) v = pop_release-Inv e v

  pub Reach-Inv : {blank : A} {s : System A} → Reach size blank s → Inv size s
  Reach-Inv {blank} here = record {
    queue = [];
    holds = create-Represents p blank;
    split = refl;
    producer_knows = tt;
    consumer_knows = tt;
  }
  Reach-Inv (next r st) = Step-Inv st (Reach-Inv r)
