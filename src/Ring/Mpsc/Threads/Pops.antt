-- ===== src/Ring/Mpsc/Threads/Pops.antt =====
-- The steps of the consumer keep the invariant, and with the producers' so does every run.
use my_arbitrager.Prelude.{
  ℕ, suc, ◌+◌, ◌%◌, ◌^◌, ◌<◌, ◌≡◌, refl, sym, ap, subst, ◌∙◌, inl, inr, false, List, [], ◌∷◌, ◌++◌,
  append_assoc, some, arith, length, get_elem?, length-append, length-set, get_elem?-set_self,
  of_some, set, store,
}
use native.Mathlib.Decide.{ℕ_discrete}
use native.Mathlib.Nat.{add-mod_right}
use my_arbitrager.Prelude.Bits.{IsPow2, add64}
use my_arbitrager.Prelude.Int.{below}
use my_arbitrager.Ring.Mpsc.{Slot, diff, slot_index}
use my_arbitrager.Ring.Mpsc.Slots.{diff_above}
use my_arbitrager.Ring.Mpsc.Threads.{Producer, Consumer, System}
use my_arbitrager.Ring.Mpsc.Threads.Invariant.{
  InTurn, Filling, Published, SlotOf, ProducerKnows, ConsumerKnows, Fills, Inv, SlotOf-set,
  not_both,
}
use my_arbitrager.Ring.Mpsc.Threads.Steps.{ProducerKnows-set, Fills-Claim}
use my_arbitrager.Ring.Mpsc.Threads.Access.{
  size_pos, full_turn, low_turn, index_in, store_at, slot_at,
}

-- What the consumer has taken is the first of what waits.
first_waits :
    {A : Type 0} (popped waiting : List A) {item : A}
    → get_elem? (popped ++ waiting) (length popped) ≡ some item
    → (rest : List A) × (waiting ≡ item ∷ rest)
first_waits [] [] e = cc
first_waits [] (x ∷ rest) e = (rest, ap (λ z. z ∷ rest) (of_some e))
first_waits (x ∷ popped) waiting e = first_waits popped waiting e

-- The next turn begins one position later, once nobody fills the first one.
ProducerKnows-raise :
    {A : Type 0} (size low : ℕ) (buffer : List (Slot A)) (pushed : List A) (c : Producer A)
    → (Fills c low → ⊥)
    → ProducerKnows size low buffer pushed c
    → ProducerKnows size (suc low) buffer pushed c
ProducerKnows-raise size low buffer pushed Producer.idle free h = tt
ProducerKnows-raise size low buffer pushed (Producer.looping item at) free h = h
ProducerKnows-raise size low buffer pushed (Producer.reloading item) free h = tt
ProducerKnows-raise size low buffer pushed (Producer.checked item at) free (h, i) =
    (h, omega (arith, i))
ProducerKnows-raise size low buffer pushed (Producer.claimed item at) free h = record {
  from = omega (arith, h.from, free);
  mine = h.mine;
  filling = h.filling;
}
ProducerKnows-raise size low buffer pushed (Producer.written item at) free (h, e) =
    (record { from = omega (arith, h.from, free); mine = h.mine; filling = h.filling }, e)

module _ {A : Type 0} {size : ℕ} {s : System A} (p : IsPow2 size) (v : Inv size s) where
  know :
      {c : Consumer A}
      → s.consumer ≡ c
      → ConsumerKnows size (length s.popped) s.ring.head s.ring.buffer s.pushed c
  know e =
      subst (ConsumerKnows size (length s.popped) s.ring.head s.ring.buffer s.pushed) e
        v.consumer_knows

  with_consumer :
      (c : Consumer A)
      → ConsumerKnows size (length s.popped) s.ring.head s.ring.buffer s.pushed c
      → Inv size (record s { consumer = c })
  with_consumer c h = record {
    waiting = v.waiting;
    split = v.split;
    room = v.room;
    tail_at = v.tail_at;
    sized = v.sized;
    slots = v.slots;
    producers_know = v.producers_know;
    apart = v.apart;
    consumer_knows = h;
  }

  pub ready-Inv :
      length s.pushed + size < 2 ^ 63
      → {slot : Slot A} → s.consumer ≡ Consumer.idle
      → get_elem? s.ring.buffer (slot_index size s.ring.head) ≡ some slot
      → below (diff slot.sequence (add64 s.ring.head 1)) 0 ≡ false
      → Inv size (record s { consumer = Consumer.ready s.ring.head })
  ready-Inv short {slot} e found late = with_consumer (Consumer.ready s.ring.head) (
    refl,
    know e,
    entry (
        subst (SlotOf size s.ring.buffer s.pushed) (sym (know e))
          (v.slots (length s.popped) (omega arith, omega (arith, size_pos p)))),
  )
    where
      entry :
          SlotOf size s.ring.buffer s.pushed s.ring.head
          → Published size s.ring.buffer s.pushed s.ring.head
      entry (inl f) =
          let carries : slot.sequence ≡ s.ring.head =
            ap Slot.sequence (slot_at p v s.ring.head found f.found) ∙ f.number in
          absurd (
            omega (
              arith,
              carries,
              low_turn p v,
              know e,
              diff_above slot.sequence (add64 s.ring.head 1)
                  (omega (arith, carries, low_turn p v, know e))
                  (omega (arith, low_turn p v, know e, size_pos p)) late,
            ))
      entry (inr f) = f

  pub read-Inv :
      {at : ℕ} {slot : Slot A}
      → s.consumer ≡ Consumer.ready at
      → get_elem? s.ring.buffer (slot_index size at) ≡ some slot
      → Inv size (record s { consumer = Consumer.taken slot.item at })
  read-Inv {at} {slot} e found = with_consumer (Consumer.taken slot.item at) (
    (know e).0,
    (know e).1,
    (know e).2,
    sym (ap Slot.item (slot_at p v at found (know e).2.found)),
  )

  pub advance-Inv :
      length s.pushed + size < 2 ^ 63
      → {at : ℕ} → s.consumer ≡ Consumer.reclaimed at
      → Inv size (record s { ring = record s.ring { head = add64 at 1 }; consumer = Consumer.idle })
  advance-Inv short {at} e = record {
    waiting = v.waiting;
    split = v.split;
    room = v.room;
    tail_at = v.tail_at;
    sized = v.sized;
    slots = v.slots;
    producers_know = v.producers_know;
    apart = v.apart;
    consumer_knows = omega (arith, know e, low_turn p v, short);
  }

  pub reclaim-Inv :
      length s.pushed + size < 2 ^ 63
      → {item : A} {at : ℕ} {slot : Slot A} {buffer : List (Slot A)}
      → s.consumer ≡ Consumer.taken item at
      → get_elem? s.ring.buffer (slot_index size at) ≡ some slot
      → store s.ring.buffer (slot_index size at) (record slot { sequence = add64 at size })
        ≡ some buffer
      → Inv size (record s {
        ring = record s.ring { buffer = buffer };
        consumer = Consumer.reclaimed at;
        popped = s.popped ++ item ∷ [];
      })
  reclaim-Inv short {item} {at} {slot} {buffer} e found st =
      subst
        (λ b. Inv size (record s {
          ring = record s.ring { buffer = b };
          consumer = Consumer.reclaimed at;
          popped = s.popped ++ item ∷ [];
        }))
        (sym (store_at p v at w st)) after
    where
      w : Slot A
      w = record slot { sequence = add64 at size }

      low : ℕ
      low = length s.popped

      entry : (f : Published size s.ring.buffer s.pushed at) × (f.slot.item ≡ item)
      entry = ((know e).2, (know e).3)

      at_low : at ≡ low
      at_low = (know e).0 ∙ (know e).1

      at_here : InTurn size low at
      at_here = (omega (arith, at_low), omega (arith, at_low, size_pos p))

      longer : length (s.popped ++ item ∷ []) ≡ suc low
      longer = omega (arith, length-append s.popped (item ∷ []))

      first : (rest : List A) × (v.waiting ≡ item ∷ rest)
      first = first_waits s.popped v.waiting (
          ap (λ xs. get_elem? xs low) (sym v.split)
          ∙ ap (get_elem? s.pushed) (sym at_low)
          ∙ entry.0.holds
          ∙ ap some entry.1)

      changed : List (Slot A)
      changed = set s.ring.buffer (at % size) w

      -- The slot given back is that of the last position of the new turn.
      given_back : (q : ℕ) → q ≡ at + size → Filling size changed q
      given_back q same = record {
        slot = w;
        found =
            ap (get_elem? changed) (ap (λ i. i % size) same ∙ add-mod_right at size)
            ∙ get_elem?-set_self s.ring.buffer (at % size) w (index_in p v at);
        number = omega (arith, same, at_low, low_turn p v, short);
      }

      free : (j : ℕ) → Fills (s.producers j) at → ⊥
      free j f = not_both (Fills-Claim (s.producers j) at (v.producers_know j) f).1.filling entry.0

      after : Inv size (record s {
        ring = record s.ring { buffer = changed };
        consumer = Consumer.reclaimed at;
        popped = s.popped ++ item ∷ [];
      })
      after = record {
        waiting = first.0;
        split =
            v.split
            ∙ ap (λ xs. s.popped ++ xs) first.1
            ∙ sym (append_assoc s.popped (item ∷ []) first.0);
        room = omega (arith, v.room, ap length first.1);
        tail_at = v.tail_at;
        sized = length-set s.ring.buffer (at % size) w ∙ v.sized;
        slots = λ q iq. elim (ℕ_discrete q (at + size)) [
          | yes same ↦ inl (given_back q same)
          | no ne ↦
              SlotOf-set size s.ring.buffer at w at_here q
                (omega (arith, iq, longer, at_low, ne), omega (arith, iq, longer, at_low, ne))
                (λ same. absurd (omega (arith, same, iq, longer, at_low)))
                (v.slots q
                  (omega (arith, iq, longer, at_low, ne), omega (arith, iq, longer, at_low, ne)))
        ];
        producers_know = λ j.
            subst (λ l. ProducerKnows size l changed s.pushed (s.producers j)) (sym longer)
              (ProducerKnows-raise size low changed s.pushed (s.producers j)
                (λ f. free j (subst (Fills (s.producers j)) (sym at_low) f))
                (ProducerKnows-set size low s.ring.buffer s.pushed at w (s.producers j) at_here
                  (full_turn p v) (free j) (v.producers_know j)));
        apart = v.apart;
        consumer_knows = ((know e).0, omega (arith, longer, know e));
      }
