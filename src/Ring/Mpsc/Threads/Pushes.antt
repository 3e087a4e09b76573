-- ===== src/Ring/Mpsc/Threads/Pushes.antt =====
-- The steps of a producer keep the invariant, while the counters do not wrap.
use my_arbitrager.Prelude.{
  ℕ, suc, ◌+◌, ◌%◌, ◌^◌, ◌≤◌, ◌<◌, ◌≡◌, refl, sym, ap, subst, ◌∙◌, inl, inr, true, List, [], ◌∷◌,
  ◌++◌, append_assoc, some, arith, length, get_elem?, length-append, get_elem?-set_self,
  get_elem?-append_length, get_elem?_bound, set, store,
}
use native.Mathlib.Decide.{dec_lt}
use native.Mathlib.Nat.{add-mod_right}
use my_arbitrager.Prelude.Bits.{IsPow2, add64}
use my_arbitrager.Ring.Mpsc.{Slot, diff, is_zero, slot_index}
use my_arbitrager.Ring.Mpsc.Slots.{diff_zero}
use my_arbitrager.Ring.Mpsc.Threads.{Producer, System, move}
use my_arbitrager.Ring.Mpsc.Threads.Invariant.{
  InTurn, Filling, Published, SlotOf, Claim, ProducerKnows, Fills, Inv, SlotOf-append,
  ProducerKnows-append, ConsumerKnows-append,
}
use my_arbitrager.Ring.Mpsc.Threads.Access.{
  size_pos, full_turn, low_turn, index_in, store_at, slot_at,
}
use my_arbitrager.Ring.Mpsc.Threads.Steps.{move-all, move-apart, fill-Inv, quiet-Inv, Fills-Claim}

module _ {A : Type 0} {size : ℕ} {s : System A} (p : IsPow2 size) (v : Inv size s) where
  pub write-Inv :
      (k : ℕ) {item : A} {at : ℕ} {slot : Slot A} {buffer : List (Slot A)}
      → s.producers k ≡ Producer.claimed item at
      → get_elem? s.ring.buffer (slot_index size at) ≡ some slot
      → store s.ring.buffer (slot_index size at) (record slot { item = item }) ≡ some buffer
      → Inv size (record s {
        ring = record s.ring { buffer = buffer };
        producers = move s.producers k (Producer.written item at);
      })
  write-Inv k {item} {at} {slot} {buffer} e found st =
      subst
        (λ b. Inv size (record s {
          ring = record s.ring { buffer = b };
          producers = move s.producers k (Producer.written item at);
        }))
        (sym (store_at p v at w st))
        (fill-Inv v k at w (Producer.written item at) (size_pos p)
          (subst (λ c. Fills c at) (sym e) refl)
          (record { from = claim.from; mine = claim.mine; filling = filled }, refl) (λ q f. f)
          (inl filled))
    where
      claim : Claim size (length s.popped) s.ring.buffer s.pushed item at
      claim =
          subst (ProducerKnows size (length s.popped) s.ring.buffer s.pushed) e (v.producers_know k)

      w : Slot A
      w = record slot { item = item }

      filled : Filling size (set s.ring.buffer (at % size) w) at
      filled = record {
        slot = w;
        found = get_elem?-set_self s.ring.buffer (at % size) w (index_in p v at);
        number = ap Slot.sequence (slot_at p v at found claim.filling.found) ∙ claim.filling.number;
      }

  pub publish-Inv :
      length s.pushed < 2 ^ 63
      → (k : ℕ) {item : A} {at : ℕ} {slot : Slot A} {buffer : List (Slot A)}
      → s.producers k ≡ Producer.written item at
      → get_elem? s.ring.buffer (slot_index size at) ≡ some slot
      → store s.ring.buffer (slot_index size at) (record slot { sequence = add64 at 1 })
        ≡ some buffer
      → Inv size (record s {
        ring = record s.ring { buffer = buffer };
        producers = move s.producers k Producer.idle;
      })
  publish-Inv short k {item} {at} {slot} {buffer} e found st =
      subst
        (λ b. Inv size (record s {
          ring = record s.ring { buffer = b };
          producers = move s.producers k Producer.idle;
        }))
        (sym (store_at p v at w st))
        (fill-Inv v k at w Producer.idle (size_pos p) (subst (λ c. Fills c at) (sym e) refl) tt
          (λ q f. elim f [ ]) (inr filled))
    where
      know :
          (c : Claim size (length s.popped) s.ring.buffer s.pushed item at) × (c.filling.slot.item
            ≡ item)
      know =
          subst (ProducerKnows size (length s.popped) s.ring.buffer s.pushed) e (v.producers_know k)

      w : Slot A
      w = record slot { sequence = add64 at 1 }

      filled : Published size (set s.ring.buffer (at % size) w) s.pushed at
      filled = record {
        slot = w;
        found = get_elem?-set_self s.ring.buffer (at % size) w (index_in p v at);
        number = omega (arith, short, get_elem?_bound s.pushed at know.0.mine);
        holds =
            know.0.mine
            ∙ ap some (sym know.1 ∙ sym (ap Slot.item (slot_at p v at found know.0.filling.found)));
      }

  -- A producer whose position is the slot's number is less than a turn ahead: a full turn ahead the slot
  -- would still carry the number of the turn before.
  pub less_than_turn :
      2 ≤ size
      → length s.pushed + size < 2 ^ 63
      → {at : ℕ} {slot : Slot A} → at ≤ length s.pushed
      → get_elem? s.ring.buffer (slot_index size at) ≡ some slot
      → is_zero (diff slot.sequence at) ≡ true
      → at < length s.popped + size
  less_than_turn two short {at} {slot} known found zero_diff =
      elim (dec_lt at (length s.popped + size)) [
        | yes lt ↦ lt
        | no ge ↦ absurd (
            ahead (omega (arith, ge, full_turn p v))
              (v.slots (length s.popped) (omega arith, omega arith)))
      ]
    where
      numbered :
          {slot' : Slot A}
          → at ≡ length s.popped + size
          → get_elem? s.ring.buffer (length s.popped % size) ≡ some slot'
          → slot ≡ slot'
      numbered e there = slot_at p v at found (
          ap (get_elem? s.ring.buffer) (ap (λ i. i % size) e ∙ add-mod_right (length s.popped) size)
          ∙ there)

      ahead : at ≡ length s.popped + size → SlotOf size s.ring.buffer s.pushed (length s.popped) → ⊥
      ahead e (inl f) =
          let carries : slot.sequence ≡ length s.popped =
            ap Slot.sequence (numbered e f.found) ∙ f.number in
          absurd (
            omega (
              arith,
              e,
              carries,
              diff_zero slot.sequence at (omega (arith, carries)) (omega arith) zero_diff,
            ))
      ahead e (inr f) =
          let carries : slot.sequence ≡ suc (length s.popped) =
            ap Slot.sequence (numbered e f.found) ∙ f.number in
          absurd (
            omega (
              arith,
              e,
              carries,
              diff_zero slot.sequence at (omega (arith, carries)) (omega arith) zero_diff,
            ))

  pub check-Inv :
      2 ≤ size
      → length s.pushed + size < 2 ^ 63
      → (k : ℕ) {item : A} {at : ℕ} {slot : Slot A} → s.producers k ≡ Producer.looping item at
      → get_elem? s.ring.buffer (slot_index size at) ≡ some slot
      → is_zero (diff slot.sequence at) ≡ true
      → Inv size (record s { producers = move s.producers k (Producer.checked item at) })
  check-Inv two short k {item} {at} {slot} e found zero_diff =
      quiet-Inv v k (Producer.checked item at)
        (known, less_than_turn two short known found zero_diff) (λ q f. f)
    where
      known : at ≤ length s.pushed
      known =
          subst (ProducerKnows size (length s.popped) s.ring.buffer s.pushed) e (v.producers_know k)

  pub claim-Inv :
      (k : ℕ) {item : A} {at : ℕ}
      → length (s.pushed ++ item ∷ []) + size < 2 ^ 63
      → s.producers k ≡ Producer.checked item at
      → s.ring.tail ≡ at
      → Inv size (record s {
        ring = record s.ring { tail = add64 at 1 };
        producers = move s.producers k (Producer.claimed item at);
        pushed = s.pushed ++ item ∷ [];
      })
  claim-Inv k {item} {at} short e same = record {
    waiting = v.waiting ++ item ∷ [];
    split = ap (λ z. z ++ item ∷ []) v.split ∙ append_assoc s.popped v.waiting (item ∷ []);
    room = omega (
      arith,
      length-append v.waiting (item ∷ []),
      know.1,
      at_end,
      ap length v.split,
      length-append s.popped v.waiting,
    );
    tail_at = omega (arith, at_end, longer, short);
    sized = v.sized;
    slots = λ q iq. SlotOf-append (item ∷ []) (v.slots q iq);
    producers_know =
        move-all
          (λ j z. ProducerKnows size (length s.popped) s.ring.buffer (s.pushed ++ item ∷ []) z)
          s.producers k (Producer.claimed item at)
          (record { from = here.0; mine = mine; filling = free (v.slots at here) })
          (λ j ne.
            ProducerKnows-append size s.ring.buffer s.pushed (item ∷ []) (length s.popped)
              (s.producers j) (v.producers_know j));
    apart =
        move-apart s.producers k (Producer.claimed item at)
          (λ j q ne f g. absurd (
            omega (
              arith,
              f,
              at_end,
              get_elem?_bound s.pushed q
                  (Fills-Claim (s.producers j) q (v.producers_know j) g).1.mine,
            )))
          v.apart;
    consumer_knows =
        ConsumerKnows-append size s.ring.buffer s.pushed (item ∷ []) (length s.popped) s.ring.head
          s.consumer v.consumer_knows;
  }
    where
      know : (at ≤ length s.pushed) × (at < length s.popped + size)
      know =
          subst (ProducerKnows size (length s.popped) s.ring.buffer s.pushed) e (v.producers_know k)

      at_end : at ≡ length s.pushed
      at_end = sym same ∙ v.tail_at

      longer : length (s.pushed ++ item ∷ []) ≡ length s.pushed + 1
      longer = length-append s.pushed (item ∷ [])

      here : InTurn size (length s.popped) at
      here = (omega (arith, at_end, low_turn p v), know.1)

      mine : get_elem? (s.pushed ++ item ∷ []) at ≡ some item
      mine =
          ap (get_elem? (s.pushed ++ item ∷ [])) at_end ∙ get_elem?-append_length s.pushed [] item

      free : SlotOf size s.ring.buffer s.pushed at → Filling size s.ring.buffer at
      free (inl f) = f
      free (inr f) = absurd (omega (arith, at_end, get_elem?_bound s.pushed at f.holds))
