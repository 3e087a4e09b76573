-- ===== src/Ring/Mpsc/Threads/Safety.antt =====
-- Every run of the ring from its creation keeps the invariant, and what follows for its clients.
use my_arbitrager.Prelude.{
  ℕ, ◌+◌, ◌^◌, ◌≤◌, ◌<◌, ◌≡◌, ◌≢◌, refl, sym, ap, subst, ◌∙◌, inl, List, [], ◌∷◌, ◌++◌, some, arith,
  length, get_elem?, get_elem?_bound, length-append,
}
use native.Mathlib.Nat.{mod-eq_of_lt}
use my_arbitrager.Prelude.Bits.{IsPow2}
use my_arbitrager.Ring.Mpsc.{Slot, slot_index, create, fresh_slots}
use my_arbitrager.Ring.Mpsc.Slots.{get_elem?-fresh_slots, length-fresh_slots}
use my_arbitrager.Ring.Mpsc.Threads.{
  Producer, Consumer, System, Step, push_call, push_full, push_late, push_reload, push_check,
  push_fail, push_claim, push_write, push_publish, pop_empty, pop_check, pop_read, pop_reclaim,
  pop_advance, start, Reach, here, next,
}
use my_arbitrager.Ring.Mpsc.Threads.Invariant.{
  InTurn, Fills, ConsumerKnows, Inv, Published, turn_apart, not_both,
}
use my_arbitrager.Ring.Mpsc.Threads.Steps.{quiet-Inv, Fills-Claim}
use my_arbitrager.Ring.Mpsc.Threads.Access.{index}
use my_arbitrager.Ring.Mpsc.Threads.Pushes.{write-Inv, publish-Inv, check-Inv, claim-Inv}
use my_arbitrager.Ring.Mpsc.Threads.Pops.{ready-Inv, read-Inv, reclaim-Inv, advance-Inv}

-- A thread in a call: a producer by its number, or the consumer.
pub data Owner : Type 0 where
  producing : (k : ℕ) → Owner
  consuming : Owner

-- The position whose slot the consumer reads and gives back.
abbrev pub Reads : {A : Type 0} → Consumer A → ℕ → Type 0
Reads Consumer.idle p = ⊥
Reads (Consumer.ready at) p = at ≡ p
Reads (Consumer.taken item at) p = at ≡ p
Reads (Consumer.reclaimed at) p = ⊥

-- The thread is about to read or write the data or the sequence of the slot of position `p` as its own.
abbrev pub Owns : {A : Type 0} → System A → Owner → ℕ → Type 0
Owns s (producing k) p = Fills (s.producers k) p
Owns s consuming p = Reads s.consumer p

Reads-Published :
    {A : Type 0} (size low head : ℕ) (buffer : List (Slot A)) (pushed : List A) (c : Consumer A)
    (p : ℕ)
    → ConsumerKnows size low head buffer pushed c
    → Reads c p
    → Published size buffer pushed p × (p ≡ low)
Reads-Published size low head buffer pushed Consumer.idle p h f = elim f [ ]
Reads-Published size low head buffer pushed (Consumer.ready at) p (e, e', h) f =
    (subst (Published size buffer pushed) f h, omega arith)
Reads-Published size low head buffer pushed (Consumer.taken item at) p (e, e', h, i) f =
    (subst (Published size buffer pushed) f h, omega arith)
Reads-Published size low head buffer pushed (Consumer.reclaimed at) p h f = elim f [ ]

module _ {A : Type 0} {size : ℕ} {s : System A} (v : Inv size s) where
  owner_turn : (o : Owner) (a : ℕ) → Owns s o a → InTurn size (length s.popped) a
  owner_turn (producing k) a f =
      let claim = (Fills-Claim (s.producers k) a (v.producers_know k) f).1 in
      (
        claim.from,
        omega (
          arith,
          get_elem?_bound s.pushed a claim.mine,
          ap length v.split,
          length-append s.popped v.waiting,
          v.room,
        ),
      )
  owner_turn consuming a f =
      let (entry, low) =
        Reads-Published size (length s.popped) s.ring.head s.ring.buffer s.pushed s.consumer a
          v.consumer_knows f in
      (
        omega (arith, low),
        omega (
          arith,
          low,
          get_elem?_bound s.pushed a entry.holds,
          ap length v.split,
          length-append s.popped v.waiting,
          v.room,
        ),
      )

  owners_apart : (o o' : Owner) (a : ℕ) → o ≢ o' → Owns s o a → Owns s o' a → ⊥
  owners_apart (producing j) (producing k) a ne f g = v.apart j k a (λ e. ne (ap producing e)) f g
  owners_apart (producing j) consuming a ne f g =
      not_both (Fills-Claim (s.producers j) a (v.producers_know j) f).1.filling
        (Reads-Published size (length s.popped) s.ring.head s.ring.buffer s.pushed s.consumer a
          v.consumer_knows g).0
  owners_apart consuming (producing k) a ne f g =
      not_both (Fills-Claim (s.producers k) a (v.producers_know k) g).1.filling
        (Reads-Published size (length s.popped) s.ring.head s.ring.buffer s.pushed s.consumer a
          v.consumer_knows f).0
  owners_apart consuming consuming a ne f g = ne refl

module _ {A : Type 0} (size : ℕ) (blank : A) where
  pub start-Inv : Inv size (start size blank)
  unfolding create
  start-Inv = record {
    waiting = [];
    split = refl;
    room = omega arith;
    tail_at = refl;
    sized = length-fresh_slots blank 0 size;
    slots = λ p ip. inl (record {
      slot = record { sequence = p; item = blank };
      found =
          ap (get_elem? (fresh_slots blank 0 size)) (mod-eq_of_lt (omega (arith, ip)))
          ∙ get_elem?-fresh_slots blank 0 size p (omega (arith, ip))
          ∙ ap (λ z. some (record { sequence = z; item = blank })) (omega arith);
      number = refl;
    });
    producers_know = λ j. tt;
    apart = λ j k p ne f g. f;
    consumer_knows = refl;
  }

module _ {A : Type 0} {size : ℕ} (p : IsPow2 size) (two : 2 ≤ size) where
  -- No step forgets an entry.
  pushed_grows : {s t : System A} → Step size s t → length s.pushed ≤ length t.pushed
  pushed_grows (push_call k item e) = omega arith
  pushed_grows (push_full k e found nonzero late) = omega arith
  pushed_grows (push_late k e found nonzero early) = omega arith
  pushed_grows (push_reload k e) = omega arith
  pushed_grows (push_check k e found zero_diff) = omega arith
  pushed_grows (push_fail k e) = omega arith
  pushed_grows {s} (push_claim k {item} e same) = omega (arith, length-append s.pushed (item ∷ []))
  pushed_grows (push_write k e found st) = omega arith
  pushed_grows (push_publish k e found st) = omega arith
  pushed_grows (pop_empty e found late) = omega arith
  pushed_grows (pop_check e found late) = omega arith
  pushed_grows (pop_read e found) = omega arith
  pushed_grows (pop_reclaim e found st) = omega arith
  pushed_grows (pop_advance e) = omega arith

  Step-Inv :
      {s t : System A} → length t.pushed + size < 2 ^ 63 → Inv size s → Step size s t → Inv size t
  Step-Inv short v (push_call k item e) =
      quiet-Inv v k (Producer.looping item _) (omega (arith, v.tail_at)) (λ q f. f)
  Step-Inv short v (push_full k e found nonzero late) = quiet-Inv v k Producer.idle tt (λ q f. f)
  Step-Inv short v (push_late k {item} e found nonzero early) =
      quiet-Inv v k (Producer.reloading item) tt (λ q f. f)
  Step-Inv short v (push_reload k {item} e) =
      quiet-Inv v k (Producer.looping item _) (omega (arith, v.tail_at)) (λ q f. f)
  Step-Inv short v (push_check k e found zero_diff) = check-Inv p v two short k e found zero_diff
  Step-Inv short v (push_fail k {item} e) =
      quiet-Inv v k (Producer.looping item _) (omega (arith, v.tail_at)) (λ q f. f)
  Step-Inv short v (push_claim k e same) = claim-Inv p v k short e same
  Step-Inv short v (push_write k e found st) = write-Inv p v k e found st
  Step-Inv short v (push_publish k e found st) = publish-Inv p v (omega (arith, short)) k e found st
  Step-Inv short v (pop_empty e found late) = v
  Step-Inv short v (pop_check e found late) = ready-Inv p v short e found late
  Step-Inv short v (pop_read e found) = read-Inv p v e found
  Step-Inv short v (pop_reclaim e found st) = reclaim-Inv p v short e found st
  Step-Inv short v (pop_advance e) = advance-Inv p v short e

  Reach-Inv :
      {blank : A} {s : System A} → length s.pushed + size < 2 ^ 63 → Reach size blank s → Inv size s
  Reach-Inv {blank} short here = start-Inv size blank
  Reach-Inv short (next run step) =
      Step-Inv short (Reach-Inv (omega (arith, short, pushed_grows step)) run) step

  -- Under every interleaving of any number of producers with the consumer, while the counters stay
  -- below 2 ^ 63, the entries popped are, in order, the first of those pushed, in the order of the
  -- exchanges that claimed their slots, and at most `Size` wait in between.
  pub first_in_first_out :
      {blank : A} {s : System A}
      → Reach size blank s
      → length s.pushed + size < 2 ^ 63
      → (waiting : List A) × (s.pushed ≡ s.popped ++ waiting) × (length waiting ≤ size)
  first_in_first_out run short = let v = Reach-Inv short run in (v.waiting, v.split, v.room)

  -- Under every interleaving, while the counters stay below 2 ^ 63, no two threads own one slot:
  -- neither two producers between their exchange and their publication, nor one of them and the
  -- consumer between its check and its return of the slot.
  pub one_owner :
      {blank : A} {s : System A}
      → Reach size blank s
      → length s.pushed + size < 2 ^ 63
      → (o o' : Owner) (a b : ℕ) → o ≢ o'
      → Owns s o a
      → Owns s o' b
      → slot_index size a ≢ slot_index size b
  one_owner {s = s} run short o o' a b ne f g e =
      turn_apart size (length s.popped) a b (owner_turn v o a f) (owner_turn v o' b g)
        (λ same. owners_apart v o o' a ne f (subst (Owns s o') (sym same) g))
        (sym (index p a) ∙ e ∙ index p b)
    where
      v : Inv size s
      v = Reach-Inv short run
