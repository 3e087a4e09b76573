-- ===== src/Ring/Mpsc/Threads/Steps.antt =====
-- What a thread knows stays true when another one moves.
use my_arbitrager.Prelude.{
  ℕ, ◌+◌, ◌%◌, ◌≤◌, ◌<◌, ◌≡◌, ◌≢◌, sym, ap, subst, ◌∙◌, inl, inr, Bool-cases, if-true, if-false,
  List, some, arith, length, length-append, length-set, get_elem?_bound, of_some, set, store,
  store_in_bounds, ◌==◌,
}
use native.Mathlib.Decide.{ℕ_discrete}
use my_arbitrager.Ring.Mpsc.{Slot}
use my_arbitrager.Ring.Mpsc.Threads.{Producer, Consumer, System, move}
use my_arbitrager.Ring.Mpsc.Threads.Invariant.{
  InTurn, Filling, Published, SlotOf, Claim, ProducerKnows, ConsumerKnows, Fills, Inv, Filling-set,
  Published-set, SlotOf-set, not_both, elsewhere,
}

-- A fact about every producer, after one of them has moved.
module _ {A : Type 0} (P : ℕ → Producer A → Type 0) (ps : ℕ → Producer A) (k : ℕ)
    (c : Producer A) where
  pub move-all : P k c → ((j : ℕ) → k ≢ j → P j (ps j)) → (j : ℕ) → P j (move ps k c j)
  move-all h others j = elim (Bool-cases (k == j)) [
    | inl same ↦ subst (P j) (sym (if-true _ _ same)) (subst (λ i. P i c) (ground arith) h)
    | inr other ↦ subst (P j) (sym (if-false _ _ other)) (others j (ground arith))
  ]

module _ {A : Type 0} (ps : ℕ → Producer A) (k : ℕ) (c : Producer A) where
  -- Nobody fills the same position twice, if the mover fills what it filled before or what nobody did.
  pub move-apart :
      ((j p : ℕ) → k ≢ j → Fills c p → Fills (ps j) p → ⊥)
      → ((i j p : ℕ) → i ≢ j → Fills (ps i) p → Fills (ps j) p → ⊥)
      → (i j p : ℕ) → i ≢ j
      → Fills (move ps k c i) p
      → Fills (move ps k c j) p
      → ⊥
  move-apart mover others i j p ne = elim (Bool-cases (k == i)) [
    | inl is_i ↦ elim (Bool-cases (k == j)) [
      | inl is_j ↦ absurd (ground arith)
      | inr not_j ↦ λ f g.
          mover j p (ground arith) (subst (λ z. Fills z p) (if-true _ _ is_i) f)
            (subst (λ z. Fills z p) (if-false _ _ not_j) g)
    ]
    | inr not_i ↦ elim (Bool-cases (k == j)) [
      | inl is_j ↦ λ f g.
          mover i p (ground arith) (subst (λ z. Fills z p) (if-true _ _ is_j) g)
            (subst (λ z. Fills z p) (if-false _ _ not_i) f)
      | inr not_j ↦ λ f g.
          others i j p ne (subst (λ z. Fills z p) (if-false _ _ not_i) f)
            (subst (λ z. Fills z p) (if-false _ _ not_j) g)
    ]
  ]

module _ {A : Type 0} {size : ℕ} {s : System A} (v : Inv size s) where
  -- A producer moves that fills nothing afterwards, and nothing else changes.
  pub quiet-Inv :
      (k : ℕ) (c : Producer A)
      → ProducerKnows size (length s.popped) s.ring.buffer s.pushed c
      → ((p : ℕ) → Fills c p → ⊥)
      → Inv size (record s { producers = move s.producers k c })
  quiet-Inv k c knows none_filled = record {
    waiting = v.waiting;
    split = v.split;
    room = v.room;
    tail_at = v.tail_at;
    sized = v.sized;
    slots = v.slots;
    producers_know =
        move-all (λ j z. ProducerKnows size (length s.popped) s.ring.buffer s.pushed z) s.producers
          k c knows (λ j ne. v.producers_know j);
    apart = move-apart s.producers k c (λ j p ne f g. none_filled p f) v.apart;
    consumer_knows = v.consumer_knows;
  }

-- What a producer that fills a position knows of it.
pub Fills-Claim :
    {A : Type 0} {size low : ℕ} {buffer : List (Slot A)} {pushed : List A} (c : Producer A) (p : ℕ)
    → ProducerKnows size low buffer pushed c
    → Fills c p
    → (item : A) × Claim size low buffer pushed item p
Fills-Claim Producer.idle p h f = elim f [ ]
Fills-Claim (Producer.looping item at) p h f = elim f [ ]
Fills-Claim (Producer.reloading item) p h f = elim f [ ]
Fills-Claim (Producer.checked item at) p h f = elim f [ ]
Fills-Claim {size} {low} {buffer} {pushed} (Producer.claimed item at) p h f =
    (item, subst (Claim size low buffer pushed item) f h)
Fills-Claim {size} {low} {buffer} {pushed} (Producer.written item at) p h f =
    (item, subst (Claim size low buffer pushed item) f h.0)

-- The write of a slot that one producer is filling leaves what another producer knows.
pub ProducerKnows-set :
    {A : Type 0} (size low : ℕ) (buffer : List (Slot A)) (pushed : List A) (q : ℕ) (w : Slot A)
    (c : Producer A)
    → InTurn size low q
    → length pushed ≤ low + size
    → (Fills c q → ⊥)
    → ProducerKnows size low buffer pushed c
    → ProducerKnows size low (set buffer (q % size) w) pushed c
ProducerKnows-set size low buffer pushed q w Producer.idle iq room free h = tt
ProducerKnows-set size low buffer pushed q w (Producer.looping item at) iq room free h = h
ProducerKnows-set size low buffer pushed q w (Producer.reloading item) iq room free h = tt
ProducerKnows-set size low buffer pushed q w (Producer.checked item at) iq room free h = h
ProducerKnows-set size low buffer pushed q w (Producer.claimed item at) iq room free h = record {
  from = h.from;
  mine = h.mine;
  filling =
      Filling-set size buffer q w iq at (h.from, omega (arith, get_elem?_bound pushed at h.mine))
        free h.filling;
}
ProducerKnows-set size low buffer pushed q w (Producer.written item at) iq room free (h, e) = (
  record {
    from = h.from;
    mine = h.mine;
    filling = record {
      slot = h.filling.slot;
      found =
          elsewhere size buffer q w iq at (h.from, omega (arith, get_elem?_bound pushed at h.mine))
            free
          ∙ h.filling.found;
      number = h.filling.number;
    };
  },
  e,
)

-- It leaves what the consumer knows, too.
pub ConsumerKnows-set :
    {A : Type 0} (size low head : ℕ) (buffer : List (Slot A)) (pushed : List A) (q : ℕ) (w : Slot A)
    (c : Consumer A)
    → InTurn size low q
    → 0 < size
    → Filling size buffer q
    → ConsumerKnows size low head buffer pushed c
    → ConsumerKnows size low head (set buffer (q % size) w) pushed c
ConsumerKnows-set size low head buffer pushed q w Consumer.idle iq pos f h = h
ConsumerKnows-set {A} size low head buffer pushed q w (Consumer.ready at) iq pos f (e, e', h) = (
  e,
  e',
  Published-set size buffer q w iq at (omega arith)
      (λ same. not_both f (subst (Published size buffer pushed) same h)) h,
)
ConsumerKnows-set {A} size low head buffer pushed q w (Consumer.taken item at) iq pos f
      (e, e', h, i) =
    let other : at ≢ q = λ same. not_both f (subst (Published size buffer pushed) same h) in
    (
      e,
      e',
      record {
        slot = h.slot;
        found = elsewhere size buffer q w iq at (omega arith) other ∙ h.found;
        number = h.number;
        holds = h.holds;
      },
      i,
    )
ConsumerKnows-set size low head buffer pushed q w (Consumer.reclaimed at) iq pos f h = h

pub stored :
    {A : Type 0} (xs : List A) {ys : List A} (i : ℕ) (x : A)
    → store xs i x ≡ some ys
    → i < length xs
    → ys ≡ set xs i x
stored xs i x e h = of_some (sym e ∙ store_in_bounds xs i x h)

-- A producer writes the slot that it fills.
module _ {A : Type 0} {size : ℕ} {s : System A} (v : Inv size s) (k : ℕ) (at : ℕ) (w : Slot A) where
  pub fill-Inv :
      (c : Producer A)
      → 0 < size
      → Fills (s.producers k) at
      → ProducerKnows size (length s.popped) (set s.ring.buffer (at % size) w) s.pushed c
      → ((p : ℕ) → Fills c p → at ≡ p)
      → SlotOf size (set s.ring.buffer (at % size) w) s.pushed at
      → Inv size (record s {
        ring = record s.ring { buffer = set s.ring.buffer (at % size) w };
        producers = move s.producers k c;
      })
  fill-Inv c pos fills knows same slot = record {
    waiting = v.waiting;
    split = v.split;
    room = v.room;
    tail_at = v.tail_at;
    sized = length-set s.ring.buffer (at % size) w ∙ v.sized;
    slots = λ p ip. elim (ℕ_discrete at p) [
      | yes e ↦ subst (SlotOf size (set s.ring.buffer (at % size) w) s.pushed) e slot
      | no ne ↦ SlotOf-set size s.ring.buffer at w here p ip (λ e. ne (sym e)) (v.slots p ip)
    ];
    producers_know =
        move-all
          (λ j z. ProducerKnows size (length s.popped) (set s.ring.buffer (at % size) w) s.pushed z)
          s.producers k c knows
          (λ j ne.
            ProducerKnows-set size (length s.popped) s.ring.buffer s.pushed at w (s.producers j)
              here bound (v.apart k j at ne fills) (v.producers_know j));
    apart =
        move-apart s.producers k c
          (λ j p ne f g. v.apart k j p ne (subst (Fills (s.producers k)) (same p f) fills) g)
          v.apart;
    consumer_knows =
        ConsumerKnows-set size (length s.popped) s.ring.head s.ring.buffer s.pushed at w s.consumer
          here pos claim.filling v.consumer_knows;
  }
    where
      claim :
          Claim size
            (length s.popped)
            s.ring.buffer
            s.pushed
            (Fills-Claim (s.producers k) at (v.producers_know k) fills).0
            at
      claim = (Fills-Claim (s.producers k) at (v.producers_know k) fills).1

      bound : length s.pushed ≤ length s.popped + size
      bound = omega (arith, ap length v.split, length-append s.popped v.waiting, v.room)

      here : InTurn size (length s.popped) at
      here = (claim.from, omega (arith, bound, get_elem?_bound s.pushed at claim.mine))
