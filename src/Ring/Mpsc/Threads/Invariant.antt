-- ===== src/Ring/Mpsc/Threads/Invariant.antt =====
-- What each thread knows while it is in a call, and the invariant of the ring and its threads.
use my_arbitrager.Prelude.{
  ℕ, suc, ◌+◌, ◌%◌, ◌≤◌, ◌<◌, ◌≡◌, ◌≢◌, sym, ap, ◌∙◌, ◌⊎◌, inl, inr, List, ◌++◌, some, arith,
  length, length-append, get_elem?, get_elem?-set_ne, get_elem?-append_left, of_some, set,
}
use native.Mathlib.Decide.{dec_lt}
use my_arbitrager.Ring.Mpsc.{Slot}
use my_arbitrager.Ring.Mpsc.Slots.{slots_apart}
use my_arbitrager.Ring.Mpsc.Threads.{Producer, Consumer, System}

-- The position `p` is one of the `size` positions from `low` on.
abbrev pub InTurn : ℕ → ℕ → ℕ → Type 0
InTurn size low p = (low ≤ p) × (p < low + size)

-- The slot of position `p` carries `p` while it is free or being filled.
pub record Filling {A : Type 0} (size : ℕ) (buffer : List (Slot A)) (p : ℕ) : Type 0 where
  pub slot : Slot A
  pub found : get_elem? buffer (p % size) ≡ some slot
  pub number : slot.sequence ≡ p

-- It carries `p + 1` when it holds the entry claimed at `p`.
pub record Published {A : Type 0} (size : ℕ) (buffer : List (Slot A)) (pushed : List A) (p : ℕ)
    : Type 0 where
  pub slot : Slot A
  pub found : get_elem? buffer (p % size) ≡ some slot
  pub number : slot.sequence ≡ suc p
  pub holds : get_elem? pushed p ≡ some slot.item

abbrev pub SlotOf : {A : Type 0} → ℕ → List (Slot A) → List A → ℕ → Type 0
SlotOf size buffer pushed p = Filling size buffer p ⊎ Published size buffer pushed p

-- A producer's claim to position `at` for `item`.
pub record Claim {A : Type 0} (size low : ℕ) (buffer : List (Slot A)) (pushed : List A) (item : A)
    (at : ℕ) : Type 0 where
  pub from : low ≤ at
  pub mine : get_elem? pushed at ≡ some item
  pub filling : Filling size buffer at

abbrev pub ProducerKnows : {A : Type 0} → ℕ → ℕ → List (Slot A) → List A → Producer A → Type 0
ProducerKnows size low buffer pushed Producer.idle = Unit
ProducerKnows size low buffer pushed (Producer.looping item at) = at ≤ length pushed
ProducerKnows size low buffer pushed (Producer.reloading item) = Unit
ProducerKnows size low buffer pushed (Producer.checked item at) =
    (at ≤ length pushed) × (at < low + size)
ProducerKnows size low buffer pushed (Producer.claimed item at) =
    Claim size low buffer pushed item at
ProducerKnows size low buffer pushed (Producer.written item at) =
    (c : Claim size low buffer pushed item at) × (c.filling.slot.item ≡ item)

abbrev pub ConsumerKnows : {A : Type 0} → ℕ → ℕ → ℕ → List (Slot A) → List A → Consumer A → Type 0
ConsumerKnows size low head buffer pushed Consumer.idle = head ≡ low
ConsumerKnows size low head buffer pushed (Consumer.ready at) =
    (at ≡ head) × (head ≡ low) × Published size buffer pushed at
ConsumerKnows size low head buffer pushed (Consumer.taken item at) =
    (at ≡ head) × (head ≡ low) × (p : Published size buffer pushed at) × (p.slot.item ≡ item)
ConsumerKnows size low head buffer pushed (Consumer.reclaimed at) = (at ≡ head) × (low ≡ suc head)

-- The position that a producer fills.
abbrev pub Fills : {A : Type 0} → Producer A → ℕ → Type 0
Fills Producer.idle p = ⊥
Fills (Producer.looping item at) p = ⊥
Fills (Producer.reloading item) p = ⊥
Fills (Producer.checked item at) p = ⊥
Fills (Producer.claimed item at) p = at ≡ p
Fills (Producer.written item at) p = at ≡ p

pub record Inv {A : Type 0} (size : ℕ) (s : System A) : Type 0 where
  pub waiting : List A
  pub split : s.pushed ≡ s.popped ++ waiting
  pub room : length waiting ≤ size
  pub tail_at : s.ring.tail ≡ length s.pushed
  pub sized : length s.ring.buffer ≡ size
  pub slots : (p : ℕ) → InTurn size (length s.popped) p → SlotOf size s.ring.buffer s.pushed p
  pub producers_know :
      (k : ℕ) → ProducerKnows size (length s.popped) s.ring.buffer s.pushed (s.producers k)
  pub apart : (j k p : ℕ) → j ≢ k → Fills (s.producers j) p → Fills (s.producers k) p → ⊥
  pub consumer_knows :
      ConsumerKnows size (length s.popped) s.ring.head s.ring.buffer s.pushed s.consumer

-- Two positions of one turn have different slots.
pub turn_apart :
    (size low p q : ℕ) → InTurn size low p → InTurn size low q → p ≢ q → p % size ≢ q % size
turn_apart size low p q a b ne = elim (dec_lt p q) [
  | yes lt ↦ slots_apart size p q low a.0 lt b.1
  | no ge ↦ λ e. slots_apart size q p low b.0 (omega arith) a.1 (sym e)
]

-- A change of the slot of position `q` leaves what is known of another position of the turn.
module _ {A : Type 0} (size : ℕ) {low : ℕ} (buffer : List (Slot A)) (q : ℕ) (v : Slot A)
    (iq : InTurn size low q) where
  abbrev pub changed : List (Slot A)
  changed = set buffer (q % size) v

  pub elsewhere :
      (p : ℕ)
      → InTurn size low p
      → p ≢ q
      → get_elem? changed (p % size) ≡ get_elem? buffer (p % size)
  elsewhere p ip ne =
      get_elem?-set_ne buffer (q % size) (p % size) v
        (λ e. turn_apart size low p q ip iq ne (sym e))

  pub Filling-set :
      (p : ℕ) → InTurn size low p → p ≢ q → Filling size buffer p → Filling size changed p
  Filling-set p ip ne f = record {
    slot = f.slot;
    found = elsewhere p ip ne ∙ f.found;
    number = f.number;
  }

  pub Published-set :
      {pushed : List A} (p : ℕ)
      → InTurn size low p
      → p ≢ q
      → Published size buffer pushed p
      → Published size changed pushed p
  Published-set p ip ne f = record {
    slot = f.slot;
    found = elsewhere p ip ne ∙ f.found;
    number = f.number;
    holds = f.holds;
  }

  pub SlotOf-set :
      {pushed : List A} (p : ℕ)
      → InTurn size low p
      → p ≢ q
      → SlotOf size buffer pushed p
      → SlotOf size changed pushed p
  SlotOf-set p ip ne (inl f) = inl (Filling-set p ip ne f)
  SlotOf-set p ip ne (inr f) = inr (Published-set p ip ne f)

-- More pushed entries leave all that is known.
module _ {A : Type 0} {size : ℕ} {buffer : List (Slot A)} {pushed : List A} (more : List A) where
  pub Published-append :
      {p : ℕ} → Published size buffer pushed p → Published size buffer (pushed ++ more) p
  Published-append {p} f = record {
    slot = f.slot;
    found = f.found;
    number = f.number;
    holds = get_elem?-append_left pushed more p f.holds;
  }

  pub Claim-append :
      {low at : ℕ} {item : A}
      → Claim size low buffer pushed item at
      → Claim size low buffer (pushed ++ more) item at
  Claim-append {at} c = record {
    from = c.from;
    mine = get_elem?-append_left pushed more at c.mine;
    filling = c.filling;
  }

  pub SlotOf-append : {p : ℕ} → SlotOf size buffer pushed p → SlotOf size buffer (pushed ++ more) p
  SlotOf-append (inl f) = inl f
  SlotOf-append (inr f) = inr (Published-append f)

module _ {A : Type 0} (size : ℕ) (buffer : List (Slot A)) (pushed more : List A) (low : ℕ) where
  pub ProducerKnows-append :
      (c : Producer A)
      → ProducerKnows size low buffer pushed c
      → ProducerKnows size low buffer (pushed ++ more) c
  ProducerKnows-append Producer.idle h = tt
  ProducerKnows-append (Producer.looping item at) h = omega (arith, length-append pushed more)
  ProducerKnows-append (Producer.reloading item) h = tt
  ProducerKnows-append (Producer.checked item at) (h, i) =
      (omega (arith, h, length-append pushed more), i)
  ProducerKnows-append (Producer.claimed item at) h = Claim-append more h
  ProducerKnows-append (Producer.written item at) (h, e) = (
    record {
      from = h.from;
      mine = get_elem?-append_left pushed more at h.mine;
      filling = h.filling;
    },
    e,
  )

  pub ConsumerKnows-append :
      (head : ℕ) (c : Consumer A)
      → ConsumerKnows size low head buffer pushed c
      → ConsumerKnows size low head buffer (pushed ++ more) c
  ConsumerKnows-append head Consumer.idle h = h
  ConsumerKnows-append head (Consumer.ready at) (e, e', h) = (e, e', Published-append more h)
  ConsumerKnows-append head (Consumer.taken item at) (e, e', h, i) = (
    e,
    e',
    record {
      slot = h.slot;
      found = h.found;
      number = h.number;
      holds = get_elem?-append_left pushed more at h.holds;
    },
    i,
  )
  ConsumerKnows-append head (Consumer.reclaimed at) h = h

-- A slot is not both being filled and published.
pub not_both :
    {A : Type 0} {size : ℕ} {buffer : List (Slot A)} {pushed : List A} {p : ℕ}
    → Filling size buffer p
    → Published size buffer pushed p
    → ⊥
not_both f g =
    absurd (omega (arith, f.number, g.number, ap Slot.sequence (of_some (sym f.found ∙ g.found))))
