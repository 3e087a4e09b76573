-- ===== src/Ring/Spsc/Threads/Invariant.antt =====
-- What each thread knows while it is in a call, and the invariant of the ring and its two threads.
use my_arbitrager.Prelude.{
  ℕ, ◌+◌, ◌<◌, ◌≡◌, sym, ap, ◌∙◌, List, [], ◌∷◌, ◌++◌, some, arith, length, length-append,
  get_elem?, of_some,
}
use my_arbitrager.Ring.Window.{step, Holds}
use my_arbitrager.Ring.Spsc.Refine.{Represents}
use my_arbitrager.Ring.Spsc.Threads.{Producer, Consumer, System}

-- What the producer knows: it has seen room, and `tail_` is still where it loaded it.
abbrev pub ProducerKnows : {A : Type 0} → ℕ → ℕ → List A → List A → Producer A → Type 0
ProducerKnows size tail buffer q Producer.idle = Unit
ProducerKnows size tail buffer q (Producer.claimed item t n) =
    (t ≡ tail) × (n ≡ step size tail) × (length q + 1 < size)
ProducerKnows size tail buffer q (Producer.written item n) =
    (n ≡ step size tail) × (length q + 1 < size) × (get_elem? buffer tail ≡ some item)

-- What the consumer knows: the oldest entry is still there.
abbrev pub ConsumerKnows : {A : Type 0} → ℕ → List A → Consumer A → Type 0
ConsumerKnows head q Consumer.idle = Unit
ConsumerKnows head q (Consumer.claimed h) = (h ≡ head) × (0 < length q)
ConsumerKnows {A} head q (Consumer.reading h item) =
    (h ≡ head) × (rest : List A) × (q ≡ item ∷ rest)

pub record Inv {A : Type 0} (size : ℕ) (s : System A) : Type 0 where
  pub queue : List A
  pub holds : Represents size s.ring queue
  pub split : s.pushed ≡ s.popped ++ queue
  pub producer_knows : ProducerKnows size s.ring.tail s.ring.buffer queue s.producer
  pub consumer_knows : ConsumerKnows s.ring.head queue s.consumer

-- The producer only adds room to fear, and the consumer only takes it away.
pub ConsumerKnows-append :
    {A : Type 0} (head : ℕ) (q : List A) (x : A) (c : Consumer A)
    → ConsumerKnows head q c
    → ConsumerKnows head (q ++ x ∷ []) c
ConsumerKnows-append head q x Consumer.idle k = tt
ConsumerKnows-append head q x (Consumer.claimed h) k =
    (k.0, omega (arith, length-append q (x ∷ [])))
ConsumerKnows-append head q x (Consumer.reading h item) (e, rest, f) =
    (e, rest ++ x ∷ [], ap (λ l. l ++ x ∷ []) f)

pub ProducerKnows-tail :
    {A : Type 0} (size tail : ℕ) (buffer : List A) (x : A) (q : List A) (c : Producer A)
    → ProducerKnows size tail buffer (x ∷ q) c
    → ProducerKnows size tail buffer q c
ProducerKnows-tail size tail buffer x q Producer.idle k = tt
ProducerKnows-tail size tail buffer x q (Producer.claimed item t n) k = (k.0, k.1, omega arith)
ProducerKnows-tail size tail buffer x q (Producer.written item n) k = (k.0, omega arith, k.2)

pub oldest :
    {A : Type 0} (size head : ℕ) (buffer : List A) {item : A} (q : List A)
    → Holds size buffer head q
    → get_elem? buffer head ≡ some item
    → 0 < length q
    → (rest : List A) × (q ≡ item ∷ rest)
oldest size head buffer [] held at some_left = absurd (omega arith)
oldest size head buffer (y ∷ rest) held at some_left =
    (rest, ap (λ x. x ∷ rest) (of_some (sym held.0 ∙ at)))
