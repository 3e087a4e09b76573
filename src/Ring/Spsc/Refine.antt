-- ===== src/Ring/Spsc/Refine.antt =====
-- A ring of `Size` slots is a bounded queue of capacity `Size - 1`.
use my_arbitrager.Prelude.{
  ℕ, ◌+◌, ◌-◌, ◌<◌, ◌≤◌, ◌≡◌, refl, ◌∙◌, true, false, List, [], ◌∷◌, ◌++◌, some, arith, length,
  length-append, length-replicate, length-set, set, store_in_bounds, ◌==◌, leb, if◌then◌else◌,
}
use my_arbitrager.Prelude.Bits.{IsPow2, IsPow2-bounds, mask-sub}
use native.Mathlib.Decide.{dec_le}
use my_arbitrager.Queue
use my_arbitrager.Queue.{Call, put, take, Reply}
use my_arbitrager.Ring.Window.{step, wrap, next_index, next_index-eq-step, Holds, Holds-set}
use my_arbitrager.Ring.Spsc.{Spsc, create, capacity, try_push, try_pop, empty, full, count, run}

-- The ring holds the entries `xs`, oldest first.
pub record Represents {ℓ} {A : Type ℓ} (size : ℕ) (r : Spsc A) (xs : List A) : Type ℓ where
  pub sized : length r.buffer ≡ size
  pub head_in : r.head < size
  pub room : length xs < size
  pub tail_at : r.tail ≡ wrap size (r.head + length xs)
  pub held : Holds size r.buffer r.head xs

module _ {ℓ} {A : Type ℓ} {size : ℕ} (p : IsPow2 size) where
  pub create-Represents : (blank : A) → Represents size (create size blank) []
  unfolding create
  create-Represents blank = record {
    sized = length-replicate size blank;
    head_in = (IsPow2-bounds p).0;
    room = (IsPow2-bounds p).0;
    tail_at = ground (arith, IsPow2-bounds p);
    held = tt;
  }

  module _ {r : Spsc A} {xs : List A} (v : Represents size r xs) where
    abbrev pub pushed : A → Spsc A
    pushed x = record r { buffer = set r.buffer r.tail x; tail = step size r.tail }

    pub pushed-Represents :
        (x : A) → length xs + 1 < size → Represents size (pushed x) (xs ++ x ∷ [])
    pushed-Represents x fits = record {
      sized = ground (arith, length-set r.buffer r.tail x);
      head_in = v.head_in;
      room = omega (arith, length-append xs (x ∷ []));
      tail_at = ground (arith, length-append xs (x ∷ []));
      held = Holds-set size r.buffer x xs r.head r.tail v.sized v.head_in v.room v.tail_at v.held;
    }

    -- The test of the code for a full buffer is the one on the number of entries.
    pub next-head : (next_index size r.tail == r.head) ≡ leb (capacity size) (length xs)
    unfolding capacity
    next-head = ground (arith, next_index-eq-step r.tail p)

    try_push-full : (x : A) → size ≤ length xs + 1 → try_push size r x ≡ some (false, r)
    unfolding try_push capacity
    try_push-full x h = rw (next-head ∙ leb_true) refl
      where
        leb_true : leb (size - 1) (length xs) ≡ true
        leb_true = ground arith

    try_push-stored : (x : A) → length xs + 1 < size → try_push size r x ≡ some (true, pushed x)
    unfolding try_push capacity
    try_push-stored x h =
        rw
          (
            next-head ∙ leb_false,
            store_in_bounds r.buffer r.tail x (ground arith),
            next_index-eq-step r.tail p (ground arith),
          )
          refl
      where
        leb_false : leb (size - 1) (length xs) ≡ false
        leb_false = ground arith

    -- `try_push` returns what `offer` returns, never leaves the buffer, and keeps the entries.
    pub try_push-refines :
        (x : A)
        → let (ok, ys) = Queue.offer (capacity size) xs x in
          (r' : Spsc A) × (try_push size r x ≡ some (ok, r')) × Represents size r' ys
    unfolding Queue.offer capacity
    try_push-refines x = elim (dec_le size (length xs + 1)) [
      | yes h ↦ rw (leb_true h) (r, try_push-full x h, v)
      | no h ↦
          rw (leb_false h)
            (pushed x, try_push-stored x (omega arith), pushed-Represents x (omega arith))
    ]
      where
        leb_true : size ≤ length xs + 1 → leb (size - 1) (length xs) ≡ true
        leb_true h = ground arith

        leb_false : ¬ (size ≤ length xs + 1) → leb (size - 1) (length xs) ≡ false
        leb_false h = ground arith

  -- `try_pop` returns what `poll` returns, never leaves the buffer, and keeps the other entries.
  pub try_pop-refines :
      {r : Spsc A} (xs : List A)
      → Represents size r xs
      → let (x, ys) = Queue.poll xs in
        (r' : Spsc A) × (try_pop size r ≡ some (x, r')) × Represents size r' ys
  unfolding Queue.poll try_pop
  try_pop-refines {r} [] v = (r, ground arith, v)
  try_pop-refines {r} (x ∷ xs) v = (
    record r { head = step size r.head },
    ground (arith, next_index-eq-step r.head p),
    record {
      sized = v.sized;
      head_in = ground arith;
      room = omega arith;
      tail_at = ground arith;
      held = v.held.1;
    },
  )

  pub count_lem :
      (r : Spsc A)
      → r.tail < size
      → r.head < size
      → count size r ≡ (if leb r.head r.tail then r.tail - r.head else r.tail + size - r.head)
  unfolding count
  count_lem r t h = mask-sub r.tail r.head p t h

  -- The three queries are exact on a ring that no other thread is using.
  queries_exact :
      {r : Spsc A} (xs : List A)
      → Represents size r xs
      → (count size r ≡ length xs)
        × (empty size r ≡ (length xs == 0))
        × (full size r ≡ (length xs == capacity size))
  unfolding empty full capacity
  queries_exact {r} xs v = (
    count_lem r (ground arith) v.head_in ∙ ground arith,
    ground arith,
    ground (arith, next_index-eq-step r.tail p),
  )

  run-refines_from :
      (calls : List (Call A)) {r : Spsc A} (xs : List A)
      → Represents size r xs
      → run size r calls ≡ some (Queue.run (capacity size) xs calls)
  unfolding run Queue.run
  run-refines_from [] xs v = refl
  run-refines_from (put x ∷ calls) xs v =
      let (r', e, v') = try_push-refines v x in
      rw e (rw (run-refines_from calls (Queue.offer (capacity size) xs x).1 v'))
  run-refines_from (take ∷ calls) xs v =
      let (r', e, v') = try_pop-refines xs v in
      rw e (rw (run-refines_from calls (Queue.poll xs).1 v'))

  -- From the constructor on, no sequence of calls goes out of bounds, and the calls return exactly
  -- what a queue of capacity `Size - 1` returns.
  pub run-refines :
      (blank : A) (calls : List (Call A))
      → run size (create size blank) calls ≡ some (Queue.run (capacity size) [] calls)
  run-refines blank calls = run-refines_from calls [] (create-Represents blank)
