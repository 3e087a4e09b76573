-- ===== src/Ring/Mpsc/Refine/Run.antt =====
-- Any sequence of calls of one thread.
use my_arbitrager.Prelude.{
  ℕ, ◌+◌, ◌^◌, ◌≤◌, ◌<◌, ◌≡◌, refl, List, [], ◌∷◌, some, arith, length, length-append,
}
use my_arbitrager.Prelude.Bits.{IsPow2}
use my_arbitrager.Queue
use my_arbitrager.Queue.{Call, put, take, Reply}
use my_arbitrager.Ring.Mpsc.{Mpsc, create, run, capacity}
use my_arbitrager.Ring.Mpsc.Threads.Safety.{start-Inv}
use my_arbitrager.Ring.Mpsc.Refine.{Represents}
use my_arbitrager.Ring.Mpsc.Refine.Push.{try_push-refines}
use my_arbitrager.Ring.Mpsc.Refine.Pop.{try_pop-refines}

pub create-Represents :
    {A : Type 0} (size : ℕ) (blank : A) → Represents size (create size blank) [] []
create-Represents size blank = record {
  inv = start-Inv size blank;
  published = λ q from to. absurd (omega (arith, from, to));
}

length-offer :
    {A : Type 0} (capacity : ℕ) (xs : List A) (x : A)
    → length (Queue.offer capacity xs x).1 ≤ length xs + 1
unfolding Queue.offer
length-offer capacity xs x = ground (arith, length-append xs (x ∷ []))

module _ {A : Type 0} {size : ℕ} (p : IsPow2 size) (two : 2 ≤ size) where
  run_from-eq-run :
      (calls : List (Call A)) {r : Mpsc A} {popped : List A} (xs : List A)
      → Represents size r popped xs
      → length popped + length xs + length calls + size < 2 ^ 63
      → run size r calls ≡ some (Queue.run size xs calls)
  unfolding run Queue.run
  run_from-eq-run [] xs v short = refl
  run_from-eq-run (put x ∷ calls) {popped = popped} xs v short =
      let (r', e, v') = try_push-refines p v x two (omega (arith, short)) in
      rw e (
        rw (
          run_from-eq-run calls (Queue.offer size xs x).1 v'
            (omega (arith, short, length-offer size xs x))))
  run_from-eq-run (take ∷ calls) xs v short =
      let (r', e, popped', same, v') = try_pop-refines p xs v (omega (arith, short)) in
      rw e (rw (run_from-eq-run calls (Queue.poll xs).1 v' (omega (arith, same, short))))

  -- From the constructor on, and for fewer than 2 ^ 63 calls and slots, calls made one at a time never
  -- leave the buffer, push in one turn of the loop, and return exactly what a queue of capacity `Size`
  -- returns.
  pub run-eq-run :
      (blank : A) (calls : List (Call A))
      → length calls + size < 2 ^ 63
      → run size (create size blank) calls ≡ some (Queue.run size [] calls)
  run-eq-run blank calls short =
      run_from-eq-run calls [] (create-Represents size blank) (omega (arith, short))
