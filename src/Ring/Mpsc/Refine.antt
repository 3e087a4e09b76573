-- ===== src/Ring/Mpsc/Refine.antt =====
-- Called by one thread at a time, the ring is a bounded queue of capacity `Size`. A call is a run of
-- the steps of one thread, so the invariant of the interleaved calls carries it.
pub mod Push
pub mod Pop
pub mod Run
use my_arbitrager.Prelude.{ℕ, ◌+◌, ◌≤◌, ◌<◌, List, ◌++◌, length}
use my_arbitrager.Ring.Mpsc.{Mpsc}
use my_arbitrager.Ring.Mpsc.Threads.{Producer, Consumer, System}
use my_arbitrager.Ring.Mpsc.Threads.Invariant.{Published, Inv}

-- No thread is in a call.
abbrev pub resting : {A : Type 0} → Mpsc A → (pushed popped : List A) → System A
resting r pushed popped = record {
  ring = r;
  producers = λ _. Producer.idle;
  consumer = Consumer.idle;
  pushed = pushed;
  popped = popped;
}

-- The ring holds the entries `xs`, oldest first, and `popped` were in it before.
pub record Represents {A : Type 0} (size : ℕ) (r : Mpsc A) (popped xs : List A) : Type 0 where
  pub inv : Inv size (resting r (popped ++ xs) popped)
  pub published :
      (q : ℕ)
      → length popped ≤ q
      → q < length popped + length xs
      → Published size r.buffer (popped ++ xs) q
