-- ===== src/Tracker/Threads.antt =====
-- `ExchangeStats::record` of src/queue_latency_tracker.hpp under any number of threads: each step makes one
-- access to what they share. An exchange that fails gives the thread the value of that moment; it may
-- also fail with no reason, as a weak one does.
pub mod Calls
pub mod Totals
pub mod Extremes
pub mod Slots
pub mod Settled
pub mod Alone
use my_arbitrager.Prelude.{
  ℕ, ◌+◌, ◌%◌, ◌≤◌, ◌<◌, ◌≡◌, arith, true, false, List, [], ◌∷◌, ◌++◌, length, set, ltb,
}
use my_arbitrager.Prelude.Bits.{add64}
use my_arbitrager.Prelude.Family.{move}
use my_arbitrager.Tracker.{ExchangeStats, blank, sample_buffer_size}

-- Where a thread stands in `record`, with its live variables.
pub data Thread : Type 0 where
  idle : Thread
  totalling : (latency_ns queue_occupancy : ℕ) → Thread  -- before the addition to `total_ns`
  min_loading : (latency_ns queue_occupancy : ℕ) → Thread  -- before the load of `min_ns`
  min_trying : (latency_ns queue_occupancy current_min : ℕ) → Thread  -- at the test of its loop
  max_loading : (latency_ns queue_occupancy : ℕ) → Thread
  max_trying : (latency_ns queue_occupancy current_max : ℕ) → Thread
  indexing : (latency_ns queue_occupancy : ℕ) → Thread  -- before the addition to `sample_index`
  sample_writing : (latency_ns queue_occupancy idx : ℕ) → Thread
  occupancy_writing : (latency_ns queue_occupancy idx : ℕ) → Thread

-- `recorded` has the arguments of all calls so far, the last one first, and `tickets` those of the calls
-- that have their index, in the order in which they got it.
pub record System : Type 0 where
  pub stats : ExchangeStats
  pub threads : ℕ → Thread
  pub recorded : List (ℕ × ℕ)
  pub tickets : List (ℕ × ℕ)

-- A step of one of `n` threads.
pub data Step (n : ℕ) (s : System) : System → Type 0 where
  count_call :
      (k l o : ℕ)
      → k < n
      → s.threads k ≡ Thread.idle
      → Step n s (record s {
        stats = record s.stats { count = add64 s.stats.count 1 };
        threads = move s.threads k (Thread.totalling l o);
        recorded = (l, o) ∷ s.recorded;
      })
  add_total :
      (k : ℕ) {l o : ℕ}
      → k < n
      → s.threads k ≡ Thread.totalling l o
      → Step n s (record s {
        stats = record s.stats { total_ns = add64 s.stats.total_ns l };
        threads = move s.threads k (Thread.min_loading l o);
      })
  load_min :
      (k : ℕ) {l o : ℕ}
      → k < n
      → s.threads k ≡ Thread.min_loading l o
      → Step n s (record s { threads = move s.threads k (Thread.min_trying l o s.stats.min_ns) })
  min_stands :
      (k : ℕ) {l o c : ℕ}
      → k < n
      → s.threads k ≡ Thread.min_trying l o c
      → ltb l c ≡ false
      → Step n s (record s { threads = move s.threads k (Thread.max_loading l o) })
  min_fail :
      (k : ℕ) {l o c : ℕ}
      → k < n
      → s.threads k ≡ Thread.min_trying l o c
      → ltb l c ≡ true
      → Step n s (record s { threads = move s.threads k (Thread.min_trying l o s.stats.min_ns) })
  min_exchange :
      (k : ℕ) {l o c : ℕ}
      → k < n
      → s.threads k ≡ Thread.min_trying l o c
      → ltb l c ≡ true
      → s.stats.min_ns ≡ c
      → Step n s (record s {
        stats = record s.stats { min_ns = l };
        threads = move s.threads k (Thread.max_loading l o);
      })
  load_max :
      (k : ℕ) {l o : ℕ}
      → k < n
      → s.threads k ≡ Thread.max_loading l o
      → Step n s (record s { threads = move s.threads k (Thread.max_trying l o s.stats.max_ns) })
  max_stands :
      (k : ℕ) {l o c : ℕ}
      → k < n
      → s.threads k ≡ Thread.max_trying l o c
      → ltb c l ≡ false
      → Step n s (record s { threads = move s.threads k (Thread.indexing l o) })
  max_fail :
      (k : ℕ) {l o c : ℕ}
      → k < n
      → s.threads k ≡ Thread.max_trying l o c
      → ltb c l ≡ true
      → Step n s (record s { threads = move s.threads k (Thread.max_trying l o s.stats.max_ns) })
  max_exchange :
      (k : ℕ) {l o c : ℕ}
      → k < n
      → s.threads k ≡ Thread.max_trying l o c
      → ltb c l ≡ true
      → s.stats.max_ns ≡ c
      → Step n s (record s {
        stats = record s.stats { max_ns = l };
        threads = move s.threads k (Thread.indexing l o);
      })
  take_index :
      (k : ℕ) {l o : ℕ}
      → k < n
      → s.threads k ≡ Thread.indexing l o
      → Step n s (record s {
        stats = record s.stats { sample_index = add64 s.stats.sample_index 1 };
        threads =
            move s.threads k
              (Thread.sample_writing l o (s.stats.sample_index % sample_buffer_size));
        tickets = s.tickets ++ (l, o) ∷ [];
      })
  write_sample :
      (k : ℕ) {l o idx : ℕ}
      → k < n
      → s.threads k ≡ Thread.sample_writing l o idx
      → Step n s (record s {
        stats = record s.stats { samples = set s.stats.samples idx l };
        threads = move s.threads k (Thread.occupancy_writing l o idx);
      })
  write_occupancy :
      (k : ℕ) {l o idx : ℕ}
      → k < n
      → s.threads k ≡ Thread.occupancy_writing l o idx
      → Step n s (record s {
        stats = record s.stats { occupancy_samples = set s.stats.occupancy_samples idx o };
        threads = move s.threads k Thread.idle;
      })

-- Fresh statistics, with every thread outside `record`.
abbrev pub start : System
start = record { stats = blank; threads = λ _. Thread.idle; recorded = []; tickets = [] }

pub data Reach (n : ℕ) : System → Type 0 where
  here : Reach n start
  next : {s t : System} → Reach n s → Step n s t → Reach n t

abbrev pub Settled : System → Type 0
Settled s = (k : ℕ) → s.threads k ≡ Thread.idle

-- The number of calls never falls.
pub Step-grows : {n : ℕ} {s t : System} → Step n s t → length s.recorded ≤ length t.recorded
Step-grows (count_call k l o h e) = omega arith
Step-grows (add_total k h e) = omega arith
Step-grows (load_min k h e) = omega arith
Step-grows (min_stands k h e f) = omega arith
Step-grows (min_fail k h e f) = omega arith
Step-grows (min_exchange k h e f g) = omega arith
Step-grows (load_max k h e) = omega arith
Step-grows (max_stands k h e f) = omega arith
Step-grows (max_fail k h e f) = omega arith
Step-grows (max_exchange k h e f g) = omega arith
Step-grows (take_index k h e) = omega arith
Step-grows (write_sample k h e) = omega arith
Step-grows (write_occupancy k h e) = omega arith
