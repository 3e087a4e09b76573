-- ===== src/Tests/Mpsc.antt =====
-- The ring of src/mpsc_ring_buffer.hpp with two slots, and the shared queue on one of 4096.
use my_arbitrager.Prelude.{
  ℕ, ◌-◌, ◌≤◌, ◌≡◌, ◌≢◌, refl, true, false, List, [], ◌∷◌, ◌++◌, some, arith, length, store, take,
}
use my_arbitrager.Prelude.Bits.{IsPow2}
use my_arbitrager.Queue
use my_arbitrager.Queue.{Call, put, Reply}
use my_arbitrager.Ring.Mpsc.{
  create, fresh_slots, slot_index, run, try_push, push_loop, fill, try_pop, reclaim,
}
use my_arbitrager.Ring.Mpsc.Refine.Run.{run-eq-run}
use my_arbitrager.Ring.Mpsc.Threads.{
  Producer, Consumer, System, move, push_call, push_check, push_claim, push_write, push_publish,
  pop_check, Reach, here, next,
}
use my_arbitrager.Ring.Mpsc.Threads.Safety.{producing, consuming, first_in_first_out, one_owner}
use my_arbitrager.Intake
use my_arbitrager.Intake.Mpsc.{MpscQueue, Arrival, fresh, push_all, drain_all}
use my_arbitrager.Intake.Mpsc.Same.{recorded, ring_like_mutex}
use my_arbitrager.Tracker
use my_arbitrager.Tests.Pass.{cheap, dear}

two-IsPow2 : IsPow2 2
two-IsPow2 = record { exponent = 1; small = omega arith; eq = refl }

-- Producer 0 has pushed 7, which the consumer is about to read, while producer 1 is about to write 8.
abbrev both_own : System ℕ
both_own = record {
  ring = record {
    head = 0;
    tail = 2;
    buffer = record { sequence = 1; item = 7 } ∷ record { sequence = 1; item = 0 } ∷ [];
  };
  producers =
      move
        (move
          (move
            (move
              (move
                (move
                  (move (move (λ _. Producer.idle) 0 (Producer.looping 7 0)) 0
                    (Producer.checked 7 0))
                  0 (Producer.claimed 7 0))
                0 (Producer.written 7 0))
              0 Producer.idle)
            1 (Producer.looping 8 1))
          1 (Producer.checked 8 1))
        1 (Producer.claimed 8 1);
  consumer = Consumer.ready 0;
  pushed = 7 ∷ 8 ∷ [];
  popped = [];
}

both_own-Reach : Reach 2 0 both_own
unfolding create fresh_slots slot_index store
both_own-Reach =
    next
      (next
        (next
          (next
            (next
              (next
                (next (next (next here (push_call 0 7 refl)) (push_check 0 refl refl refl))
                  (push_claim 0 refl refl))
                (push_write 0 refl refl refl))
              (push_publish 0 refl refl refl))
            (push_call 1 8 refl))
          (push_check 1 refl refl refl))
        (push_claim 1 refl refl))
      (pop_check refl refl refl)

first_in_first_out_example :
    (waiting : List ℕ) × (7 ∷ 8 ∷ [] ≡ [] ++ waiting) × (length waiting ≤ 2)
first_in_first_out_example =
    first_in_first_out two-IsPow2 (omega arith) both_own-Reach (omega arith)

one_owner_example : slot_index 2 1 ≢ slot_index 2 0
one_owner_example =
    one_owner two-IsPow2 (omega arith) both_own-Reach (omega arith) (producing 1) consuming 1 0
      (λ e. cc) refl refl

abbrev calls : List (Call ℕ)
calls = put 7 ∷ put 8 ∷ put 9 ∷ Call.take ∷ put 9 ∷ []

run-eq-run_example : run 2 (create 2 0) calls ≡ some (Queue.run 2 [] calls)
run-eq-run_example = run-eq-run two-IsPow2 (omega arith) 0 calls (omega arith)

replies :
    run 2 (create 2 0) calls
    ≡ some (
        Reply.stored true
        ∷ Reply.stored true
        ∷ Reply.stored false
        ∷ Reply.taken (some 7)
        ∷ Reply.stored true
        ∷ [])
unfolding create fresh_slots slot_index store run try_push push_loop fill try_pop reclaim
replies = refl

abbrev arrivals : List (Arrival ℕ)
arrivals =
    record { ticker = cheap; start_tsc = 10; end_tsc = 30 }
    ∷ record { ticker = dear; start_tsc = 40; end_tsc = 45 }
    ∷ []

ring_like_mutex_example :
    let (count, queue, drained) = Intake.drain_all (take 4096 (cheap ∷ dear ∷ [])) [] in
    (s s' : MpscQueue ℕ) × (push_all 1_000_000_000 (fresh cheap) Tracker.create arrivals
      ≡ some (s, recorded 1_000_000_000 Tracker.create 0 arrivals))
    × (s.dropped_count ≡ 2 - 4096)
    × (drain_all 5000 s [] ≡ some (count, s', drained))
ring_like_mutex_example =
    ring_like_mutex 1_000_000_000 cheap Tracker.create arrivals [] 5000 (omega arith) (omega arith)
