-- ===== src/Latency/Monitor/Drain.antt =====
-- The monitoring thread empties the sample buffer.
use my_arbitrager.Prelude.{ℕ, suc, ◌≡◌, refl, List, [], ◌∷◌, some, arith, length}
use my_arbitrager.Prelude.Bits.{IsPow2}
use my_arbitrager.Queue
use my_arbitrager.Ring.Spsc.Refine.{Represents, try_pop-refines}
use my_arbitrager.Ring.Blocking
use my_arbitrager.Ring.Blocking.{Blocking}
use my_arbitrager.Latency.Measurement.{Measurement}
use my_arbitrager.Latency.Monitor.{Monitor, buffer_size, process_sample, drain}

pub buffer_size-IsPow2 : IsPow2 buffer_size
buffer_size-IsPow2 = record { exponent = 20; small = omega arith; eq = refl }

-- Every sample is processed, oldest first.
unfoldable pub process_all : ℕ → List Measurement → Monitor → Monitor
process_all f [] s = s
process_all f (m ∷ ms) s = process_all f ms (process_sample f m s)

-- With as much fuel as the buffer has entries and one, `drain` processes exactly these, in order, never
-- leaves the buffer, and leaves it empty.
drain-process_all :
    (f : ℕ) (ms : List Measurement) (b : Blocking Measurement) (s : Monitor)
    → Represents buffer_size b.ring ms
    → (b' : Blocking Measurement) × (drain (suc (length ms)) f b s
        ≡ some (record (process_all f ms s) { sample_buffer = some b' }))
      × Represents buffer_size b'.ring []
unfolding drain process_all Queue.poll Blocking.try_pop
drain-process_all f [] b s v =
    let (r, e, w) = try_pop-refines buffer_size-IsPow2 [] v in (record b { ring = r }, rw e refl, w)
drain-process_all f (m ∷ ms) b s v =
    let (r, e, w) = try_pop-refines buffer_size-IsPow2 (m ∷ ms) v in
    let (b', e', w') = drain-process_all f ms (record b { ring = r }) (process_sample f m s) w in
    (b', rw e e', w')
