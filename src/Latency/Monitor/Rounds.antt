-- ===== src/Latency/Monitor/Rounds.antt =====
-- The rounds of the monitoring thread.
use my_arbitrager.Prelude.{
  ℕ, zero, suc, ◌+◌, ◌<◌, ◌≤◌, ◌≡◌, refl, sym, subst, ap, append-nil, ◌∙◌, Bool, Bool-cases, inl,
  inr, if-true, if-false, true, List, [], ◌∷◌, ◌++◌, append_assoc, some, arith, All, length,
  length-append, ltb, leb, if◌then◌else◌,
}
use my_arbitrager.Market.{Double}
use my_arbitrager.Queue
use my_arbitrager.Ring.Spsc.{capacity}
use my_arbitrager.Ring.Spsc.Refine.{Represents, try_pop-refines}
use my_arbitrager.Ring.Blocking
use my_arbitrager.Ring.Blocking.{Blocking}
use my_arbitrager.Ring.Blocking.Refine.{push-refines-displace}
use my_arbitrager.Latency.Measurement.{Measurement}
use my_arbitrager.Latency.Monitor.{Monitor, buffer_size, process_sample, drain, submit}
use my_arbitrager.Latency.Monitor.Drain.{process_all, buffer_size-IsPow2}
use my_arbitrager.Latency.Monitor.Loop.{
  Round, StatsSnapshot, submit_all, drain_buffer, monitoring_loop, get_stats,
}

-- The buffer overwrites and holds these samples.
pub record Queued (b : Blocking Measurement) (ms : List Measurement) : Type 0 where
  pub overwrites : b.overwrite_on_full ≡ true
  pub represents : Represents buffer_size b.ring ms

-- The monitor with this buffer.
abbrev pub with_buffer : Monitor → Blocking Measurement → Monitor
with_buffer s b = record s { sample_buffer = some b }

process_sample-buffer :
    (f : ℕ) (m : Measurement) (s : Monitor) (b : Blocking Measurement)
    → process_sample f m (with_buffer s b) ≡ with_buffer (process_sample f m s) b
unfolding process_sample
process_sample-buffer f m s b =
    elim (Bool-cases (ltb s.samples_collected s.config.warmup_samples)) [
      | inl warm ↦ if-true _ _ warm ∙ sym (ap (λ t. with_buffer t b) (if-true _ _ warm))
      | inr cold ↦ if-false _ _ cold ∙ sym (ap (λ t. with_buffer t b) (if-false _ _ cold))
    ]

process_all-buffer :
    (f : ℕ) (ms : List Measurement) (s : Monitor) (b : Blocking Measurement)
    → process_all f ms (with_buffer s b) ≡ with_buffer (process_all f ms s) b
unfolding process_all
process_all-buffer f [] s b = refl
process_all-buffer f (m ∷ ms) s b =
    ap (process_all f ms) (process_sample-buffer f m s b)
    ∙ process_all-buffer f ms (process_sample f m s) b

process_all-append :
    (f : ℕ) (ms ns : List Measurement) (s : Monitor)
    → process_all f ns (process_all f ms s) ≡ process_all f (ms ++ ns) s
unfolding process_all
process_all-append f [] ns s = refl
process_all-append f (m ∷ ms) ns s = process_all-append f ms ns (process_sample f m s)

displace-room :
    (ms : List Measurement) (m : Measurement)
    → length ms + 1 < buffer_size
    → (Queue.displace (capacity buffer_size) ms m).1 ≡ ms ++ m ∷ []
unfolding Queue.displace capacity
displace-room [] m h = refl
displace-room (n ∷ ms) m h =
    ap (λ (r : Bool × List Measurement). r.1)
      (if-false {c = leb (capacity buffer_size) (length (n ∷ ms))} _ _ (ground arith))

submit_all-Queued :
    (ns : List Measurement) (ms : List Measurement) (s : Monitor) (b : Blocking Measurement)
    → Queued b ms
    → length ms + length ns < buffer_size
    → (b' : Blocking Measurement) × (submit_all ns (with_buffer s b) ≡ some (with_buffer s b'))
      × Queued b' (ms ++ ns)
unfolding submit_all submit
submit_all-Queued [] ms s b q short = (b, refl, subst (Queued b) (sym (append-nil ms)) q)
submit_all-Queued (n ∷ ns) ms s b q short =
    let (b1, e1, v1, drops, over) =
      push-refines-displace buffer_size-IsPow2 b ms n (omega arith) q.overwrites q.represents in
    let (b', e', q') =
      submit_all-Queued ns (ms ++ n ∷ []) s b1
        (record {
          overwrites = over;
          represents = subst (Represents buffer_size b1.ring) (displace-room ms n (omega arith)) v1;
        })
        (omega (arith, length-append ms (n ∷ []))) in
    (b', rw e1 e', subst (Queued b') (append_assoc ms (n ∷ []) ns) q')

drain-Queued :
    (fuel f : ℕ) (ms : List Measurement) (b : Blocking Measurement) (s : Monitor)
    → Queued b ms
    → length ms < fuel
    → (b' : Blocking Measurement) × (drain fuel f b s ≡ some (with_buffer (process_all f ms s) b'))
      × Queued b' []
unfolding drain process_all Queue.poll Blocking.try_pop
drain-Queued zero f ms b s q enough = elim enough [ ]
drain-Queued (suc fuel) f [] b s q enough =
    let (r, e, w) = try_pop-refines buffer_size-IsPow2 [] q.represents in
    (record b { ring = r }, rw e refl, record { overwrites = q.overwrites; represents = w })
drain-Queued (suc fuel) f (m ∷ ms) b s q enough =
    let (r, e, w) = try_pop-refines buffer_size-IsPow2 (m ∷ ms) q.represents in
    let (b', e', q') =
      drain-Queued fuel f ms (record b { ring = r }) (process_sample f m s)
        (record { overwrites = q.overwrites; represents = w }) (omega arith) in
    (b', rw e e', q')

-- All the samples of the rounds, in order.
abbrev pub all_completed : List Round → List Measurement
all_completed [] = []
all_completed (round ∷ rounds) = round.completed ++ all_completed rounds

drain_buffer-Queued :
    (fuel f : ℕ) (ms : List Measurement) (b : Blocking Measurement) (s : Monitor)
    → Queued b ms
    → length ms < fuel
    → (b' : Blocking Measurement) × (drain_buffer fuel f (with_buffer s b)
        ≡ some (with_buffer (process_all f ms s) b'))
      × Queued b' []
unfolding drain_buffer
drain_buffer-Queued fuel f ms b s q enough =
    let (b', e, q') = drain-Queued fuel f ms b (with_buffer s b) q enough in
    (b', e ∙ ap (λ (t : Monitor). some (with_buffer t b')) (process_all-buffer f ms s b), q')

module _ {D : Type 0} (d : Double D) (sqrt : D → D) (fuel f : ℕ) where
  -- Let fewer measurements than the buffer has slots be completed before each round of the
  -- monitoring thread, with every drain running alone on an overwriting buffer that starts empty,
  -- and with fuel for a full buffer. Then the thread's rounds and its last drain end without an
  -- index outside the buffer, every measurement has been processed, in order, and the buffer is
  -- empty.
  pub monitoring_loop-process_all :
      (rounds : List Round) (s : Monitor) (b : Blocking Measurement)
      → Queued b []
      → buffer_size ≤ fuel
      → All (λ (r : Round). length r.completed < buffer_size) rounds
      → (reports : List (StatsSnapshot D)) × (b' : Blocking Measurement) × (monitoring_loop d sqrt
            fuel f rounds
            (with_buffer s b)
          ≡ some (reports, with_buffer (process_all f (all_completed rounds) s) b'))
        × Queued b' []
  unfolding monitoring_loop
  monitoring_loop-process_all [] s b q enough short =
      let (b', e, q') = drain_buffer-Queued fuel f [] b s q (omega (arith, enough)) in
      ([], b', rw e refl, q')
  monitoring_loop-process_all (round ∷ rounds) s b q enough (short, shorts) =
      let (b1, e1, q1) = submit_all-Queued round.completed [] s b q (omega (arith, short)) in
      let (b2, e2, q2) =
        drain_buffer-Queued fuel f round.completed b1 s q1 (omega (arith, short, enough)) in
      let (reports, b', e', q') =
        monitoring_loop-process_all rounds (process_all f round.completed s) b2 q2 enough shorts in
      let all_reports : List (StatsSnapshot D) =
        if round.report_due
        then get_stats d sqrt (with_buffer (process_all f round.completed s) b2) ∷ reports
        else reports in
      (
        all_reports,
        b',
        rw (e1, e2, e')
            (ap (λ (t : Monitor). some (all_reports, with_buffer t b'))
              (process_all-append f round.completed (all_completed rounds) s)),
        q',
      )
