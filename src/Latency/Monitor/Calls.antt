-- ===== src/Latency/Monitor/Calls.antt =====
-- The life of a measurement through the calls of the monitor.
use my_arbitrager.Prelude.{
  ℕ, ◌≡◌, ◌≢◌, refl, ap, ◌∙◌, Bool, true, false, not, ◌||◌, List, none, some, arith, ◌==◌,
  if◌then◌else◌, if-false, ◌>>=◌,
}
use my_arbitrager.Queue
use my_arbitrager.Ring.Spsc.{capacity}
use my_arbitrager.Ring.Spsc.Refine.{Represents}
use my_arbitrager.Ring.Blocking
use my_arbitrager.Ring.Blocking.{Blocking}
use my_arbitrager.Ring.Blocking.Refine.{push-refines-displace}
use my_arbitrager.Latency.Measurement.{Measurement}
use my_arbitrager.Latency.Monitor.{
  Monitor, buffer_size, lookup, erase, submit, complete_measurement,
}
use my_arbitrager.Latency.Monitor.Active.{Distinct, lookup-erase, erase-Distinct}
use my_arbitrager.Latency.Monitor.Drain.{buffer_size-IsPow2}

-- An enabled monitor whose buffer overwrites and holds these measurements, and whose ids are distinct.
pub record Holding (s : Monitor) (waiting : List Measurement) : Type 0 where
  pub buffer : Blocking Measurement
  pub at : s.sample_buffer ≡ some buffer
  pub overwrites : buffer.overwrite_on_full ≡ true
  pub represents : Represents buffer_size buffer.ring waiting
  pub enabled : s.config.enabled ≡ true
  pub distinct : Distinct s.active_measurements

submit-push :
    (m : Measurement) (s : Monitor) {b b' : Blocking Measurement} {ok : Bool}
    → s.sample_buffer ≡ some b
    → Blocking.push buffer_size b m ≡ some (ok, b')
    → submit m s ≡ some (record s { sample_buffer = some b' })
unfolding submit
submit-push m s {b} {b'} at e =
    rw at (ap (λ r. r >>= λ x. some (record s { sample_buffer = some x.1 })) e)

complete_measurement-known :
    (s : Monitor) (id : ℕ) {m : Measurement}
    → s.config.enabled ≡ true
    → id ≢ 0
    → lookup id s.active_measurements ≡ some m
    → complete_measurement s id
      ≡ submit m (record s { active_measurements = erase id s.active_measurements })
unfolding complete_measurement
complete_measurement-known s id enabled ne found = if-false _ _ test ∙ rw found refl
  where
    test : (not s.config.enabled || id == 0) ≡ false
    test = ground arith

-- In an enabled monitor with an overwriting buffer, completing a measurement under way, of an id
-- other than 0, takes it, and nothing else, out of the map, and puts it, with the time stamps it
-- has, behind the waiting ones, of which a full buffer drops the oldest; the next number stays.
pub complete_measurement-submits :
    (s : Monitor) (waiting : List Measurement) (id : ℕ) (m : Measurement)
    → Holding s waiting
    → id ≢ 0
    → lookup id s.active_measurements ≡ some m
    → (s' : Monitor) × (complete_measurement s id ≡ some s')
      × Holding s' (Queue.displace (capacity buffer_size) waiting m).1
      × (s'.next_message_id ≡ s.next_message_id)
      × ((j : ℕ)
          → lookup j s'.active_measurements
            ≡ (if id == j then none else lookup j s.active_measurements))
complete_measurement-submits s waiting id m h ne found =
    let (b', e, w, n, o) =
      push-refines-displace buffer_size-IsPow2 h.buffer waiting m (omega arith) h.overwrites
        h.represents in
    (
      record s { active_measurements = erase id s.active_measurements; sample_buffer = some b' },
      complete_measurement-known s id h.enabled ne found ∙ submit-push m _ h.at e,
      record {
        buffer = b';
        at = refl;
        overwrites = o;
        represents = w;
        enabled = h.enabled;
        distinct = erase-Distinct id s.active_measurements h.distinct;
      },
      refl,
      λ j. lookup-erase id j s.active_measurements h.distinct,
    )
