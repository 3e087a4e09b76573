-- ===== src/Latency/Monitor/First.antt =====
-- The first measurement has id 0, which `record_timestamp` and `complete_measurement` take for none.
use my_arbitrager.Prelude.{
  ℕ, suc, ◌+◌, ◌^◌, ◌<◌, ◌≡◌, ◌≢◌, refl, sym, ap, subst, ◌∙◌, inl, inr, true, not, ◌||◌, List, [],
  ◌∷◌, Option, some, arith, length, ◌==◌, if-true, if-false, Bool-cases, Option-cases, ◌>>=◌,
}
use my_arbitrager.Prelude.Bits.{add64}
use my_arbitrager.Prelude.Text.{Text}
use my_arbitrager.Queue
use my_arbitrager.Ring.Spsc.{capacity}
use my_arbitrager.Ring.Spsc.Refine.{create-Represents}
use my_arbitrager.Ring.Blocking
use my_arbitrager.Latency.Monitor.Drain.{buffer_size-IsPow2}
use my_arbitrager.Latency.Measurement.{MeasurementPoint, Measurement, blank, stamp}
use my_arbitrager.Latency.Monitor.{
  Config, Monitor, buffer_size, create, lookup, insert, start_measurement, record_timestamp,
  complete_measurement,
}
use my_arbitrager.Latency.Monitor.Active.{lookup-insert, insert-Distinct}
use my_arbitrager.Latency.Monitor.Calls.{Holding, complete_measurement-submits}

-- The calls of the clients.
pub data Call : Type 0 where
  begin : (symbol exchange : Text) → Call
  mark : (id : ℕ) → MeasurementPoint → (timestamp : ℕ) → Call
  finish : (id : ℕ) → Call

-- One call; `none` is an access out of bounds.
unfoldable pub call : Monitor → Call → Option Monitor
call s (Call.begin symbol exchange) = some (start_measurement s symbol exchange).1
call s (mark id point timestamp) = some (record_timestamp s id point timestamp)
call s (finish id) = complete_measurement s id

unfoldable pub run : Monitor → List Call → Option Monitor
run s [] = some s
run s (c ∷ calls) = call s c >>= λ s'. run s' calls

-- A monitor at work, with this measurement under way as number 0 and the next one numbered `n`.
pub record Stuck (m : Measurement) (n : ℕ) (s : Monitor) : Type 0 where
  pub waiting : List Measurement
  pub holding : Holding s waiting
  pub there : lookup 0 s.active_measurements ≡ some m
  pub at_least : 0 < s.next_message_id
  pub at_most : s.next_message_id < n

module _ {m : Measurement} {n : ℕ} {s : Monitor} (w : Stuck m n s) where
  -- A change of another measurement, and perhaps of the next number.
  put-Stuck :
      (id : ℕ) (v : Measurement) (next n' : ℕ)
      → id ≢ 0
      → 0 < next
      → next < n'
      → Stuck m n' (record s {
        next_message_id = next;
        active_measurements = insert id v s.active_measurements;
      })
  put-Stuck id v next n' ne low high = record {
    waiting = w.waiting;
    holding = record {
      buffer = w.holding.buffer;
      at = w.holding.at;
      overwrites = w.holding.overwrites;
      represents = w.holding.represents;
      enabled = w.holding.enabled;
      distinct = insert-Distinct id v s.active_measurements w.holding.distinct;
    };
    there =
        lookup-insert id 0 v s.active_measurements
        ∙ if-false {c = id == 0} _ _ (ground arith)
        ∙ w.there;
    at_least = low;
    at_most = high;
  }

  later : Stuck m (suc n) s
  later = record {
    waiting = w.waiting;
    holding = w.holding;
    there = w.there;
    at_least = w.at_least;
    at_most = omega (arith, w.at_most);
  }

  begin-Stuck :
      (symbol exchange : Text)
      → n < 2 ^ 64
      → Stuck m (suc n) (start_measurement s symbol exchange).1
  unfolding start_measurement
  begin-Stuck symbol exchange small =
      let v : Measurement = record blank {
        message_id = s.next_message_id;
        symbol = symbol;
        exchange = exchange;
      } in
      subst (λ z. Stuck m (suc n) z.1)
        (sym (if-false {A = ℕ × Monitor} {c = not s.config.enabled} _ _ (ap not w.holding.enabled)))
        (put-Stuck s.next_message_id v (add64 s.next_message_id 1) (suc n)
          (omega (arith, w.at_least)) (omega (arith, w.at_least, w.at_most))
          (omega (arith, w.at_most)))

  mark-Stuck :
      (id : ℕ) (point : MeasurementPoint) (timestamp : ℕ)
      → Stuck m n (record_timestamp s id point timestamp)
  unfolding record_timestamp
  mark-Stuck id point timestamp = elim (Bool-cases (not s.config.enabled || id == 0)) [
    | inl ignored ↦ rw (ignored, record_timestamp) w
    | inr taken ↦ elim (Option-cases (lookup id s.active_measurements)) [
      | inl unknown ↦ rw (taken, unknown, record_timestamp) w
      | inr (v, known) ↦
          rw (taken, known, record_timestamp)
            (put-Stuck id (stamp v point timestamp) s.next_message_id n (ground (arith, taken))
              w.at_least w.at_most)
    ]
  ]

  finish-Stuck : (id : ℕ) → (s' : Monitor) × (complete_measurement s id ≡ some s') × Stuck m n s'
  unfolding complete_measurement
  finish-Stuck id = elim (Bool-cases (not s.config.enabled || id == 0)) [
    | inl ignored ↦ (s, if-true _ _ ignored, w)
    | inr taken ↦ elim (Option-cases (lookup id s.active_measurements)) [
      | inl unknown ↦ (s, if-false _ _ taken ∙ rw unknown refl, w)
      | inr (v, known) ↦
          let ne : id ≢ 0 = ground (arith, taken) in
          let (s', e, h, same_next, found) =
            complete_measurement-submits s w.waiting id v w.holding ne known in
          (
            s',
            e,
            record {
              waiting = (Queue.displace (capacity buffer_size) w.waiting v).1;
              holding = h;
              there = found 0 ∙ if-false {c = id == 0} _ _ (ground arith) ∙ w.there;
              at_least = omega (arith, same_next, w.at_least);
              at_most = omega (arith, same_next, w.at_most);
            },
          )
    ]
  ]

call-Stuck :
    (m : Measurement) (n : ℕ) (s : Monitor) (c : Call)
    → n < 2 ^ 64
    → Stuck m n s
    → (s' : Monitor) × (call s c ≡ some s') × Stuck m (suc n) s'
unfolding call
call-Stuck m n s (Call.begin symbol exchange) small w =
    ((start_measurement s symbol exchange).1, refl, begin-Stuck w symbol exchange small)
call-Stuck m n s (mark id point timestamp) small w =
    (record_timestamp s id point timestamp, refl, later (mark-Stuck w id point timestamp))
call-Stuck m n s (finish id) small w = let (s', e, w') = finish-Stuck w id in (s', e, later w')

run-Stuck :
    (m : Measurement) (n : ℕ) (s : Monitor) (calls : List Call)
    → n + length calls < 2 ^ 64
    → Stuck m n s
    → (s' : Monitor) × (run s calls ≡ some s') × (lookup 0 s'.active_measurements ≡ some m)
unfolding run
run-Stuck m n s [] small w = (s, refl, w.there)
run-Stuck m n s (c ∷ calls) small w =
    let (s₁, e, w₁) = call-Stuck m n s c (omega arith) w in
    let (s₂, e₂, found) = run-Stuck m (suc n) s₁ calls (omega arith) w₁ in (s₂, rw e e₂, found)

-- The first measurement of an enabled monitor is numbered 0 and stays in the map for good: whatever
-- calls follow, up to the wrap of the counter, none of them goes out of bounds, and the measurement is
-- still there afterwards, without a time stamp.
pub first_measurement_stays :
    (config : Config) (overhead : ℕ) (symbol exchange : Text) (calls : List Call)
    → config.enabled ≡ true
    → 2 + length calls < 2 ^ 64
    → let (id, s) = start_measurement (create config overhead) symbol exchange in
      (id ≡ 0)
      × (s' : Monitor) × (run s calls ≡ some s')
      × (lookup 0 s'.active_measurements
          ≡ some (record blank { message_id = 0; symbol = symbol; exchange = exchange }))
unfolding create start_measurement insert lookup Blocking.create Blocking.set_overwrite_on_full
first_measurement_stays config overhead symbol exchange calls enabled small =
    let (s', e, found) = run-Stuck first 2 begun calls small start in
    rw (if-false {A = ℕ × Monitor} {c = not config.enabled} _ _ (ap not enabled))
      (refl, s', e, found)
  where
    first : Measurement
    first = record blank { message_id = 0; symbol = symbol; exchange = exchange }

    begun : Monitor
    begun = record (create config overhead) {
      next_message_id = 1;
      active_measurements = (0, first) ∷ [];
    }

    start : Stuck first 2 begun
    start = record {
      waiting = [];
      holding = record {
        buffer = Blocking.set_overwrite_on_full (Blocking.create buffer_size blank) true;
        at = if-true _ _ enabled;
        overwrites = refl;
        represents = create-Represents buffer_size-IsPow2 blank;
        enabled = enabled;
        distinct = (refl, tt);
      };
      there = refl;
      at_least = omega arith;
      at_most = omega arith;
    }
