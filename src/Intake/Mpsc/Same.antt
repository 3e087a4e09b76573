-- ===== src/Intake/Mpsc/Same.antt =====
-- The ring's drain and the mutex queue's.
use my_arbitrager.Prelude.{
  ℕ, zero, suc, ◌+◌, ◌-◌, ◌^◌, ◌≤◌, ◌<◌, ◌≡◌, refl, sym, ap, ◌∙◌, true, false, List, [], ◌∷◌, ◌++◌,
  Option, append_assoc, append-nil, some, arith, length, length-append, leb, min, Bool, Bool-cases,
  subst, inl, inr, take, if◌then◌else◌,
}
use my_arbitrager.Prelude.Bits.{add64, IsPow2}
use my_arbitrager.Prelude.Text.{Text}
use my_arbitrager.Market.{Ticker}
use my_arbitrager.Market.Map.{insert}
use my_arbitrager.Queue
use my_arbitrager.Tracker.{Tracker, record_operation}
use my_arbitrager.Ring.Mpsc.{Mpsc, count}
use my_arbitrager.Ring.Mpsc.Refine.{Represents}
use my_arbitrager.Ring.Mpsc.Refine.Push.{try_push-refines, count_lem}
use my_arbitrager.Ring.Mpsc.Refine.Pop.{try_pop-refines}
use my_arbitrager.Ring.Mpsc.Refine.Run.{create-Represents}
use my_arbitrager.Intake
use my_arbitrager.Intake.{ticker_key, drain_from}
use my_arbitrager.Intake.Mpsc.{
  queue_size, MpscQueue, Arrival, fresh, push, push_all, drain_loop, drain_all,
}

queue_size-IsPow2 : IsPow2 queue_size
queue_size-IsPow2 = record { exponent = 12; small = omega arith; eq = refl }

module _ {D : Type 0} where
  take_nil : (n : ℕ) → take {A = Ticker D} n [] ≡ []
  take_nil zero = refl
  take_nil (suc n) = refl

  length-take : (n : ℕ) (xs : List (Ticker D)) → length (take n xs) ≤ n
  length-take zero xs = omega arith
  length-take (suc n) [] = omega arith
  length-take (suc n) (x ∷ xs) = omega (arith, length-take n xs)

  abbrev pub tickers : List (Arrival D) → List (Ticker D)
  tickers [] = []
  tickers (a ∷ arrivals) = a.ticker ∷ tickers arrivals

  -- The tracker after pushes into a queue that has had `n` tickers: no more than 4096 stay in it.
  abbrev pub recorded : (tsc_frequency : ℕ) → Tracker → (n : ℕ) → List (Arrival D) → Tracker
  recorded f tracker n [] = tracker
  recorded f tracker n (a ∷ arrivals) =
      recorded f
        (record_operation f tracker a.ticker.exchange a.start_tsc a.end_tsc (min n queue_size))
        (n + 1) arrivals

  -- The pushes end with this tracker, so many drops, and these tickers in the ring.
  pub record Pushed (outcome : Option (MpscQueue D × Tracker)) (tracker : Tracker) (drops : ℕ)
      (xs : List (Ticker D)) : Type 0 where
    pub queue : Mpsc (Ticker D)
    pub ends : outcome ≡ some (record { queue = queue; dropped_count = drops }, tracker)
    pub holds : Represents queue_size queue [] xs

  abbrev offered : List (Ticker D) → Ticker D → Bool → List (Ticker D)
  offered xs x b = (if◌then◌else◌ {A = Bool × List (Ticker D)} b (false, xs) (true, xs ++ x ∷ [])).1

  -- A push into a ring that is full or not.
  push-Pushed :
      (f : ℕ) (s : MpscQueue D) (tracker : Tracker) (a : Arrival D) (xs : List (Ticker D))
      (full : Bool)
      → Represents queue_size s.queue [] xs
      → length xs ≤ queue_size
      → leb queue_size (length xs) ≡ full
      → Pushed
          (push f s tracker a)
          (record_operation f tracker a.ticker.exchange a.start_tsc a.end_tsc (length xs))
          (if full then add64 s.dropped_count 1 else s.dropped_count)
          (if full then xs else xs ++ a.ticker ∷ [])
  unfolding push Queue.offer
  push-Pushed f s tracker a xs true v small e =
      let (r', e', v') =
        try_push-refines queue_size-IsPow2 v a.ticker (omega arith) (omega (arith, small)) in
      record {
        queue = r';
        ends = rw (e', count_lem queue_size-IsPow2 v (omega (arith, small)), e) refl;
        holds = subst (Represents queue_size r' []) (ap (offered xs a.ticker) e) v';
      }
  push-Pushed f s tracker a xs false v small e =
      let (r', e', v') =
        try_push-refines queue_size-IsPow2 v a.ticker (omega arith) (omega (arith, small)) in
      record {
        queue = r';
        ends = rw (e', count_lem queue_size-IsPow2 v (omega (arith, small)), e) refl;
        holds = subst (Represents queue_size r' []) (ap (offered xs a.ticker) e) v';
      }

  -- The pushes that follow a push.
  Pushed-then :
      (f : ℕ) (s : MpscQueue D) (tracker tracker' : Tracker) (a : Arrival D)
      (arrivals : List (Arrival D)) (drops : ℕ) (ys zs : List (Ticker D)) (tracker'' : Tracker)
      (drops' : ℕ)
      → Pushed (push f s tracker a) tracker' drops ys
      → ((queue : Mpsc (Ticker D))
          → Represents queue_size queue [] ys
          → Pushed
              (push_all f (record { queue = queue; dropped_count = drops }) tracker' arrivals)
              tracker''
              drops'
              zs)
      → Pushed (push_all f s tracker (a ∷ arrivals)) tracker'' drops' zs
  unfolding push_all
  Pushed-then f s tracker tracker' a arrivals drops ys zs tracker'' drops' first rest =
      let after = rest first.queue first.holds in
      record { queue = after.queue; ends = rw first.ends after.ends; holds = after.holds }

  Pushed-same :
      {outcome : Option (MpscQueue D × Tracker)} {tracker tracker' : Tracker} {drops drops' : ℕ}
      {xs xs' : List (Ticker D)}
      → Pushed outcome tracker drops xs
      → tracker ≡ tracker'
      → drops ≡ drops'
      → xs ≡ xs'
      → Pushed outcome tracker' drops' xs'
  Pushed-same {outcome} {tracker' = tracker'} {drops} {drops'} {xs} h t d e =
      subst (Pushed outcome tracker' drops') e
        (subst (λ k. Pushed outcome tracker' k xs) d (subst (λ z. Pushed outcome z drops xs) t h))

  -- The occupancy that a push records.
  occupancy :
      (f : ℕ) (tracker : Tracker) (a : Arrival D) (n : ℕ) (xs : List (Ticker D))
      (arrivals : List (Arrival D))
      → length xs ≡ min n queue_size
      → recorded f
          (record_operation f tracker a.ticker.exchange a.start_tsc a.end_tsc (length xs))
          (n + 1)
          arrivals
        ≡ recorded f tracker n (a ∷ arrivals)
  occupancy f tracker a n xs arrivals e =
      ap
        (λ o.
          recorded f (record_operation f tracker a.ticker.exchange a.start_tsc a.end_tsc o) (n + 1)
            arrivals)
        e

  less_one :
      (xs : List (Ticker D))
      → leb queue_size (length xs) ≡ false
      → suc (queue_size - length xs - 1) ≡ queue_size - length xs
  less_one xs room = ground arith

  push_all-Pushed :
      (f : ℕ) (arrivals : List (Arrival D)) (s : MpscQueue D) (tracker : Tracker) (n : ℕ)
      (xs : List (Ticker D))
      → Represents queue_size s.queue [] xs
      → length xs ≡ min n queue_size
      → s.dropped_count + length arrivals < 2 ^ 63
      → Pushed
          (push_all f s tracker arrivals)
          (recorded f tracker n arrivals)
          (s.dropped_count + (length arrivals - (queue_size - length xs)))
          (xs ++ take (queue_size - length xs) (tickers arrivals))
  unfolding push_all
  push_all-Pushed f [] s tracker n xs v at short = record {
    queue = s.queue;
    ends = ap (λ d. some (record s { dropped_count = d }, tracker)) (omega arith);
    holds =
        subst (Represents queue_size s.queue [])
          (sym (append-nil xs) ∙ ap (λ ys. xs ++ ys) (sym (take_nil (queue_size - length xs)))) v;
  }
  push_all-Pushed f (a ∷ arrivals) s tracker n xs v at short =
      elim (Bool-cases (leb queue_size (length xs))) [
        | inl full ↦
            Pushed-then f s tracker _ a arrivals _ xs _ _ _
              (push-Pushed f s tracker a xs true v (omega arith) full)
              (λ queue v'.
                Pushed-same
                  (push_all-Pushed f arrivals _ _ (n + 1) xs v' (ground (arith, at, full))
                    (omega (arith, short)))
                  (occupancy f tracker a n xs arrivals at) (ground (arith, full, short))
                  (ap (λ k. xs ++ take k (tickers arrivals)) {y = 0} (ground (arith, full))
                    ∙ ap (λ k. xs ++ take k (a.ticker ∷ tickers arrivals)) {x = 0}
                        (ground (arith, full))))
        | inr room ↦
            Pushed-then f s tracker _ a arrivals _ (xs ++ a.ticker ∷ []) _ _ _
              (push-Pushed f s tracker a xs false v (omega arith) room)
              (λ queue v'.
                Pushed-same
                  (push_all-Pushed f arrivals _ _ (n + 1) (xs ++ a.ticker ∷ []) v'
                    (ground (arith, at, room, length-append xs (a.ticker ∷ [])))
                    (omega (arith, short)))
                  (occupancy f tracker a n xs arrivals at)
                  (ground (arith, room, length-append xs (a.ticker ∷ [])))
                  (append_assoc xs (a.ticker ∷ []) _
                    ∙ ap (λ k. xs ++ a.ticker ∷ take k (tickers arrivals))
                        {y = queue_size - length xs - 1}
                        (omega (arith, length-append xs (a.ticker ∷ [])))
                    ∙ ap (λ k. xs ++ take k (a.ticker ∷ tickers arrivals)) (less_one xs room)))
      ]

  drain_loop-eq :
      (fuel : ℕ) (r : Mpsc (Ticker D)) {popped : List (Ticker D)} (xs : List (Ticker D))
      (m : List (Text × Ticker D)) (n : ℕ)
      → Represents queue_size r popped xs
      → length popped + length xs + 1 + queue_size < 2 ^ 63
      → length xs < fuel
      → (r' : Mpsc (Ticker D)) × (popped' : List (Ticker D)) × (drain_loop fuel r m n
          ≡ some ((drain_from xs m n).0, r', (drain_from xs m n).1))
        × Represents queue_size r' popped' []
  unfolding drain_loop drain_from Queue.poll
  drain_loop-eq zero r xs m n v short enough = elim enough [ ]
  drain_loop-eq (suc fuel) r [] m n v short enough =
      let (r', e, popped', same, v') = try_pop-refines queue_size-IsPow2 [] v short in
      (r', popped', rw e refl, v')
  drain_loop-eq (suc fuel) r {popped} (x ∷ xs) m n v short enough =
      let (r1, e1, popped1, same1, v1) = try_pop-refines queue_size-IsPow2 (x ∷ xs) v short in
      let (r', popped', e, v') =
        drain_loop-eq fuel r1 xs (insert (ticker_key x) x m) (add64 n 1) v1
          (omega (arith, same1, short)) (omega arith) in
      (r', popped', rw e1 e, v')

  -- Whatever tickers arrive at a fresh queue, fewer than 2 ^ 62, the ring keeps the first 4096 and
  -- counts the rest as dropped, the tracker sees the length of the queue before each push, and a drain
  -- then ends and gives the count and the market data that the mutex queue gives for the tickers kept.
  pub ring_like_mutex :
      (f : ℕ) (blank : Ticker D) (tracker : Tracker) (arrivals : List (Arrival D))
      (m : List (Text × Ticker D)) (fuel : ℕ)
      → queue_size < fuel
      → length arrivals < 2 ^ 62
      → let (count, queue, drained) = Intake.drain_all (take queue_size (tickers arrivals)) m in
        (s s' : MpscQueue D) × (push_all f (fresh blank) tracker arrivals
          ≡ some (s, recorded f tracker 0 arrivals))
        × (s.dropped_count ≡ length arrivals - queue_size)
        × (drain_all fuel s m ≡ some (count, s', drained))
  unfolding fresh drain_all Intake.drain_all
  ring_like_mutex f blank tracker arrivals m fuel enough short =
      let filled =
        push_all-Pushed f arrivals (fresh blank) tracker 0 [] (create-Represents queue_size blank)
          refl (omega (arith, short)) in
      let (r', popped', e, v') =
        drain_loop-eq fuel filled.queue (take queue_size (tickers arrivals)) m 0 filled.holds
          (omega (arith, length-take queue_size (tickers arrivals)))
          (omega (arith, enough, length-take queue_size (tickers arrivals))) in
      (
        record { queue = filled.queue; dropped_count = 0 + (length arrivals - queue_size) },
        record { queue = r'; dropped_count = 0 + (length arrivals - queue_size) },
        filled.ends,
        omega arith,
        rw e refl,
      )
