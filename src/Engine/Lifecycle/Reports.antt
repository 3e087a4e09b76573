-- ===== src/Engine/Lifecycle/Reports.antt =====
-- When the loop stops by itself.
use my_arbitrager.Prelude.{
  ℕ, ◌+◌, ◌<◌, ◌≡◌, refl, sym, subst, ap, ◌∙◌, ◌&&◌, true, false, List, [], ◌∷◌, arith, leb,
  Bool-cases, inl, inr, if◌then◌else◌, if-true, if-false,
}
use my_arbitrager.Prelude.Int.{ℤ, pos, negsuc}
use my_arbitrager.Market.{Double}
use my_arbitrager.Engine.Lifecycle.{
  Worker, Tick, is_last_report, drain_incoming_queues, report, iterate, calculation_loop,
}

-- The reports that these iterations are due to make.
abbrev pub due : {D : Type 0} → List (Tick D) → ℕ
due [] = 0
due (tick ∷ ticks) = (if tick.report_due then 1 else 0) + due ticks

-- What `set_max_reports` takes for no limit: 0, or a negative number.
abbrev pub NoLimit : ℤ → Type 0
NoLimit (pos n) = n ≡ 0
NoLimit (negsuc n) = Unit

never_last : (z : ℤ) → NoLimit z → (n : ℕ) → is_last_report z n ≡ false
unfolding is_last_report
never_last (pos m) h n = ground arith
never_last (negsuc m) h n = refl

module _ {D : Type 0} (d : Double D) where
  -- What an iteration does to the fields that the reports use.
  iterate_fields :
      (w : Worker D) (tick : Tick D)
      → let w' = iterate d w tick in
        let last = tick.report_due && is_last_report w.max_reports (w.report_count + 1) in
        (w'.running ≡ (if last then false else w.running))
        × (w'.report_count ≡ w.report_count + (if tick.report_due then 1 else 0))
        × (w'.shutdown_calls
            ≡ (if last && w.has_shutdown_callback then w.shutdown_calls + 1 else w.shutdown_calls))
        × (w'.max_reports ≡ w.max_reports)
        × (w'.has_shutdown_callback ≡ w.has_shutdown_callback)
  unfolding iterate report drain_incoming_queues
  iterate_fields w tick = elim (Bool-cases tick.report_due) [
    | inr not_due ↦ rw not_due (refl, omega arith, refl, refl, refl)
    | inl is_due ↦ elim (Bool-cases (is_last_report w.max_reports (w.report_count + 1))) [
      | inl last ↦ rw (is_due, last) (refl, refl, refl, refl, refl)
      | inr more ↦ rw (is_due, more) (refl, refl, refl, refl, refl)
    ]
  ]

  calculation_loop_stopped :
      (w : Worker D) (ticks : List (Tick D)) → w.running ≡ false → calculation_loop d w ticks ≡ w
  unfolding calculation_loop
  calculation_loop_stopped w [] h = refl
  calculation_loop_stopped w (tick ∷ ticks) h = if-false _ _ h

  calculation_loop_running :
      (w : Worker D) (tick : Tick D) (ticks : List (Tick D))
      → w.running ≡ true
      → calculation_loop d (iterate d w tick) ticks ≡ calculation_loop d w (tick ∷ ticks)
  unfolding calculation_loop
  calculation_loop_running w tick ticks h = sym (if-true _ _ h)

  -- The worker `w'` that is left of `w` when `n` reports have come due: stopped, with the last of
  -- `limit` reports made and the callback called, or running, with all of them made.
  pub record Limited (limit n : ℕ) (w w' : Worker D) : Type 0 where
    pub running : w'.running ≡ (if leb limit (w.report_count + n) then false else true)
    pub counted :
        w'.report_count ≡ (if leb limit (w.report_count + n) then limit else w.report_count + n)
    pub called : w'.shutdown_calls ≡ (
        if leb limit (w.report_count + n) && w.has_shutdown_callback
        then w.shutdown_calls + 1
        else w.shutdown_calls)

  -- A loop with a limit on its reports that has not reached it stops itself with the report that
  -- reaches the limit, calls the shutdown callback once if there is one, and otherwise goes on and
  -- counts its reports.
  pub calculation_loop-Limited :
      (w : Worker D) (ticks : List (Tick D)) (limit : ℕ)
      → w.running ≡ true
      → w.max_reports ≡ pos limit
      → w.report_count < limit
      → Limited limit (due ticks) w (calculation_loop d w ticks)
  unfolding calculation_loop is_last_report
  calculation_loop-Limited w [] limit run at below = record {
    running = ground (arith, run);
    counted = ground arith;
    called = ground arith;
  }
  calculation_loop-Limited w (tick ∷ ticks) limit run at below =
      let (r, n, c, m, h) = iterate_fields w tick in
      let last : is_last_report w.max_reports (w.report_count + 1)
          ≡ leb limit (w.report_count + 1) =
        rw at (ground arith) in
      subst (Limited limit (due (tick ∷ ticks)) w) (calculation_loop_running w tick ticks run)
        (elim (Bool-cases (iterate d w tick).running) [
          | inl goes ↦
              let v =
                calculation_loop-Limited (iterate d w tick) ticks limit goes (m ∙ at)
                  (ground (arith, last)) in
              record {
                running = v.running ∙ ground (arith, last);
                counted = v.counted ∙ ground (arith, last);
                called = v.called ∙ ground (arith, last);
              }
          | inr ends ↦
              subst (Limited limit (due (tick ∷ ticks)) w)
                (sym (calculation_loop_stopped (iterate d w tick) ticks ends))
                record {
                  running = ground (arith, last);
                  counted = ground (arith, last);
                  called = ground (arith, last);
                }
        ])

  calculation_loop_unlimited :
      (w : Worker D) (ticks : List (Tick D))
      → w.running ≡ true
      → ((n : ℕ) → is_last_report w.max_reports n ≡ false)
      → ((calculation_loop d w ticks).running ≡ true)
        × ((calculation_loop d w ticks).report_count ≡ w.report_count + due ticks)
  unfolding calculation_loop
  calculation_loop_unlimited w [] run never = (run, omega arith)
  calculation_loop_unlimited w (tick ∷ ticks) run never =
      let (r, n, c, m, h) = iterate_fields w tick in
      let stays : (tick.report_due && is_last_report w.max_reports (w.report_count + 1)) ≡ false =
        ground (arith, never (w.report_count + 1)) in
      let (run', n') =
        calculation_loop_unlimited (iterate d w tick) ticks (r ∙ if-false _ _ stays ∙ run)
          (λ k. ap (λ z. is_last_report z k) m ∙ never k) in
      subst (λ v. (v.running ≡ true) × (v.report_count ≡ w.report_count + due (tick ∷ ticks)))
        (calculation_loop_running w tick ticks run) (run', omega (arith, n', n))

  -- A running loop without a limit on its reports never stops itself, and counts every report.
  calculation_loop-NoLimit :
      (w : Worker D) (ticks : List (Tick D))
      → w.running ≡ true
      → NoLimit w.max_reports
      → ((calculation_loop d w ticks).running ≡ true)
        × ((calculation_loop d w ticks).report_count ≡ w.report_count + due ticks)
  calculation_loop-NoLimit w ticks run none_set =
      calculation_loop_unlimited w ticks run (never_last w.max_reports none_set)
