-- ===== src/Tracker/Threads/Extremes/Moves.antt =====
-- Every step of the threads keeps both extremes.
use my_arbitrager.Prelude.{
  none-ne-some, ℕ, ◌-◌, ◌%◌, ◌^◌, ◌≤◌, ◌≡◌, ◌⊎◌, inl, inr, refl, sym, ap, ◌∙◌, List, [], some, none,
  Option, of_some, arith,
}
use my_arbitrager.Prelude.Family.{move}
use my_arbitrager.Engine.Members.{In}
use my_arbitrager.Tracker.{blank, sample_buffer_size}
use my_arbitrager.Tracker.Threads.{
  Thread, System, Step, Reach, Settled, here, next, count_call, add_total, load_min, min_stands,
  min_fail, min_exchange, load_max, max_stands, max_fail, max_exchange, take_index, write_sample,
  write_occupancy,
}
use my_arbitrager.Tracker.Threads.Calls.{Calls, call_of, Reach-Calls}
use my_arbitrager.Tracker.Threads.Extremes.{Extreme, Inv, Latency, moved, called}

abbrev min_pending : Thread → Option ℕ
min_pending (Thread.totalling l o) = some l
min_pending (Thread.min_loading l o) = some l
min_pending (Thread.min_trying l o c) = some l
min_pending _ = none

abbrev min_seen : Thread → Option ℕ
min_seen (Thread.min_trying l o c) = some c
min_seen _ = none

abbrev minimum : Extreme
minimum = record {
  Le = ◌≤◌;
  le_refl = λ a. omega arith;
  trans = λ a b c h k. omega arith;
  pending = min_pending;
  seen = min_seen;
}

abbrev max_pending : Thread → Option ℕ
max_pending (Thread.totalling l o) = some l
max_pending (Thread.min_loading l o) = some l
max_pending (Thread.min_trying l o c) = some l
max_pending (Thread.max_loading l o) = some l
max_pending (Thread.max_trying l o c) = some l
max_pending _ = none

abbrev max_seen : Thread → Option ℕ
max_seen (Thread.max_trying l o c) = some c
max_seen _ = none

abbrev maximum : Extreme
maximum = record {
  Le = λ a b. b ≤ a;
  le_refl = λ a. omega arith;
  trans = λ a b c h k. omega arith;
  pending = max_pending;
  seen = max_seen;
}

-- A step that leaves the value, and what the mover has to bring in.
module _ (x : Extreme) {initial m : ℕ} {threads : ℕ → Thread} {recorded : List (ℕ × ℕ)}
    (i : Inv x initial m threads recorded) where
  quiet :
      (k : ℕ) {a : Thread} (b : Thread)
      → threads k ≡ a
      → ((l : ℕ) → x.pending a ≡ some l → x.pending b ≡ some l)
      → ((c : ℕ) → x.seen b ≡ some c → x.Le m c)
      → Inv x initial m (move threads k b) recorded
  quiet k b at kept knows =
      moved x i m k b at (x.le_refl m) (inl refl) (λ l e. inr (kept l e)) knows

Step-minimum :
    {n : ℕ} {s t : System}
    → Step n s t
    → Calls s.threads s.recorded s.tickets
    → Inv minimum (2 ^ 64 - 1) s.stats.min_ns s.threads s.recorded
    → Inv minimum (2 ^ 64 - 1) t.stats.min_ns t.threads t.recorded
Step-minimum {n} {s} (count_call k l o h e) calls i = called minimum i k l o e refl refl refl
Step-minimum {n} {s} (add_total k {l} {o} h e) calls i =
    quiet minimum i k (Thread.min_loading l o) e (λ n d. d) (λ n d. absurd (none-ne-some d))
Step-minimum {n} {s} (load_min k {l} {o} h e) calls i =
    quiet minimum i k (Thread.min_trying l o s.stats.min_ns) e (λ n d. d)
      (λ n d. omega (arith, of_some d))
Step-minimum {n} {s} (min_stands k {l} {o} {c} h e f) calls i =
    moved minimum i s.stats.min_ns k (Thread.max_loading l o) e (omega arith) (inl refl)
      (λ n d. inl (ground (arith, i.known k c (ap min_seen e), d))) (λ n d. absurd (none-ne-some d))
Step-minimum {n} {s} (min_fail k {l} {o} h e f) calls i =
    quiet minimum i k (Thread.min_trying l o s.stats.min_ns) e (λ n d. d)
      (λ n d. omega (arith, of_some d))
Step-minimum {n} {s} (min_exchange k {l} {o} {c} h e f g) calls i =
    moved minimum i l k (Thread.max_loading l o) e (ground arith)
      (inr ((l, o), calls.started k (l, o) (ap call_of e), refl))
      (λ n d. inl (omega (arith, of_some d))) (λ n d. absurd (none-ne-some d))
Step-minimum {n} {s} (load_max k {l} {o} h e) calls i =
    quiet minimum i k (Thread.max_trying l o s.stats.max_ns) e (λ n d. d)
      (λ n d. absurd (none-ne-some d))
Step-minimum {n} {s} (max_stands k {l} {o} {c} h e f) calls i =
    quiet minimum i k (Thread.indexing l o) e (λ n d. d) (λ n d. absurd (none-ne-some d))
Step-minimum {n} {s} (max_fail k {l} {o} h e f) calls i =
    quiet minimum i k (Thread.max_trying l o s.stats.max_ns) e (λ n d. d)
      (λ n d. absurd (none-ne-some d))
Step-minimum {n} {s} (max_exchange k {l} {o} {c} h e f g) calls i =
    quiet minimum i k (Thread.indexing l o) e (λ n d. d) (λ n d. absurd (none-ne-some d))
Step-minimum {n} {s} (take_index k {l} {o} h e) calls i =
    quiet minimum i k (Thread.sample_writing l o (s.stats.sample_index % sample_buffer_size)) e
      (λ n d. d) (λ n d. absurd (none-ne-some d))
Step-minimum {n} {s} (write_sample k {l} {o} {idx} h e) calls i =
    quiet minimum i k (Thread.occupancy_writing l o idx) e (λ n d. d)
      (λ n d. absurd (none-ne-some d))
Step-minimum {n} {s} (write_occupancy k h e) calls i =
    quiet minimum i k Thread.idle e (λ n d. d) (λ n d. absurd (none-ne-some d))

Step-maximum :
    {n : ℕ} {s t : System}
    → Step n s t
    → Calls s.threads s.recorded s.tickets
    → Inv maximum 0 s.stats.max_ns s.threads s.recorded
    → Inv maximum 0 t.stats.max_ns t.threads t.recorded
Step-maximum {n} {s} (count_call k l o h e) calls i = called maximum i k l o e refl refl refl
Step-maximum {n} {s} (add_total k {l} {o} h e) calls i =
    quiet maximum i k (Thread.min_loading l o) e (λ n d. d) (λ n d. absurd (none-ne-some d))
Step-maximum {n} {s} (load_min k {l} {o} h e) calls i =
    quiet maximum i k (Thread.min_trying l o s.stats.min_ns) e (λ n d. d)
      (λ n d. absurd (none-ne-some d))
Step-maximum {n} {s} (min_stands k {l} {o} {c} h e f) calls i =
    quiet maximum i k (Thread.max_loading l o) e (λ n d. d) (λ n d. absurd (none-ne-some d))
Step-maximum {n} {s} (min_fail k {l} {o} h e f) calls i =
    quiet maximum i k (Thread.min_trying l o s.stats.min_ns) e (λ n d. d)
      (λ n d. absurd (none-ne-some d))
Step-maximum {n} {s} (min_exchange k {l} {o} {c} h e f g) calls i =
    quiet maximum i k (Thread.max_loading l o) e (λ n d. d) (λ n d. absurd (none-ne-some d))
Step-maximum {n} {s} (load_max k {l} {o} h e) calls i =
    quiet maximum i k (Thread.max_trying l o s.stats.max_ns) e (λ n d. d)
      (λ n d. omega (arith, of_some d))
Step-maximum {n} {s} (max_stands k {l} {o} {c} h e f) calls i =
    moved maximum i s.stats.max_ns k (Thread.indexing l o) e (omega arith) (inl refl)
      (λ n d. inl (ground (arith, i.known k c (ap max_seen e), d))) (λ n d. absurd (none-ne-some d))
Step-maximum {n} {s} (max_fail k {l} {o} h e f) calls i =
    quiet maximum i k (Thread.max_trying l o s.stats.max_ns) e (λ n d. d)
      (λ n d. omega (arith, of_some d))
Step-maximum {n} {s} (max_exchange k {l} {o} {c} h e f g) calls i =
    moved maximum i l k (Thread.indexing l o) e (ground arith)
      (inr ((l, o), calls.started k (l, o) (ap call_of e), refl))
      (λ n d. inl (omega (arith, of_some d))) (λ n d. absurd (none-ne-some d))
Step-maximum {n} {s} (take_index k {l} {o} h e) calls i =
    quiet maximum i k (Thread.sample_writing l o (s.stats.sample_index % sample_buffer_size)) e
      (λ n d. d) (λ n d. absurd (none-ne-some d))
Step-maximum {n} {s} (write_sample k {l} {o} {idx} h e) calls i =
    quiet maximum i k (Thread.occupancy_writing l o idx) e (λ n d. d)
      (λ n d. absurd (none-ne-some d))
Step-maximum {n} {s} (write_occupancy k h e) calls i =
    quiet maximum i k Thread.idle e (λ n d. d) (λ n d. absurd (none-ne-some d))

Start-Inv :
    (x : Extreme) (initial : ℕ)
    → x.seen Thread.idle ≡ none
    → Inv x initial initial (λ _. Thread.idle) []
Start-Inv x initial unseen = record {
  attained = inl refl;
  covered = λ v member. elim member [ ];
  known = λ k c e. absurd (none-ne-some (sym unseen ∙ e));
}

Reach-minimum :
    {n : ℕ} {s : System} → Reach n s → Inv minimum (2 ^ 64 - 1) s.stats.min_ns s.threads s.recorded
unfolding blank
Reach-minimum here = Start-Inv minimum (2 ^ 64 - 1) refl
Reach-minimum (next r st) = Step-minimum st (Reach-Calls r) (Reach-minimum r)

Reach-maximum : {n : ℕ} {s : System} → Reach n s → Inv maximum 0 s.stats.max_ns s.threads s.recorded
unfolding blank
Reach-maximum here = Start-Inv maximum 0 refl
Reach-maximum (next r st) = Step-maximum st (Reach-Calls r) (Reach-maximum r)

-- With every thread outside, nothing is pending.
settled :
    (x : Extreme) {initial m : ℕ} {threads : ℕ → Thread} {recorded : List (ℕ × ℕ)}
    → Inv x initial m threads recorded
    → ((k : ℕ) → threads k ≡ Thread.idle)
    → x.pending Thread.idle ≡ none
    → (v : ℕ × ℕ) → In v recorded
    → x.Le m v.0
settled x i quiet out v member = elim (i.covered v member) [
  | inl below ↦ below
  | inr (k, e) ↦ absurd (none-ne-some (sym out ∙ ap x.pending (sym (quiet k)) ∙ e))
]

-- With every thread outside `record`, both are what they are for the calls so far.
pub extremes_at_rest :
    {n : ℕ} {s : System}
    → Reach n s
    → Settled s
    → ((v : ℕ × ℕ) → In v s.recorded → (s.stats.min_ns ≤ v.0) × (v.0 ≤ s.stats.max_ns))
      × ((s.stats.min_ns ≡ 2 ^ 64 - 1) ⊎ Latency s.recorded s.stats.min_ns)
      × ((s.stats.max_ns ≡ 0) ⊎ Latency s.recorded s.stats.max_ns)
extremes_at_rest {n} {s} r quiet = (
  λ v member. (
    settled minimum (Reach-minimum r) quiet refl v member,
    settled maximum (Reach-maximum r) quiet refl v member,
  ),
  (Reach-minimum r).attained,
  (Reach-maximum r).attained,
)
