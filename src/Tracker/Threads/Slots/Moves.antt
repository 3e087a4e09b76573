-- ===== src/Tracker/Threads/Slots/Moves.antt =====
-- Every step of the threads keeps both sample arrays.
use my_arbitrager.Prelude.{
  none-ne-some, ℕ, ◌%◌, ◌^◌, ◌<◌, ◌≡◌, inl, inr, refl, sym, ap, ◌∙◌, List, [], some, none, Option,
  arith, length, length-replicate, replicate,
}
use my_arbitrager.Tracker.{blank, sample_buffer_size}
use my_arbitrager.Tracker.Threads.{
  Thread, System, Step, Reach, Settled, Step-grows, here, next, count_call, add_total, load_min,
  min_stands, min_fail, min_exchange, load_max, max_stands, max_fail, max_exchange, take_index,
  write_sample, write_occupancy,
}
use my_arbitrager.Tracker.Threads.Totals.{Totals, Reach-Totals}
use my_arbitrager.Tracker.Threads.Slots.{Holds, Inv, quiet, numbered, stored}

-- The call and the slot that a thread has still to write, in `samples` and in `occupancy_samples`.
abbrev sample_claim : Thread → Option ((ℕ × ℕ) × ℕ)
sample_claim (Thread.sample_writing l o i) = some ((l, o), i)
sample_claim _ = none

abbrev occupancy_claim : Thread → Option ((ℕ × ℕ) × ℕ)
occupancy_claim (Thread.sample_writing l o i) = some ((l, o), i)
occupancy_claim (Thread.occupancy_writing l o i) = some ((l, o), i)
occupancy_claim _ = none

abbrev Samples : System → Type 0
Samples s = Inv sample_buffer_size (λ v. v.0) sample_claim s.stats.samples s.threads s.tickets

abbrev Occupancies : System → Type 0
Occupancies s =
    Inv sample_buffer_size (λ v. v.1) occupancy_claim s.stats.occupancy_samples s.threads s.tickets

-- The next index, while the counter has not wrapped.
next_slot :
    {n : ℕ} {s : System}
    → Totals n s
    → length s.recorded < 2 ^ 64
    → s.stats.sample_index % sample_buffer_size ≡ length s.tickets % sample_buffer_size
next_slot t small = ap (λ i. i % sample_buffer_size) (omega (arith, t))

Step-Samples :
    {n : ℕ} {s t : System}
    → Step n s t
    → Totals n s
    → length s.recorded < 2 ^ 64
    → Samples s
    → Samples t
Step-Samples {n} {s} (count_call k l o h e) v small i = quiet i k (Thread.totalling l o) e refl
Step-Samples {n} {s} (add_total k {l} {o} h e) v small i = quiet i k (Thread.min_loading l o) e refl
Step-Samples {n} {s} (load_min k {l} {o} h e) v small i =
    quiet i k (Thread.min_trying l o s.stats.min_ns) e refl
Step-Samples {n} {s} (min_stands k {l} {o} h e f) v small i =
    quiet i k (Thread.max_loading l o) e refl
Step-Samples {n} {s} (min_fail k {l} {o} h e f) v small i =
    quiet i k (Thread.min_trying l o s.stats.min_ns) e refl
Step-Samples {n} {s} (min_exchange k {l} {o} h e f g) v small i =
    quiet i k (Thread.max_loading l o) e refl
Step-Samples {n} {s} (load_max k {l} {o} h e) v small i =
    quiet i k (Thread.max_trying l o s.stats.max_ns) e refl
Step-Samples {n} {s} (max_stands k {l} {o} h e f) v small i = quiet i k (Thread.indexing l o) e refl
Step-Samples {n} {s} (max_fail k {l} {o} h e f) v small i =
    quiet i k (Thread.max_trying l o s.stats.max_ns) e refl
Step-Samples {n} {s} (max_exchange k {l} {o} h e f g) v small i =
    quiet i k (Thread.indexing l o) e refl
Step-Samples {n} {s} (take_index k {l} {o} h e) v small i =
    numbered i k (Thread.sample_writing l o (s.stats.sample_index % sample_buffer_size)) (l, o)
      (omega arith) e refl (ap (λ n. some ((l, o), n)) (next_slot v small))
Step-Samples {n} {s} (write_sample k {l} {o} {idx} h e) v small i =
    stored i k (Thread.occupancy_writing l o idx) (l, o) idx e refl refl
Step-Samples {n} {s} (write_occupancy k {l} {o} {idx} h e) v small i = quiet i k Thread.idle e refl

Step-Occupancies :
    {n : ℕ} {s t : System}
    → Step n s t
    → Totals n s
    → length s.recorded < 2 ^ 64
    → Occupancies s
    → Occupancies t
Step-Occupancies {n} {s} (count_call k l o h e) v small i = quiet i k (Thread.totalling l o) e refl
Step-Occupancies {n} {s} (add_total k {l} {o} h e) v small i =
    quiet i k (Thread.min_loading l o) e refl
Step-Occupancies {n} {s} (load_min k {l} {o} h e) v small i =
    quiet i k (Thread.min_trying l o s.stats.min_ns) e refl
Step-Occupancies {n} {s} (min_stands k {l} {o} h e f) v small i =
    quiet i k (Thread.max_loading l o) e refl
Step-Occupancies {n} {s} (min_fail k {l} {o} h e f) v small i =
    quiet i k (Thread.min_trying l o s.stats.min_ns) e refl
Step-Occupancies {n} {s} (min_exchange k {l} {o} h e f g) v small i =
    quiet i k (Thread.max_loading l o) e refl
Step-Occupancies {n} {s} (load_max k {l} {o} h e) v small i =
    quiet i k (Thread.max_trying l o s.stats.max_ns) e refl
Step-Occupancies {n} {s} (max_stands k {l} {o} h e f) v small i =
    quiet i k (Thread.indexing l o) e refl
Step-Occupancies {n} {s} (max_fail k {l} {o} h e f) v small i =
    quiet i k (Thread.max_trying l o s.stats.max_ns) e refl
Step-Occupancies {n} {s} (max_exchange k {l} {o} h e f g) v small i =
    quiet i k (Thread.indexing l o) e refl
Step-Occupancies {n} {s} (take_index k {l} {o} h e) v small i =
    numbered i k (Thread.sample_writing l o (s.stats.sample_index % sample_buffer_size)) (l, o)
      (omega arith) e refl (ap (λ n. some ((l, o), n)) (next_slot v small))
Step-Occupancies {n} {s} (write_sample k {l} {o} {idx} h e) v small i =
    quiet i k (Thread.occupancy_writing l o idx) e refl
Step-Occupancies {n} {s} (write_occupancy k {l} {o} {idx} h e) v small i =
    stored i k Thread.idle (l, o) idx e refl refl

start-Inv :
    (value : ℕ × ℕ → ℕ) (claim : Thread → Option ((ℕ × ℕ) × ℕ))
    → claim Thread.idle ≡ none
    → Inv sample_buffer_size value claim (replicate sample_buffer_size 0) (λ _. Thread.idle) []
start-Inv value claim free = record {
  sized = length-replicate {A = ℕ} sample_buffer_size 0;
  filled = λ i h lt. absurd (omega arith);
  known = λ k v i e. absurd (none-ne-some (sym free ∙ e));
}

Reach-arrays :
    {n : ℕ} {s : System} → Reach n s → length s.recorded < 2 ^ 64 → Samples s × Occupancies s
unfolding blank
Reach-arrays here small =
    (start-Inv (λ v. v.0) sample_claim refl, start-Inv (λ v. v.1) occupancy_claim refl)
Reach-arrays (next {s} r st) small =
    let before : length s.recorded < 2 ^ 64 = omega (arith, Step-grows st) in
    let (samples, occupancies) = Reach-arrays r before in
    (
      Step-Samples st (Reach-Totals r) before samples,
      Step-Occupancies st (Reach-Totals r) before occupancies,
    )

settled :
    {value : ℕ × ℕ → ℕ} (claim : Thread → Option ((ℕ × ℕ) × ℕ)) {array : List ℕ}
    {threads : ℕ → Thread} {tickets : List (ℕ × ℕ)}
    → Inv sample_buffer_size value claim array threads tickets
    → ((k : ℕ) → threads k ≡ Thread.idle)
    → claim Thread.idle ≡ none
    → (i : ℕ) → i < sample_buffer_size
    → i < length tickets
    → Holds sample_buffer_size value array tickets i
settled claim inv quiet free i h lt = elim (inv.filled i h lt) [
  | inl held ↦ held
  | inr (k, v, e) ↦ absurd (none-ne-some (sym free ∙ ap claim (sym (quiet k)) ∙ e))
]

-- With every thread outside `record`, every slot that has been given out is filled in both arrays.
pub arrays_at_rest :
    {n : ℕ} {s : System}
    → Reach n s
    → Settled s
    → length s.recorded < 2 ^ 64
    → (i : ℕ) → i < sample_buffer_size
    → i < length s.tickets
    → Holds sample_buffer_size (λ v. v.0) s.stats.samples s.tickets i
      × Holds sample_buffer_size (λ v. v.1) s.stats.occupancy_samples s.tickets i
arrays_at_rest r quiet small i h lt =
    let (samples, occupancies) = Reach-arrays r small in
    (
      settled sample_claim samples quiet refl i h lt,
      settled occupancy_claim occupancies quiet refl i h lt,
    )
