-- ===== src/Tracker/Threads/Calls.antt =====
-- The calls that the threads are in, and those that have their index, are calls that have been recorded.
use my_arbitrager.Prelude.{
  none-ne-some, ℕ, ◌%◌, ◌≡◌, inl, inr, sym, ap, ◌∙◌, subst, List, [], ◌∷◌, ◌++◌, some, none, Option,
  of_some,
}
use my_arbitrager.Prelude.Family.{move, move-all}
use my_arbitrager.Engine.Members.{In, In-append}
use my_arbitrager.Tracker.{sample_buffer_size}
use my_arbitrager.Tracker.Threads.{
  Thread, System, Step, Reach, here, next, count_call, add_total, load_min, min_stands, min_fail,
  min_exchange, load_max, max_stands, max_fail, max_exchange, take_index, write_sample,
  write_occupancy,
}

-- The call that a thread is in.
abbrev pub call_of : Thread → Option (ℕ × ℕ)
call_of Thread.idle = none
call_of (Thread.totalling l o) = some (l, o)
call_of (Thread.min_loading l o) = some (l, o)
call_of (Thread.min_trying l o c) = some (l, o)
call_of (Thread.max_loading l o) = some (l, o)
call_of (Thread.max_trying l o c) = some (l, o)
call_of (Thread.indexing l o) = some (l, o)
call_of (Thread.sample_writing l o i) = some (l, o)
call_of (Thread.occupancy_writing l o i) = some (l, o)

pub record Calls (threads : ℕ → Thread) (recorded tickets : List (ℕ × ℕ)) : Type 0 where
  pub started : (k : ℕ) (v : ℕ × ℕ) → call_of (threads k) ≡ some v → In v recorded
  pub ticketed : (v : ℕ × ℕ) → In v tickets → In v recorded

module _ {threads : ℕ → Thread} {recorded tickets : List (ℕ × ℕ)}
    (c : Calls threads recorded tickets) where
  -- Thread `k` moves from `a` to `b`, of the same call or none.
  quiet :
      (k : ℕ) {a : Thread} (b : Thread)
      → threads k ≡ a
      → ((v : ℕ × ℕ) → call_of b ≡ some v → call_of a ≡ some v)
      → Calls (move threads k b) recorded tickets
  quiet k b at same_call = record {
    started =
        move-all (λ j t. (v : ℕ × ℕ) → call_of t ≡ some v → In v recorded) threads k b
          (λ v e. c.started k v (ap call_of at ∙ same_call v e)) (λ j ne. c.started j);
    ticketed = c.ticketed;
  }

  called : (k l o : ℕ) → Calls (move threads k (Thread.totalling l o)) ((l, o) ∷ recorded) tickets
  called k l o = record {
    started =
        move-all (λ j t. (v : ℕ × ℕ) → call_of t ≡ some v → In v ((l, o) ∷ recorded)) threads k
          (Thread.totalling l o) (λ v e. inl (sym (of_some e))) (λ j ne v e. inr (c.started j v e));
    ticketed = λ v member. inr (c.ticketed v member);
  }

  numbered : (v : ℕ × ℕ) → In v recorded → Calls threads recorded (tickets ++ v ∷ [])
  numbered v there = record {
    started = c.started;
    ticketed = λ w member. elim (In-append w tickets (v ∷ []) member) [
      | inl old ↦ c.ticketed w old
      | inr (inl same) ↦ subst (λ u. In u recorded) (sym same) there
      | inr (inr none_else) ↦ elim none_else [ ]
    ];
  }

Step-Calls :
    {n : ℕ} {s t : System}
    → Step n s t
    → Calls s.threads s.recorded s.tickets
    → Calls t.threads t.recorded t.tickets
Step-Calls {n} {s} (count_call k l o h e) c = called c k l o
Step-Calls {n} {s} (add_total k {l} {o} h e) c = quiet c k (Thread.min_loading l o) e (λ v d. d)
Step-Calls {n} {s} (load_min k {l} {o} h e) c =
    quiet c k (Thread.min_trying l o s.stats.min_ns) e (λ v d. d)
Step-Calls {n} {s} (min_stands k {l} {o} h e f) c = quiet c k (Thread.max_loading l o) e (λ v d. d)
Step-Calls {n} {s} (min_fail k {l} {o} h e f) c =
    quiet c k (Thread.min_trying l o s.stats.min_ns) e (λ v d. d)
Step-Calls {n} {s} (min_exchange k {l} {o} h e f g) c =
    quiet c k (Thread.max_loading l o) e (λ v d. d)
Step-Calls {n} {s} (load_max k {l} {o} h e) c =
    quiet c k (Thread.max_trying l o s.stats.max_ns) e (λ v d. d)
Step-Calls {n} {s} (max_stands k {l} {o} h e f) c = quiet c k (Thread.indexing l o) e (λ v d. d)
Step-Calls {n} {s} (max_fail k {l} {o} h e f) c =
    quiet c k (Thread.max_trying l o s.stats.max_ns) e (λ v d. d)
Step-Calls {n} {s} (max_exchange k {l} {o} h e f g) c = quiet c k (Thread.indexing l o) e (λ v d. d)
Step-Calls {n} {s} (take_index k {l} {o} h e) c =
    quiet (numbered c (l, o) (c.started k (l, o) (ap call_of e))) k
      (Thread.sample_writing l o (s.stats.sample_index % sample_buffer_size)) e (λ v d. d)
Step-Calls {n} {s} (write_sample k {l} {o} {idx} h e) c =
    quiet c k (Thread.occupancy_writing l o idx) e (λ v d. d)
Step-Calls {n} {s} (write_occupancy k {l} {o} h e) c =
    quiet c k Thread.idle e (λ v d. absurd (none-ne-some d))

pub Reach-Calls : {n : ℕ} {s : System} → Reach n s → Calls s.threads s.recorded s.tickets
Reach-Calls here = record {
  started = λ k v e. absurd (none-ne-some e);
  ticketed = λ v member. elim member [ ];
}
Reach-Calls (next r st) = Step-Calls st (Reach-Calls r)
