-- ===== src/Tracker/Threads/Alone.antt =====
-- A thread that records while no other one moves.
use my_arbitrager.Prelude.{
  ℕ, suc, ◌%◌, ◌<◌, List, [], ◌∷◌, ◌++◌, ◌≡◌, ◌≢◌, refl, sym, ap, ◌∙◌, Bool-cases, inl, inr, arith,
  set, ltb, ◌==◌, subst, if◌then◌else◌,
}
use my_arbitrager.Prelude.Bits.{add64}
use my_arbitrager.Prelude.Family.{move, move_self, move_other}
use my_arbitrager.Tracker.{ExchangeStats, sample_buffer_size, put}
use my_arbitrager.Tracker.Threads.{
  Thread, System, Step, count_call, add_total, load_min, min_stands, min_fail, min_exchange,
  load_max, max_stands, max_fail, max_exchange, take_index, write_sample, write_occupancy,
}

-- The thread that moves.
abbrev pub mover : {n : ℕ} {s t : System} → Step n s t → ℕ
mover (count_call k l o h e) = k
mover (add_total k h e) = k
mover (load_min k h e) = k
mover (min_stands k h e f) = k
mover (min_fail k h e f) = k
mover (min_exchange k h e f g) = k
mover (load_max k h e) = k
mover (max_stands k h e f) = k
mover (max_fail k h e f) = k
mover (max_exchange k h e f g) = k
mover (take_index k h e) = k
mover (write_sample k h e) = k
mover (write_occupancy k h e) = k

-- A number of steps from `s` on, every one of them by the thread `k`.
pub data Alone (n k : ℕ) (s : System) : ℕ → System → Type 0 where
  here : Alone n k s 0 s
  next :
      {m : ℕ} {t u : System}
      → Alone n k s m t
      → (move : Step n t u) → mover move ≡ k
      → Alone n k s (suc m) u

-- The thread `k`, after `m` steps of its own from `s`, has got from `t` to `pc`, with these statistics and
-- tickets, and the others stay where they are.
record Gets (n k : ℕ) (s t : System) (m : ℕ) (stats : ExchangeStats) (tickets : List (ℕ × ℕ))
    (recorded : List (ℕ × ℕ)) (pc : Thread) : Type 0 where
  final : System
  run : Alone n k s m final
  statistics : final.stats ≡ stats
  indexed : final.tickets ≡ tickets
  begun : final.recorded ≡ recorded
  mine : final.threads k ≡ pc
  others : (j : ℕ) → k ≢ j → final.threads j ≡ t.threads j

abbrev counted : ExchangeStats → ℕ → ExchangeStats
counted ex l = record ex {
  count = add64 ex.count 1;
  total_ns = add64 ex.total_ns l;
  min_ns = if ltb l ex.min_ns then l else ex.min_ns;
}

abbrev bounded : ExchangeStats → ℕ → ExchangeStats
bounded ex l = record ex { max_ns = if ltb ex.max_ns l then l else ex.max_ns }

abbrev sampled : ExchangeStats → (l o : ℕ) → ExchangeStats
sampled ex l o = record ex {
  samples = set ex.samples (ex.sample_index % sample_buffer_size) l;
  occupancy_samples = set ex.occupancy_samples (ex.sample_index % sample_buffer_size) o;
  sample_index = add64 ex.sample_index 1;
}

module _ {n m : ℕ} {s₀ s : System} (k l o : ℕ) (h : k < n) (r : Alone n k s₀ m s) where
  others_stay : (a b : Thread) (j : ℕ) → k ≢ j → move (move s.threads k a) k b j ≡ s.threads j
  others_stay a b j ne = move_other (move s.threads k a) k j b ne ∙ move_other s.threads k j a ne

  count_alone :
      s.threads k ≡ Thread.idle
      → Gets n k s₀ s
          (suc (suc (suc (suc m))))
          (counted s.stats l)
          s.tickets
          ((l, o) ∷ s.recorded)
          (Thread.max_loading l o)
  count_alone at =
      let p₁ = move s.threads k (Thread.totalling l o) in
      let p₂ = move p₁ k (Thread.min_loading l o) in
      let trying = Thread.min_trying l o s.stats.min_ns in
      let p₃ = move p₂ k trying in
      let r₁ = next r (count_call k l o h at) refl in
      let r₂ = next r₁ (add_total k h (move_self s.threads k (Thread.totalling l o))) refl in
      let r₃ = next r₂ (load_min k h (move_self p₁ k (Thread.min_loading l o))) refl in
      let stay : (j : ℕ) → k ≢ j → move p₃ k (Thread.max_loading l o) j ≡ s.threads j = λ j ne.
        move_other p₃ k j (Thread.max_loading l o) ne
        ∙ move_other p₂ k j trying ne
        ∙ others_stay (Thread.totalling l o) (Thread.min_loading l o) j ne in
      elim (Bool-cases (ltb l s.stats.min_ns)) [
        | inl lower ↦ record {
          final = _;
          run = next r₃ (min_exchange k h (move_self p₂ k trying) lower refl) refl;
          statistics = rw lower refl;
          indexed = refl;
          begun = refl;
          mine = move_self p₃ k (Thread.max_loading l o);
          others = stay;
        }
        | inr higher ↦ record {
          final = _;
          run = next r₃ (min_stands k h (move_self p₂ k trying) higher) refl;
          statistics = rw higher refl;
          indexed = refl;
          begun = refl;
          mine = move_self p₃ k (Thread.max_loading l o);
          others = stay;
        }
      ]

  bound_alone :
      s.threads k ≡ Thread.max_loading l o
      → Gets n k s₀ s (suc (suc m)) (bounded s.stats l) s.tickets s.recorded (Thread.indexing l o)
  bound_alone at =
      let trying = Thread.max_trying l o s.stats.max_ns in
      let p₁ = move s.threads k trying in
      let r₁ = next r (load_max k h at) refl in
      let stay = others_stay trying (Thread.indexing l o) in
      elim (Bool-cases (ltb s.stats.max_ns l)) [
        | inl higher ↦ record {
          final = _;
          run = next r₁ (max_exchange k h (move_self s.threads k trying) higher refl) refl;
          statistics = rw higher refl;
          indexed = refl;
          begun = refl;
          mine = move_self p₁ k (Thread.indexing l o);
          others = stay;
        }
        | inr lower ↦ record {
          final = _;
          run = next r₁ (max_stands k h (move_self s.threads k trying) lower) refl;
          statistics = rw lower refl;
          indexed = refl;
          begun = refl;
          mine = move_self p₁ k (Thread.indexing l o);
          others = stay;
        }
      ]

  sample_alone :
      s.threads k ≡ Thread.indexing l o
      → Gets n k s₀ s
          (suc (suc (suc m)))
          (sampled s.stats l o)
          (s.tickets ++ (l, o) ∷ [])
          s.recorded
          Thread.idle
  sample_alone at =
      let idx = s.stats.sample_index % sample_buffer_size in
      let p₁ = move s.threads k (Thread.sample_writing l o idx) in
      let p₂ = move p₁ k (Thread.occupancy_writing l o idx) in
      let r₁ = next r (take_index k h at) refl in
      let r₂ =
        next r₁ (write_sample k h (move_self s.threads k (Thread.sample_writing l o idx))) refl in
      record {
        final = _;
        run =
            next r₂ (write_occupancy k h (move_self p₁ k (Thread.occupancy_writing l o idx))) refl;
        statistics = refl;
        indexed = refl;
        begun = refl;
        mine = move_self p₂ k Thread.idle;
        others = λ j ne.
            move_other p₂ k j Thread.idle ne
            ∙ others_stay (Thread.sample_writing l o idx) (Thread.occupancy_writing l o idx) j ne;
      }

-- In whatever state of the statistics and of the other threads, a thread outside `record` can make a call
-- of it in nine steps of its own, without a step of another thread. They end outside `record`, with the
-- statistics that the call run whole gives and the call among those recorded, and leave the other threads
-- where they are.
pub alone-put :
    {n : ℕ} {s : System} (k l o : ℕ)
    → k < n
    → s.threads k ≡ Thread.idle
    → (t : System) × Alone n k s 9 t
      × (t.stats ≡ put s.stats l o)
      × (t.recorded ≡ (l, o) ∷ s.recorded)
      × (t.tickets ≡ s.tickets ++ (l, o) ∷ [])
      × ((j : ℕ) → t.threads j ≡ s.threads j)
unfolding put
alone-put {s = s} k l o h at =
    let first = count_alone k l o h here at in
    let second = bound_alone k l o h first.run first.mine in
    let third = sample_alone k l o h second.run second.mine in
    (
      third.final,
      third.run,
      third.statistics
          ∙ ap (λ ex. sampled ex l o)
              (second.statistics ∙ ap (λ ex. bounded ex l) first.statistics),
      third.begun ∙ second.begun ∙ first.begun,
      third.indexed ∙ ap (λ ts. ts ++ (l, o) ∷ []) (second.indexed ∙ first.indexed),
      λ j. elim (Bool-cases (k == j)) [
        | inl same ↦
            subst (λ i. third.final.threads i ≡ s.threads i) (ground arith) (third.mine ∙ sym at)
        | inr other ↦
            let ne : k ≢ j = ground arith in
            third.others j ne ∙ second.others j ne ∙ first.others j ne
      ],
    )
