-- ===== src/Tracker/Threads/Extremes.antt =====
-- The minimum and the maximum of the tracker while threads are recording. Both are one invariant, over the
-- order in which the value may move.
pub mod Moves
use my_arbitrager.Prelude.{
  none-ne-some, ℕ, ◌≤◌, ◌≡◌, ◌≢◌, ◌⊎◌, inl, inr, refl, sym, ap, ◌∙◌, subst, List, [], ◌∷◌, some,
  none, Option, of_some, arith, Bool-cases, ◌==◌,
}
use my_arbitrager.Prelude.Family.{move, move_self, move_other, move-all}
use my_arbitrager.Engine.Members.{In}
use my_arbitrager.Tracker.Threads.{Thread}

-- One of the two extremes: its order, the threads that have a latency to bring in, and
-- what a thread takes for the present value.
pub record Extreme : Type 1 where
  pub Le : ℕ → ℕ → Type 0
  pub le_refl : (a : ℕ) → Le a a
  pub trans : (a b c : ℕ) → Le a b → Le b c → Le a c
  pub pending : Thread → Option ℕ
  pub seen : Thread → Option ℕ

-- A recorded latency.
abbrev pub Latency : List (ℕ × ℕ) → ℕ → Type 0
Latency recorded l = (v : ℕ × ℕ) × In v recorded × (v.0 ≡ l)

-- The value `m` has been recorded or is the first one; what it has yet to take in is pending; and no
-- thread has seen it further on than it is.
pub record Inv (x : Extreme) (initial m : ℕ) (threads : ℕ → Thread) (recorded : List (ℕ × ℕ))
    : Type 0 where
  pub attained : (m ≡ initial) ⊎ Latency recorded m
  pub covered :
      (v : ℕ × ℕ) → In v recorded → x.Le m v.0 ⊎ ((k : ℕ) × (x.pending (threads k) ≡ some v.0))
  pub known : (k c : ℕ) → x.seen (threads k) ≡ some c → x.Le m c

module _ (x : Extreme) {initial m : ℕ} {threads : ℕ → Thread} {recorded : List (ℕ × ℕ)}
    (i : Inv x initial m threads recorded) where
  -- Thread `k` moves from `a` to `b`, and the value to `m'`.
  pub moved :
      (m' k : ℕ) {a : Thread} (b : Thread)
      → threads k ≡ a
      → x.Le m' m
      → (m' ≡ m) ⊎ Latency recorded m'
      → ((l : ℕ) → x.pending a ≡ some l → x.Le m' l ⊎ (x.pending b ≡ some l))
      → ((c : ℕ) → x.seen b ≡ some c → x.Le m' c)
      → Inv x initial m' (move threads k b) recorded
  moved m' k {a} b at down from kept knows = record {
    attained = elim from [
      | inl e ↦ subst (λ z. (z ≡ initial) ⊎ Latency recorded z) (sym e) i.attained
      | inr new ↦ inr new
    ];
    covered = λ v member. elim (i.covered v member) [
      | inl below ↦ inl (x.trans m' m v.0 down below)
      | inr (j, e) ↦ still v j e
    ];
    known =
        move-all (λ j t. (c : ℕ) → x.seen t ≡ some c → x.Le m' c) threads k b knows
          (λ j ne c e. x.trans m' m c down (i.known j c e));
  }
    where
      still :
          (v : ℕ × ℕ) (j : ℕ)
          → x.pending (threads j) ≡ some v.0
          → x.Le m' v.0 ⊎ ((n : ℕ) × (x.pending (move threads k b n) ≡ some v.0))
      still v j e = elim (Bool-cases (k == j)) [
        | inl is_k ↦
            elim (kept v.0 (
              subst (λ t. x.pending t ≡ some v.0) at
                (subst (λ n. x.pending (threads n) ≡ some v.0) (ground arith) e))) [
                  | inl below ↦ inl below
                  | inr later ↦
                      inr
                        (k, subst (λ t. x.pending t ≡ some v.0) (sym (move_self threads k b)) later)
                ]
        | inr not_k ↦ inr (
          j,
          subst (λ t. x.pending t ≡ some v.0) (sym (move_other threads k j b (ground arith))) e,
        )
      ]

  -- Thread `k` starts a call.
  pub called :
      (k l o : ℕ)
      → threads k ≡ Thread.idle
      → x.pending Thread.idle ≡ none
      → x.pending (Thread.totalling l o) ≡ some l
      → x.seen (Thread.totalling l o) ≡ none
      → Inv x initial m (move threads k (Thread.totalling l o)) ((l, o) ∷ recorded)
  called k l o at out in_call unseen = record {
    attained = elim i.attained [ inl e ↦ inl e | inr (v, member, e) ↦ inr (v, inr member, e) ];
    covered = λ v member. elim member [
      | inl e ↦ inr (k, caller v e)
      | inr before ↦ elim (i.covered v before) [
        | inl below ↦ inl below
        | inr (j, e) ↦
            inr (j, ap x.pending (move_other threads k j (Thread.totalling l o) (busy v j e)) ∙ e)
      ]
    ];
    known =
        move-all (λ j t. (c : ℕ) → x.seen t ≡ some c → x.Le m c) threads k (Thread.totalling l o)
          (λ c e. absurd (none-ne-some (sym unseen ∙ e))) (λ j ne c e. i.known j c e);
  }
    where
      caller :
          (v : ℕ × ℕ) → v ≡ (l, o) → x.pending (move threads k (Thread.totalling l o) k) ≡ some v.0
      caller v e =
          ap x.pending (move_self threads k (Thread.totalling l o))
          ∙ in_call
          ∙ ap (λ w. some w.0) (sym e)

      busy : (v : ℕ × ℕ) (j : ℕ) → x.pending (threads j) ≡ some v.0 → k ≢ j
      busy v j e same =
          none-ne-some (sym out ∙ ap x.pending (sym at) ∙ ap (λ n. x.pending (threads n)) same ∙ e)
