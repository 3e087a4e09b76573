-- ===== src/Prelude/Family.antt =====
-- What each of several threads has, as a function of the thread's number.
use Prim.Native.Nat.{ℕ, zero, suc, ◌+◌, ◌≤◌, ◌<◌}
use mathlib.Core.Path.{◌≡◌, refl, ap, sym, subst, ◌∙◌}
use mathlib.Core.Logic.{◌≢◌, inl, inr}
use native.Mathlib.Omega.{arith}
use my_arbitrager.Prelude.Tests.{◌==◌, if◌then◌else◌, Bool-cases, if-true, if-false}

module _ {ℓ} {A : Type ℓ} where
  -- Thread `k` moves on.
  abbrev pub move : (ℕ → A) → ℕ → A → ℕ → A
  move threads k a j = if k == j then a else threads j

  pub move_self : (threads : ℕ → A) (k : ℕ) (a : A) → move threads k a k ≡ a
  move_self threads k a = if-true {c = k == k} _ _ (ground arith)

  pub move_other : (threads : ℕ → A) (k j : ℕ) (a : A) → k ≢ j → move threads k a j ≡ threads j
  move_other threads k j a ne = if-false {c = k == j} _ _ (ground arith)

  -- A fact about every thread, after one of them has moved.
  pub move-all {κ} :
      (P : ℕ → A → Type κ) (threads : ℕ → A) (k : ℕ) (a : A)
      → P k a
      → ((j : ℕ) → k ≢ j → P j (threads j))
      → (j : ℕ) → P j (move threads k a j)
  move-all P threads k a h others j = elim (Bool-cases (k == j)) [
    | inl same ↦ subst (P j) (sym (if-true _ _ same)) (subst (λ i. P i a) (ground arith) h)
    | inr other ↦ subst (P j) (sym (if-false _ _ other)) (others j (ground arith))
  ]

module _ {A : Type 0} (weight : A → ℕ) where
  -- The sum over the threads numbered below `n`.
  pub sum_below : (n : ℕ) → (ℕ → A) → ℕ
  sum_below zero threads = 0
  sum_below (suc n) threads = weight (threads n) + sum_below n threads

  sum_below-move_above :
      (n : ℕ) (threads : ℕ → A) (k : ℕ) (a : A)
      → n ≤ k
      → sum_below n (move threads k a) ≡ sum_below n threads
  unfolding sum_below
  sum_below-move_above zero threads k a h = refl
  sum_below-move_above (suc n) threads k a h = ground (arith, sum_below-move_above n threads k a)

  sum_below-move_self :
      (n : ℕ) (threads : ℕ → A) (k : ℕ) (a : A)
      → k < n
      → sum_below n (move threads k a) + weight (threads k) ≡ sum_below n threads + weight a
  unfolding sum_below
  sum_below-move_self zero threads k a h = elim h [ ]
  sum_below-move_self (suc n) threads k a h = elim (Bool-cases (k == n)) [
    | inl last ↦ ground (arith, sum_below-move_above n threads k a)
    | inr before ↦ ground (arith, sum_below-move_self n threads k a)
  ]

  -- The mover's share is exchanged for its new one.
  pub sum_below-move :
      (n : ℕ) (threads : ℕ → A) (k : ℕ) {a : A} (b : A)
      → threads k ≡ a
      → k < n
      → sum_below n (move threads k b) + weight a ≡ sum_below n threads + weight b
  sum_below-move n threads k b at h =
      ap (λ c. sum_below n (move threads k b) + weight c) (sym at)
      ∙ sum_below-move_self n threads k b h

  pub sum_below_zero :
      (n : ℕ) (threads : ℕ → A) → ((k : ℕ) → weight (threads k) ≡ 0) → sum_below n threads ≡ 0
  unfolding sum_below
  sum_below_zero zero threads none_left = refl
  sum_below_zero (suc n) threads none_left =
      omega (arith, none_left n, sum_below_zero n threads none_left)
