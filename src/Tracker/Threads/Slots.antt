-- ===== src/Tracker/Threads/Slots.antt =====
-- The two sample arrays of the tracker while threads are recording. Both are one invariant, over what a
-- thread has still to write.
pub mod Moves
use my_arbitrager.Prelude.{
  none-ne-some, ℕ, ◌+◌, ◌%◌, ◌<◌, ◌≡◌, ◌≢◌, ◌⊎◌, inl, inr, refl, sym, ap, ◌∙◌, subst, List, [], ◌∷◌,
  ◌++◌, some, none, Option, of_some, arith, Bool-cases, ◌==◌, length, length-append, length-set,
  set, get_elem?, get_elem?-set_self, get_elem?-set_ne, get_elem?-append_left,
  get_elem?-append_length,
}
use native.Mathlib.Decide.{dec_lt, ℕ_discrete}
use native.Mathlib.Nat.{mod-lt, mod-eq_of_lt}
use my_arbitrager.Prelude.Family.{move, move_self, move_other, move-all}
use my_arbitrager.Tracker.Threads.{Thread}

-- The call `v` got a number of slot `i`.
pub record Ticket (size : ℕ) (tickets : List (ℕ × ℕ)) (v : ℕ × ℕ) (i : ℕ) : Type 0 where
  pub number : ℕ
  pub given : get_elem? tickets number ≡ some v
  pub slot : number % size ≡ i

-- Slot `i` of the array holds what a call of that slot recorded.
pub record Holds (size : ℕ) (value : ℕ × ℕ → ℕ) (array : List ℕ) (tickets : List (ℕ × ℕ)) (i : ℕ)
    : Type 0 where
  pub call : ℕ × ℕ
  pub ticket : Ticket size tickets call i
  pub written : get_elem? array i ≡ some (value call)

abbrev pub Claimed : (Thread → Option ((ℕ × ℕ) × ℕ)) → (ℕ → Thread) → ℕ → Type 0
Claimed claim threads i = (k : ℕ) × (v : ℕ × ℕ) × (claim (threads k) ≡ some (v, i))

pub record Inv (size : ℕ) (value : ℕ × ℕ → ℕ) (claim : Thread → Option ((ℕ × ℕ) × ℕ))
    (array : List ℕ) (threads : ℕ → Thread) (tickets : List (ℕ × ℕ)) : Type 0 where
  pub sized : length array ≡ size
  pub filled :
      (i : ℕ)
      → i < size
      → i < length tickets
      → Holds size value array tickets i ⊎ Claimed claim threads i
  pub known :
      (k : ℕ) (v : ℕ × ℕ) (i : ℕ)
      → claim (threads k) ≡ some (v, i)
      → (i < size) × Ticket size tickets v i

Ticket-append :
    {size : ℕ} {tickets : List (ℕ × ℕ)} {v : ℕ × ℕ} {i : ℕ} (w : ℕ × ℕ)
    → Ticket size tickets v i
    → Ticket size (tickets ++ w ∷ []) v i
Ticket-append {tickets = tickets} w t = record {
  number = t.number;
  given = get_elem?-append_left tickets (w ∷ []) t.number t.given;
  slot = t.slot;
}

module _ {size : ℕ} {value : ℕ × ℕ → ℕ} {claim : Thread → Option ((ℕ × ℕ) × ℕ)} {array : List ℕ}
    {threads : ℕ → Thread} {tickets : List (ℕ × ℕ)}
    (inv : Inv size value claim array threads tickets) where
  -- Thread `k` moves, with the same to write as before.
  pub quiet :
      (k : ℕ) {a : Thread} (b : Thread)
      → threads k ≡ a
      → claim b ≡ claim a
      → Inv size value claim array (move threads k b) tickets
  quiet k b at same = record {
    sized = inv.sized;
    filled = λ i h lt. elim (inv.filled i h lt) [
      | inl held ↦ inl held
      | inr (j, v, e) ↦ inr (j, v, all_same j ∙ e)
    ];
    known = λ j v i e. inv.known j v i (sym (all_same j) ∙ e);
  }
    where
      all_same : (j : ℕ) → claim (move threads k b j) ≡ claim (threads j)
      all_same =
          move-all (λ j t. claim t ≡ claim (threads j)) threads k b (same ∙ ap claim (sym at))
            (λ j ne. refl)

  -- Thread `k` gets the next number for `v`.
  pub numbered :
      (k : ℕ) {a : Thread} (b : Thread) (v : ℕ × ℕ)
      → 0 < size
      → threads k ≡ a
      → claim a ≡ none
      → claim b ≡ some (v, length tickets % size)
      → Inv size value claim array (move threads k b) (tickets ++ v ∷ [])
  numbered k b v pos at free mine = record {
    sized = inv.sized;
    filled = λ i h lt. elim (dec_lt i (length tickets)) [
      | yes old ↦ elim (inv.filled i h old) [
        | inl held ↦ inl (record {
          call = held.call;
          ticket = Ticket-append v held.ticket;
          written = held.written;
        })
        | inr (j, w, e) ↦
            inr (j, w, ap claim (move_other threads k j b (λ same. not_k j w i e same)) ∙ e)
      ]
      | no new ↦
          inr (
            k,
            v,
            ap claim (move_self threads k b) ∙ mine ∙ ap (λ n. some (v, n)) (last i h lt new),
          )
    ];
    known =
        move-all
          (λ j t.
            (w : ℕ × ℕ) (i : ℕ)
            → claim t ≡ some (w, i)
            → (i < size) × Ticket size (tickets ++ v ∷ []) w i)
          threads k b (λ w i e. newest w i (of_some (sym mine ∙ e)))
          (λ j ne w i e. let (h, t) = inv.known j w i e in (h, Ticket-append v t));
  }
    where
      not_k : (j : ℕ) (w : ℕ × ℕ) (i : ℕ) → claim (threads j) ≡ some (w, i) → k ≡ j → ⊥
      not_k j w i e same =
          none-ne-some (sym free ∙ ap claim (sym at) ∙ ap (λ n. claim (threads n)) same ∙ e)

      last :
          (i : ℕ)
          → i < size
          → i < length (tickets ++ v ∷ [])
          → ¬ (i < length tickets)
          → length tickets % size ≡ i
      last i h lt new =
          let at_end : length tickets ≡ i = omega (arith, length-append tickets (v ∷ [])) in
          mod-eq_of_lt (omega arith) ∙ at_end

      newest :
          (w : ℕ × ℕ) (i : ℕ)
          → ◌≡◌ {A = (ℕ × ℕ) × ℕ} (v, length tickets % size) (w, i)
          → (i < size) × Ticket size (tickets ++ v ∷ []) w i
      newest w i e = (
        subst (λ n. n < size) (ap (λ p. p.1) e) (mod-lt (length tickets) pos),
        record {
          number = length tickets;
          given = get_elem?-append_length tickets [] v ∙ ap (λ p. some p.0) e;
          slot = ap (λ p. p.1) e;
        },
      )

  -- Thread `k` writes its value.
  pub stored :
      (k : ℕ) {a : Thread} (b : Thread) (v : ℕ × ℕ) (i : ℕ)
      → threads k ≡ a
      → claim a ≡ some (v, i)
      → claim b ≡ none
      → Inv size value claim (set array i (value v)) (move threads k b) tickets
  stored k b v i at mine free = record {
    sized = length-set array i (value v) ∙ inv.sized;
    filled = λ j h lt. elim (ℕ_discrete i j) [
      | yes same ↦ inl (subst (Holds size value (set array i (value v)) tickets) same here)
      | no other ↦ elim (inv.filled j h lt) [
        | inl held ↦ inl (record {
          call = held.call;
          ticket = held.ticket;
          written = get_elem?-set_ne array i j (value v) other ∙ held.written;
        })
        | inr (n, w, e) ↦
            inr (n, w, ap claim (move_other threads k n b (λ same. not_k n w j e same other)) ∙ e)
      ]
    ];
    known =
        move-all
          (λ j t.
            (w : ℕ × ℕ) (n : ℕ) → claim t ≡ some (w, n) → (n < size) × Ticket size tickets w n)
          threads k b (λ w n e. absurd (none-ne-some (sym free ∙ e)))
          (λ j ne w n e. inv.known j w n e);
  }
    where
      ticket : (i < size) × Ticket size tickets v i
      ticket = inv.known k v i (ap claim at ∙ mine)

      here : Holds size value (set array i (value v)) tickets i
      here = record {
        call = v;
        ticket = ticket.1;
        written = get_elem?-set_self array i (value v) (omega (arith, inv.sized, ticket.0));
      }

      not_k : (n : ℕ) (w : ℕ × ℕ) (j : ℕ) → claim (threads n) ≡ some (w, j) → k ≡ n → i ≢ j → ⊥
      not_k n w j e same other = other (
          ap (λ p. p.1)
            (of_some (sym mine ∙ ap claim (sym at) ∙ ap (λ m. claim (threads m)) same ∙ e)))
