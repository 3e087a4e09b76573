-- ===== src/Tracker/Names.antt =====
-- The table of exchanges by name.
use my_arbitrager.Prelude.{
  ℕ, zero, suc, ◌+◌, ◌≤◌, ◌<◌, ◌≡◌, refl, sym, ap, ◌∙◌, ◌⊎◌, inl, inr, Bool-cases, if-true,
  if-false, List, [], ◌∷◌, none, some, arith, length, ltb, Option-cases,
}
use my_arbitrager.Prelude.Text.{Text, same, same_refl}
use my_arbitrager.Tracker.{
  ExchangeStats, Tracker, max_exchanges, find_name, modify, add_exchange, register_exchange,
}

-- The array has MAX_EXCHANGES entries, and the count of those in use is in range.
pub record IsSized (t : Tracker) : Type 0 where
  pub slots : length t.exchanges ≡ max_exchanges
  pub in_use : t.exchange_count ≤ max_exchanges

length-modify :
    (f : ExchangeStats → ExchangeStats) (exs : List ExchangeStats) (i : ℕ)
    → length (modify f exs i) ≡ length exs
unfolding modify
length-modify f [] i = refl
length-modify f (ex ∷ exs) zero = refl
length-modify f (ex ∷ exs) (suc i) = ap suc (length-modify f exs i)

some_not_none : {k : ℕ} → some k ≡ none → ⊥
some_not_none e = cc

module _ (name : Text) where
  abbrev named : ExchangeStats → ExchangeStats
  named ex = record ex { name = name }

  -- A name that is not there is found in the slot that gets it.
  find_name_added :
      (n : ℕ) (exs : List ExchangeStats) (i : ℕ)
      → n < length exs
      → find_name name n exs i ≡ none
      → find_name name (suc n) (modify named exs n) i ≡ some (i + n)
  unfolding find_name modify
  find_name_added zero [] i room absent = elim room [ ]
  find_name_added (suc n) [] i room absent = elim room [ ]
  find_name_added zero (ex ∷ exs) i room absent =
      if-true _ _ (same_refl name) ∙ ap some (omega arith)
  find_name_added (suc n) (ex ∷ exs) i room absent = elim (Bool-cases (same ex.name name)) [
    | inl hit ↦ absurd (some_not_none (sym (if-true _ _ hit) ∙ absent))
    | inr miss ↦ rw miss (
        find_name_added n exs (i + 1) (omega arith) (sym (if-false _ _ miss) ∙ absent)
        ∙ ap some (omega arith))
  ]

  -- A name that is there is found where it was.
  find_name_others :
      (other : Text) (n : ℕ) (exs : List ExchangeStats) (i k : ℕ)
      → find_name other n exs i ≡ some k
      → find_name other (suc n) (modify named exs n) i ≡ some k
  unfolding find_name modify
  find_name_others other zero exs i k e = absurd (some_not_none (sym e))
  find_name_others other (suc n) [] i k e = absurd (some_not_none (sym e))
  find_name_others other (suc n) (ex ∷ exs) i k e = elim (Bool-cases (same ex.name other)) [
    | inl hit ↦ rw hit (sym (if-true _ _ hit) ∙ e)
    | inr miss ↦ rw miss (find_name_others other n exs (i + 1) k (sym (if-false _ _ miss) ∙ e))
  ]

  -- What a registration does to a table: the name is found from then on at the index given, or the
  -- table is full without it, stays as it is, and the index is 0. The other names keep their indices.
  pub record Registered (t : Tracker) (r : ℕ × Tracker) : Type 0 where
    pub sized : IsSized r.1
    pub index :
        (find_name name r.1.exchange_count r.1.exchanges 0 ≡ some r.0)
        ⊎ ((r ≡ (0, t))
            × (t.exchange_count ≡ max_exchanges)
            × (find_name name t.exchange_count t.exchanges 0 ≡ none))
    pub others :
        (other : Text) (k : ℕ)
        → find_name other t.exchange_count t.exchanges 0 ≡ some k
        → find_name other r.1.exchange_count r.1.exchanges 0 ≡ some k

  add_exchange-Registered :
      (t : Tracker)
      → IsSized t
      → find_name name t.exchange_count t.exchanges 0 ≡ none
      → Registered t (add_exchange t name)
  unfolding add_exchange
  add_exchange-Registered t w absent = elim (Bool-cases (ltb t.exchange_count max_exchanges)) [
    | inl room ↦ rw (if-true {A = ℕ × Tracker} (t.exchange_count, taken) (0, t) room) record {
      sized = record {
        slots = length-modify named t.exchanges t.exchange_count ∙ w.slots;
        in_use = ground (arith, w.in_use);
      };
      index = inl (
          ap (λ n. find_name name n (modify named t.exchanges t.exchange_count) 0) (omega arith)
          ∙ find_name_added t.exchange_count t.exchanges 0 (ground (arith, w.slots)) absent
          ∙ ap some (omega arith));
      others = λ other k e.
          ap (λ n. find_name other n (modify named t.exchanges t.exchange_count) 0) (omega arith)
          ∙ find_name_others other t.exchange_count t.exchanges 0 k e;
    }
    | inr full ↦ rw (if-false {A = ℕ × Tracker} (t.exchange_count, taken) (0, t) full) record {
      sized = w;
      index = inr (refl, ground (arith, w.in_use), absent);
      others = λ other k e. e;
    }
  ]
    where
      taken : Tracker
      taken = record {
        exchanges = modify named t.exchanges t.exchange_count;
        exchange_count = t.exchange_count + 1;
      }

  -- Registering an exchange in a table of five slots gives the index where its name is found from then
  -- on, whether it was there or not, unless the table is full without it: then nothing changes and the
  -- index is 0. No other name loses its index.
  pub register_exchange-Registered :
      (t : Tracker) → IsSized t → Registered t (register_exchange t name)
  unfolding register_exchange
  register_exchange-Registered t w =
      elim (Option-cases (find_name name t.exchange_count t.exchanges 0)) [
        | inl absent ↦ rw (absent, register_exchange) (add_exchange-Registered t w absent)
        | inr (i, found) ↦
            rw (found, register_exchange)
              record { sized = w; index = inl found; others = λ other k e. e }
      ]
