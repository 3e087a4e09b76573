-- ===== src/Clients/Entries.antt =====
-- How far the loop over the entries of a message gets.
use my_arbitrager.Prelude.{◌≡◌, refl, ap, false, List, [], ◌∷◌, ◌++◌, Option, none, some}
use my_arbitrager.Market.{Ticker}
use my_arbitrager.Clients.{deliver_each}

module _ {J D : Type 0} (read : J → Option (Ticker D)) where
  -- These entries read as these tickers.
  abbrev pub Reads : List J → List (Ticker D) → Type 0
  Reads [] [] = Unit
  Reads [] (t ∷ ts) = ⊥
  Reads (x ∷ xs) [] = ⊥
  Reads (x ∷ xs) (t ∷ ts) = (read x ≡ some t) × Reads xs ts

  -- An entry that cannot be read ends the delivery: the entries before it, all of which can be, have
  -- been passed on in order, and none after it is.
  pub deliver_each_until :
      (xs : List J) (ts : List (Ticker D)) (bad : J) (rest : List J)
      → Reads xs ts
      → read bad ≡ none
      → deliver_each read (xs ++ bad ∷ rest) ≡ (ts, false)
  unfolding deliver_each
  deliver_each_until [] [] bad rest r b = rw b refl
  deliver_each_until [] (t ∷ ts) bad rest r b = elim r [ ]
  deliver_each_until (x ∷ xs) [] bad rest r b = elim r [ ]
  deliver_each_until (x ∷ xs) (t ∷ ts) bad rest (e, r) b =
      rw (e, deliver_each) (ap (λ z. (t ∷ z.0, z.1)) (deliver_each_until xs ts bad rest r b))
