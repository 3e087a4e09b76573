-- ===== src/Intake/Latest.antt =====
-- The market data after a drain: the latest ticker of each key.
use my_arbitrager.Prelude.{
  ℕ, ◌+◌, ◌^◌, ◌<◌, ◌≡◌, refl, ◌∙◌, false, List, [], ◌∷◌, ◌++◌, some, arith, All, length, if-true,
  if-false,
}
use my_arbitrager.Prelude.Bits.{add64}
use my_arbitrager.Prelude.Text.{Text, same, same_refl}
use my_arbitrager.Market.{Ticker}
use my_arbitrager.Market.Map.{lookup, insert, lookup-insert}
use my_arbitrager.Intake.{ticker_key, drain_from, drain_all}

module _ {D : Type 0} where
  -- None of these tickers has the key.
  abbrev pub Without : Text → List (Ticker D) → Type 0
  Without key ts = All (λ t. same (ticker_key t) key ≡ false) ts

  drain_from_count :
      (ts : List (Ticker D)) (m : List (Text × Ticker D)) (n : ℕ)
      → n + length ts < 2 ^ 64
      → (drain_from ts m n).0 ≡ n + length ts
  unfolding drain_from
  drain_from_count [] m n small = omega arith
  drain_from_count (t ∷ ts) m n small =
      drain_from_count ts (insert (ticker_key t) t m) (add64 n 1) (omega arith) ∙ omega arith

  drain_from-Without :
      (key : Text) (ts : List (Ticker D)) (m : List (Text × Ticker D)) (n : ℕ)
      → Without key ts
      → lookup key (drain_from ts m n).1 ≡ lookup key m
  unfolding drain_from
  drain_from-Without key [] m n w = refl
  drain_from-Without key (t ∷ ts) m n (h, w) =
      drain_from-Without key ts (insert (ticker_key t) t m) (add64 n 1) w
      ∙ lookup-insert (ticker_key t) key t m
      ∙ if-false _ _ h

  drain_from_last :
      (older newer : List (Ticker D)) (t : Ticker D) (m : List (Text × Ticker D)) (n : ℕ)
      → Without (ticker_key t) newer
      → lookup (ticker_key t) (drain_from (older ++ t ∷ newer) m n).1 ≡ some t
  unfolding drain_from
  drain_from_last [] newer t m n w =
      drain_from-Without (ticker_key t) newer (insert (ticker_key t) t m) (add64 n 1) w
      ∙ lookup-insert (ticker_key t) (ticker_key t) t m
      ∙ if-true _ _ (same_refl (ticker_key t))
  drain_from_last (u ∷ older) newer t m n w =
      drain_from_last older newer t (insert (ticker_key u) u m) (add64 n 1) w

  -- A drain empties the queue and counts its entries; afterwards the market data has, under the key of
  -- a ticker that no later one of the queue replaces, that ticker.
  pub drain_all_last :
      (older newer : List (Ticker D)) (t : Ticker D) (m : List (Text × Ticker D))
      → length (older ++ t ∷ newer) < 2 ^ 64
      → Without (ticker_key t) newer
      → let (count, queue, drained) = drain_all (older ++ t ∷ newer) m in
        (count ≡ length (older ++ t ∷ newer))
        × (queue ≡ [])
        × (lookup (ticker_key t) drained ≡ some t)
  unfolding drain_all
  drain_all_last older newer t m small w = (
    drain_from_count (older ++ t ∷ newer) m 0 (omega arith) ∙ omega arith,
    refl,
    drain_from_last older newer t m 0 w,
  )

  -- A key of which the queue has no ticker keeps its market data.
  drain_all-Without :
      (key : Text) (ts : List (Ticker D)) (m : List (Text × Ticker D))
      → Without key ts
      → lookup key (drain_all ts m).2 ≡ lookup key m
  unfolding drain_all
  drain_all-Without key ts m w = drain_from-Without key ts m 0 w
