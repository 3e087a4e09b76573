-- ===== src/Dashboard.antt =====
-- The market data of `TerminalDashboard` of src/dashboard.cpp, whose update holds the mutexes.
pub mod Display
pub mod Drawing
pub mod Frame
use my_arbitrager.Prelude.{
  ℕ, ◌≡◌, refl, sym, ◌∙◌, ap, false, Bool-cases, if-true, if-false, List, [], none, some,
  Option-cases, inl, inr, if◌then◌else◌,
}
use my_arbitrager.Prelude.Bits.{add64}
use my_arbitrager.Prelude.Text.{Text, same, same_refl}
use my_arbitrager.Market.{Double, Ticker, mid_price, make_ticker_key}
use my_arbitrager.Market.Map.{lookup, insert, lookup-insert}

pub record Dashboard (D : Type 0) : Type 0 where
  pub market_data : List (Text × Ticker D)
  pub previous_prices : List (Text × D)
  pub update_count : ℕ
  pub last_update : ℕ

-- The constructor, when the clock reads `now`.
unfoldable pub create : {D : Type 0} → (now : ℕ) → Dashboard D
create now = record { market_data = []; previous_prices = []; update_count = 0; last_update = now }

module _ {D : Type 0} (d : Double D) where
  -- `previous_prices_` after an update under this key.
  unfoldable pub keep_price : Text → List (Text × Ticker D) → List (Text × D) → List (Text × D)
  keep_price key market_data previous_prices = elim (lookup key market_data) [
    | none ↦ previous_prices
    | some old ↦ insert key (mid_price d old) previous_prices
  ]

  -- `now` is the clock's reading.
  unfoldable pub update_market_data : Dashboard D → Ticker D → (now : ℕ) → Dashboard D
  update_market_data s ticker now =
      let key = make_ticker_key ticker.exchange ticker.symbol in
      record {
        market_data = insert key ticker s.market_data;
        previous_prices = keep_price key s.market_data s.previous_prices;
        update_count = add64 s.update_count 1;
        last_update = now;
      }

  keep_price_known :
      (key : Text) {t : Ticker D} (m : List (Text × Ticker D)) (p : List (Text × D))
      → lookup key m ≡ some t
      → keep_price key m p ≡ insert key (mid_price d t) p
  unfolding keep_price
  keep_price_known key m p e = rw (e, keep_price) refl

  keep_price_other :
      (key other : Text) (m : List (Text × Ticker D)) (p : List (Text × D))
      → same key other ≡ false
      → lookup other (keep_price key m p) ≡ lookup other p
  unfolding keep_price
  keep_price_other key other m p h = elim (Option-cases (lookup key m)) [
    | inl absent ↦ rw (absent, keep_price) refl
    | inr (old, e) ↦
        ap (lookup other) (keep_price_known key m p e)
        ∙ lookup-insert key other (mid_price d old) p
        ∙ if-false _ _ h
  ]

  same_key_twice :
      (k key : Text) (t u : Ticker D) (m : List (Text × Ticker D)) (p : List (Text × D))
      → (lookup key (insert k u (insert k t m)) ≡ (if same k key then some u else lookup key m))
        × (lookup key (keep_price k (insert k t m) (keep_price k m p))
            ≡ (if same k key then some (mid_price d t) else lookup key p))
  same_key_twice k key t u m p = elim (Bool-cases (same k key)) [
    | inl hit ↦ (
      tickers ∙ if-true _ _ hit ∙ sym (if-true _ _ hit),
      prices ∙ if-true _ _ hit ∙ sym (if-true _ _ hit),
    )
    | inr miss ↦ (
      tickers
          ∙ if-false _ _ miss
          ∙ lookup-insert k key t m
          ∙ if-false _ _ miss
          ∙ sym (if-false _ _ miss),
      prices ∙ if-false _ _ miss ∙ keep_price_other k key m p miss ∙ sym (if-false _ _ miss),
    )
  ]
    where
      tickers :
          lookup key (insert k u (insert k t m))
          ≡ (if same k key then some u else lookup key (insert k t m))
      tickers = lookup-insert k key u (insert k t m)

      prices :
          lookup key (keep_price k (insert k t m) (keep_price k m p))
          ≡ (if same k key then some (mid_price d t) else lookup key (keep_price k m p))
      prices =
          ap (lookup key) (
            keep_price_known k (insert k t m) (keep_price k m p)
              (lookup-insert k k t m ∙ if-true _ _ (same_refl k)))
          ∙ lookup-insert k key (mid_price d t) (keep_price k m p)

  -- Two updates of one key, whatever came before: the second ticker is shown, against the middle of the
  -- first one's prices, and no other key's ticker or earlier price changes.
  update_market_data_twice :
      (s : Dashboard D) (t u : Ticker D) (now later : ℕ) (key : Text)
      → make_ticker_key t.exchange t.symbol ≡ make_ticker_key u.exchange u.symbol
      → let s' = update_market_data (update_market_data s t now) u later in
        (lookup key s'.market_data ≡ (
          if same (make_ticker_key u.exchange u.symbol) key
          then some u
          else lookup key s.market_data))
        × (lookup key s'.previous_prices ≡ (
            if same (make_ticker_key u.exchange u.symbol) key
            then some (mid_price d t)
            else lookup key s.previous_prices))
  unfolding update_market_data
  update_market_data_twice s t u now later key e =
      rw e (
        same_key_twice (make_ticker_key u.exchange u.symbol) key t u s.market_data
          s.previous_prices)
