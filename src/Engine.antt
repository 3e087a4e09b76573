-- ===== src/Engine.antt =====
-- `ArbitrageEngine::calculate_arbitrage` of src/arbitrage_engine.cpp: one pass over the market data.
pub mod Members
pub mod Groups
pub mod Pairs
pub mod Opportunities
pub mod Lifecycle
use my_arbitrager.Prelude.{
  ℕ, ◌+◌, ◌++◌, Bool, true, false, List, [], ◌∷◌, length, ltb, if◌then◌else◌,
}
use my_arbitrager.Prelude.Bits.{add64}
use my_arbitrager.Prelude.Int.{ℤ, abs_diff}
use my_arbitrager.Prelude.Text.{Text, same}
use my_arbitrager.Market.{
  Double, Ticker, Opportunity, DataStatus, live, slow, stale, age, get_data_status,
}
use my_arbitrager.Symbols.{normalize_symbol}

-- What `system_clock::now()` gives, in milliseconds, at each place of a pass that reads it.
pub record Clock (D : Type 0) : Type 0 where
  pub status : Ticker D → ℕ
  pub first : Ticker D → Ticker D → ℕ
  pub second : Ticker D → Ticker D → ℕ
  pub stamp : Ticker D → Ticker D → ℕ

-- LIVE and SLOW data takes part.
unfoldable pub is_usable : DataStatus → Bool
is_usable live = true
is_usable slow = true
is_usable stale = false

-- `symbol_map[key].push_back(ticker)`
unfoldable pub push_back :
    {D : Type 0} → Text → Ticker D → List (Text × List (Ticker D)) → List (Text × List (Ticker D))
push_back key t [] = (key, t ∷ []) ∷ []
push_back key t ((k, ts) ∷ m) =
    if same k key then (k, ts ++ t ∷ []) ∷ m else (k, ts) ∷ push_back key t m

-- `std::min`
abbrev pub min_of : {D : Type 0} → Double D → D → D → D
min_of d a b = if d.lt b a then b else a

module _ {D : Type 0} (clock : Clock D) where
  -- The first loop, over the tickers of `market_data_`.
  unfoldable pub group :
      List (Ticker D) → List (Text × List (Ticker D)) → List (Text × List (Ticker D))
  group [] symbol_map = symbol_map
  group (t ∷ ts) symbol_map = group ts (
      if is_usable (get_data_status (clock.status t) t.timestamp_ms)
      then push_back (normalize_symbol t.symbol) t symbol_map
      else symbol_map)

  -- `age_diff_ms`
  unfoldable pub age_diff : Ticker D → Ticker D → ℕ
  age_diff ticker1 ticker2 =
      abs_diff (age (clock.first ticker1 ticker2) ticker1.timestamp_ms)
        (age (clock.second ticker1 ticker2) ticker2.timestamp_ms)

module _ {D : Type 0} (d : Double D) where
  -- Buy at `buy` and sell at `sell`, at the time `now`.
  unfoldable pub opportunity : Text → Ticker D → Ticker D → ℕ → Opportunity D
  opportunity symbol buy sell now = record {
    symbol = symbol;
    buy_exchange = buy.exchange;
    sell_exchange = sell.exchange;
    buy_price = buy.ask_price;
    sell_price = sell.bid_price;
    profit_bps = d.mul (d.div (d.sub sell.bid_price buy.ask_price) buy.ask_price) (d.of_ℕ 10000);
    max_quantity = min_of d buy.ask_quantity sell.bid_quantity;
    timestamp_ms = now;
  }

module _ {D : Type 0} (d : Double D) (min_profit_bps : D) where
  -- The tests of one direction of a pair.
  unfoldable pub is_profitable : Ticker D → Ticker D → Bool
  is_profitable buy sell =
      if d.lt buy.ask_price sell.bid_price
      then d.le min_profit_bps
          (d.mul (d.div (d.sub sell.bid_price buy.ask_price) buy.ask_price) (d.of_ℕ 10000))
      else false

  unfoldable pub direction : Text → Ticker D → Ticker D → ℕ → List (Opportunity D)
  direction symbol buy sell now =
      if is_profitable buy sell then opportunity d symbol buy sell now ∷ [] else []

module _ {D : Type 0} (d : Double D) (clock : Clock D) (min_profit_bps : D) where
  -- The body of the two inner loops.
  unfoldable pub check_pair : Text → Ticker D → Ticker D → List (Opportunity D)
  check_pair symbol ticker1 ticker2 =
      if ltb 500 (age_diff clock ticker1 ticker2)
      then []
      else direction d min_profit_bps symbol ticker1 ticker2 (clock.stamp ticker1 ticker2)
        ++ direction d min_profit_bps symbol ticker2 ticker1 (clock.stamp ticker2 ticker1)

  -- `for j`, from `i + 1` on.
  unfoldable pub check_against : Text → Ticker D → List (Ticker D) → List (Opportunity D)
  check_against symbol ticker1 [] = []
  check_against symbol ticker1 (ticker2 ∷ rest) =
      check_pair symbol ticker1 ticker2 ++ check_against symbol ticker1 rest

  -- `for i`
  unfoldable pub check_all : Text → List (Ticker D) → List (Opportunity D)
  check_all symbol [] = []
  check_all symbol (t ∷ rest) = check_against symbol t rest ++ check_all symbol rest

  -- The loop over `symbol_map`.
  unfoldable pub find_opportunities : List (Text × List (Ticker D)) → List (Opportunity D)
  find_opportunities [] = []
  find_opportunities ((symbol, tickers) ∷ rest) =
      (if ltb (length tickers) 2 then [] else check_all symbol tickers) ++ find_opportunities rest

-- The values of `market_data_`, in the order of its iteration.
abbrev pub values : {V : Type 0} → List (Text × V) → List V
values [] = []
values ((k, v) ∷ m) = v ∷ values m

-- The part of `ArbitrageEngine` that a pass reads and writes. `notified` records the calls of
-- `opportunity_callback_`.
pub record Engine (D : Type 0) : Type 0 where
  pub market_data : List (Text × Ticker D)
  pub opportunities : List (Opportunity D)
  pub calculation_count : ℕ
  pub opportunity_count : ℕ
  pub min_profit_bps : D
  pub has_callback : Bool
  pub notified : List (Opportunity D)

unfoldable pub calculate_arbitrage : {D : Type 0} → Double D → Clock D → Engine D → Engine D
calculate_arbitrage d clock e =
    let symbol_map = group clock (values e.market_data) [] in
    let found = find_opportunities d clock e.min_profit_bps symbol_map in
    record e {
      opportunities = found;
      calculation_count = add64 e.calculation_count 1;
      opportunity_count = add64 e.opportunity_count (length found);
      notified = if e.has_callback then e.notified ++ found else e.notified;
    }

unfoldable pub get_opportunities : {D : Type 0} → Engine D → List (Opportunity D)
get_opportunities e = e.opportunities

unfoldable pub set_min_profit_bps : {D : Type 0} → Engine D → D → Engine D
set_min_profit_bps e bps = record e { min_profit_bps = bps }

unfoldable pub set_opportunity_callback : {D : Type 0} → (set : Bool) → Engine D → Engine D
set_opportunity_callback set e = record e { has_callback = set }

-- What the constructor gives the passes.
unfoldable pub create : {D : Type 0} → Double D → Engine D
create d = record {
  market_data = [];
  opportunities = [];
  calculation_count = 0;
  opportunity_count = 0;
  min_profit_bps = d.of_ℕ 5;
  has_callback = false;
  notified = [];
}
