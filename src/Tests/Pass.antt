-- ===== src/Tests/Pass.antt =====
-- One pass of the engine over three tickers, with numbers in place of `double`.
use my_arbitrager.Prelude.{ℕ, ◌+◌, ◌-◌, ◌*◌, ◌/◌, ◌≡◌, refl, false, [], ◌∷◌, ltb, leb}
use my_arbitrager.Prelude.Text.{Text, codes, same, has, before, ends_with, chop}
use my_arbitrager.Market.{Double, Ticker, Opportunity, age, get_data_status, make_ticker_key}
use my_arbitrager.Symbols.{normalize_symbol, strip_quote, to_upper}
use my_arbitrager.Engine.{
  Clock, Engine, is_usable, push_back, group, age_diff, opportunity, is_profitable, direction,
  check_pair, check_against, check_all, find_opportunities, calculate_arbitrage, get_opportunities,
}

abbrev pub numbers : Double ℕ
numbers = record {
  add = λ a b. a + b;
  sub = λ a b. a - b;
  mul = λ a b. a * b;
  div = λ a b. a / b;
  of_ℕ = λ n. n;
  to_ℕ = λ n. n;
  lt = ltb;
  le = leb;
}

abbrev pub clock : Clock ℕ
clock = record {
  status = λ _. 100_000;
  first = λ _ _. 100_000;
  second = λ _ _. 100_001;
  stamp = λ _ _. 100_002;
}

abbrev pub quote : Text → Text → ℕ → ℕ → Ticker ℕ
quote exchange symbol bid ask = record {
  symbol = symbol;
  exchange = exchange;
  bid_price = bid;
  ask_price = ask;
  bid_quantity = 3;
  ask_quantity = 2;
  timestamp_ms = 99_900;
  enqueue_tsc = 0;
}

abbrev pub cheap : Ticker ℕ
cheap = quote (codes "Binance") (codes "BTCUSDT") 99 100

abbrev pub dear : Ticker ℕ
dear = quote (codes "Coinbase") (codes "BTC-USD") 210 211

abbrev pub stale_one : Ticker ℕ
stale_one = record (quote (codes "Bybit") (codes "BTCUSDT") 500 501) { timestamp_ms = 70_000 }

abbrev pub engine : Engine ℕ
engine = record {
  market_data =
      (make_ticker_key cheap.exchange cheap.symbol, cheap)
      ∷ (make_ticker_key stale_one.exchange stale_one.symbol, stale_one)
      ∷ (make_ticker_key dear.exchange dear.symbol, dear)
      ∷ [];
  opportunities = [];
  calculation_count = 0;
  opportunity_count = 0;
  min_profit_bps = 5;
  has_callback = false;
  notified = [];
}

abbrev pub buy_cheap : Opportunity ℕ
buy_cheap = record {
  symbol = codes "BTC";
  buy_exchange = codes "Binance";
  sell_exchange = codes "Coinbase";
  buy_price = 100;
  sell_price = 210;
  profit_bps = 10_000;
  max_quantity = 2;
  timestamp_ms = 100_002;
}

pass_finds : get_opportunities (calculate_arbitrage numbers clock engine) ≡ buy_cheap ∷ []
unfolding get_opportunities calculate_arbitrage find_opportunities check_all check_against
    check_pair direction is_profitable opportunity age_diff group push_back is_usable
    get_data_status age normalize_symbol strip_quote to_upper same has before ends_with chop
pass_finds = refl
