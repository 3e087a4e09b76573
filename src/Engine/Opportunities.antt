-- ===== src/Engine/Opportunities.antt =====
-- What `calculate_arbitrage` finds, in terms of the market data alone.
use my_arbitrager.Prelude.{◌≡◌, Bool, true}
use my_arbitrager.Prelude.Text.{Text}
use my_arbitrager.Market.{Double, Ticker, Opportunity, get_data_status}
use my_arbitrager.Symbols.{normalize_symbol}
use my_arbitrager.Engine.{Clock, Engine, is_usable, values}
use my_arbitrager.Engine.Members.{InOrder}
use my_arbitrager.Engine.Pairs.{Offers}

module _ {D : Type 0} (d : Double D) (clock : Clock D) where
  -- The status of the ticker when the pass reads it lets it take part.
  abbrev pub usable : Ticker D → Bool
  usable t = is_usable (get_data_status (clock.status t) t.timestamp_ms)

  -- Two tickers of the market data, the first before the second, that take part, are of one symbol and
  -- offer the opportunity `o`.
  pub record Source (e : Engine D) (o : Opportunity D) (t u : Ticker D) : Type 0 where
    pub listed : InOrder t u (values e.market_data)
    pub first_usable : usable t ≡ true
    pub second_usable : usable u ≡ true
    pub one_symbol : normalize_symbol t.symbol ≡ normalize_symbol u.symbol
    pub offers : Offers d clock e.min_profit_bps (normalize_symbol t.symbol) t u o
