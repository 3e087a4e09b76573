-- ===== src/Tests/Messages.antt =====
-- A message through the four parsers, with a toy library that reads every value from the same text.
use my_arbitrager.Prelude.{
  ℕ, ◌≡◌, refl, not, ◌||◌, true, false, [], ◌∷◌, none, some, All, length, ◌==◌, if◌then◌else◌,
}
use my_arbitrager.Prelude.Text.{Text, codes, same}
use my_arbitrager.Market.{Ticker, make_ticker_key}
use my_arbitrager.Clients.{
  Json, starts_with, occurs, text_at, price_at, number_at, deliver_each, delivered,
}
use my_arbitrager.Clients.Binance
use my_arbitrager.Clients.Coinbase
use my_arbitrager.Clients.Kraken
use my_arbitrager.Clients.Bybit
use my_arbitrager.Clients.Entries.{deliver_each_until}
use my_arbitrager.Clients.Delivered.{exchange_named}
use my_arbitrager.Dashboard.{Dashboard}
use my_arbitrager.Tests.Pass.{cheap, dear}

abbrev pub toy : Json Text ℕ
toy = record {
  parse = λ t. some t;
  contains = λ _ key. not (same key (codes "method") || same key (codes "op"));
  at = λ j _. some j;
  nth = λ j _. some j;
  items = λ j. j ∷ j ∷ [];
  is_empty = λ _. false;
  get_string = λ j. some j;
  get_number = λ _. some 7;
  is_text = λ _ _. true;
  stod = λ _. some 5;
}

abbrev pub message : Text
message = codes "BTC@bookTicker orderbook.1.BTC"

delivered_counts :
    (length (Binance.parse_ticker_message toy 9 true message) ≡ 1)
    × (length (Coinbase.parse_ticker_message toy (λ _. 9) true message) ≡ 4)
    × (length (Kraken.parse_ticker_message toy (λ _. 9) true message) ≡ 2)
    × (length (Bybit.parse_ticker_message toy 9 true message) ≡ 1)
    × (length (Bybit.parse_ticker_message toy 9 false message) ≡ 0)
unfolding Binance.parse_ticker_message Binance.read_message Binance.read_stream Binance.read_ticker
    Coinbase.parse_ticker_message Coinbase.read_message Coinbase.deliver_events Coinbase.read_ticker
    Kraken.parse_ticker_message Kraken.read_message Kraken.read_channel Kraken.read_ticker
    Bybit.parse_ticker_message Bybit.read_message Bybit.read_topic Bybit.read_data Bybit.read_ticker
    Bybit.best same starts_with occurs text_at price_at number_at deliver_each delivered
delivered_counts = (refl, refl, refl, refl, refl)

exchange_named_example :
    All
      (λ (t : Ticker ℕ). t.exchange ≡ codes "Binance")
      (Binance.parse_ticker_message toy 9 true message)
    × All
        (λ (t : Ticker ℕ). t.exchange ≡ codes "Coinbase")
        (Coinbase.parse_ticker_message toy (λ _. 9) true message)
    × All
        (λ (t : Ticker ℕ). t.exchange ≡ codes "Kraken")
        (Kraken.parse_ticker_message toy (λ _. 9) true message)
    × All
        (λ (t : Ticker ℕ). t.exchange ≡ codes "Bybit")
        (Bybit.parse_ticker_message toy 9 true message)
exchange_named_example = exchange_named toy 9 (λ _. 9) true message

-- Entry 3 cannot be read.
deliver_each_until_example :
    deliver_each (λ n. if n == 3 then none else some cheap) (1 ∷ 2 ∷ 3 ∷ 4 ∷ [])
    ≡ (cheap ∷ cheap ∷ [], false)
deliver_each_until_example =
    deliver_each_until (λ n. if n == 3 then none else some cheap) (1 ∷ 2 ∷ []) (cheap ∷ cheap ∷ [])
      3 (4 ∷ []) (refl, (refl, tt)) refl

abbrev dashboard : Dashboard ℕ
dashboard = record { market_data = []; previous_prices = []; update_count = 0; last_update = 0 }

abbrev key : Text
key = make_ticker_key dear.exchange dear.symbol
