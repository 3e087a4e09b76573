-- ===== src/Symbols.antt =====
-- How the program spells a symbol for each exchange, and how the engine reads the spellings back:
-- `ArbitrageEngine::normalize_symbol` of src/arbitrage_engine.cpp and the conversions of
-- src/binance_client.cpp, src/coinbase_client.cpp, src/kraken_client.cpp and src/bybit_client.cpp.
pub mod Agreement
use my_arbitrager.Prelude.{
  ℕ, ◌+◌, ◌-◌, Bool, List, [], ◌∷◌, ◌++◌, ◌&&◌, map, length, ltb, leb, if◌then◌else◌,
}
use my_arbitrager.Prelude.Text.{Text, codes, same, has, before, ends_with, chop}

-- `::toupper` and `::tolower` on the bytes of the "C" locale.
unfoldable pub to_upper : ℕ → ℕ
to_upper c = if leb b'a' c && leb c b'z' then c - 32 else c

unfoldable pub to_lower : ℕ → ℕ
to_lower c = if leb b'A' c && leb c b'Z' then c + 32 else c

-- The tests of `normalize_symbol`, on the upper-case copy that it makes.
unfoldable pub strip_quote : Text → Text
strip_quote normalized =
    if has b'-' normalized
    then before b'-' normalized
    else if ends_with (codes "USDT") normalized
    then chop 4 normalized
    else if ends_with (codes "USD") normalized
    then chop 3 normalized
    else normalized

-- `ArbitrageEngine::normalize_symbol`
unfoldable pub normalize_symbol : Text → Text
unfolding to_upper
normalize_symbol symbol = strip_quote (map to_upper symbol)

-- The generic conversion that ends `binance_to_coinbase_symbol` and `binance_to_kraken_symbol`.
unfoldable pub replace_usdt : Text → Text → Text
replace_usdt quote symbol =
    if ends_with (codes "USDT") symbol then chop 4 symbol ++ quote else symbol

-- A chain of `if (symbol == key) return value;`.
pub first_of_table : List (Text × Text) → Text → Text → Text
first_of_table [] symbol otherwise = otherwise
first_of_table ((key, value) ∷ rest) symbol otherwise =
    if same symbol key then value else first_of_table rest symbol otherwise

abbrev pub coinbase_table : List (Text × Text)
coinbase_table =
    (codes "BTCUSDT", codes "BTC-USD")
    ∷ (codes "ETHUSDT", codes "ETH-USD")
    ∷ (codes "BNBUSDT", codes "BNB-USD")
    ∷ (codes "ADAUSDT", codes "ADA-USD")
    ∷ (codes "DOTUSDT", codes "DOT-USD")
    ∷ (codes "SOLUSDT", codes "SOL-USD")
    ∷ (codes "MATICUSDT", codes "MATIC-USD")
    ∷ (codes "AVAXUSDT", codes "AVAX-USD")
    ∷ (codes "LTCUSDT", codes "LTC-USD")
    ∷ (codes "LINKUSDT", codes "LINK-USD")
    ∷ (codes "XLMUSDT", codes "XLM-USD")
    ∷ (codes "XRPUSDT", codes "XRP-USD")
    ∷ (codes "UNIUSDT", codes "UNI-USD")
    ∷ (codes "AAVEUSDT", codes "AAVE-USD")
    ∷ (codes "ATOMUSDT", codes "ATOM-USD")
    ∷ (codes "ALGOUSDT", codes "ALGO-USD")
    ∷ []

abbrev pub kraken_table : List (Text × Text)
kraken_table =
    (codes "BTCUSDT", codes "BTC/USD")
    ∷ (codes "ETHUSDT", codes "ETH/USD")
    ∷ (codes "ADAUSDT", codes "ADA/USD")
    ∷ (codes "DOTUSDT", codes "DOT/USD")
    ∷ (codes "SOLUSDT", codes "SOL/USD")
    ∷ (codes "MATICUSDT", codes "MATIC/USD")
    ∷ (codes "AVAXUSDT", codes "AVAX/USD")
    ∷ (codes "LTCUSDT", codes "LTC/USD")
    ∷ (codes "LINKUSDT", codes "LINK/USD")
    ∷ (codes "XLMUSDT", codes "XLM/USD")
    ∷ (codes "XRPUSDT", codes "XRP/USD")
    ∷ (codes "UNIUSDT", codes "UNI/USD")
    ∷ (codes "AAVEUSDT", codes "AAVE/USD")
    ∷ (codes "ATOMUSDT", codes "ATOM/USD")
    ∷ (codes "ALGOUSDT", codes "ALGO/USD")
    ∷ []

pub binance_to_coinbase_symbol : Text → Text
binance_to_coinbase_symbol symbol =
    first_of_table coinbase_table symbol (replace_usdt (codes "-USD") symbol)

pub binance_to_kraken_symbol : Text → Text
binance_to_kraken_symbol symbol =
    first_of_table kraken_table symbol (replace_usdt (codes "/USD") symbol)

-- `BybitWebSocketClient::binance_to_bybit_topic`
unfoldable pub binance_to_bybit_topic : Text → Text
binance_to_bybit_topic symbol = codes "orderbook.1." ++ symbol

-- `BinanceWebSocketClient::symbol_to_stream`
unfoldable pub symbol_to_stream : Text → Text
unfolding to_lower
symbol_to_stream symbol = map to_lower symbol ++ codes "@bookTicker"
