-- ===== src/Clients/Binance.antt =====
-- `BinanceWebSocketClient::parse_ticker_message` of src/binance_client.cpp.
use my_arbitrager.Prelude.{ℕ, Bool, not, ◌||◌, List, [], ◌∷◌, Option, some, ◌>>=◌, if◌then◌else◌}
use my_arbitrager.Prelude.Text.{Text, codes}
use my_arbitrager.Market.{Ticker}
use my_arbitrager.Clients.{Json, occurs, text_at, price_at, delivered}

module _ {J D : Type 0} (l : Json J D) (now : ℕ) where
  unfoldable pub read_ticker : J → Option (Ticker D)
  read_ticker j_data = do
    symbol ← text_at l j_data (codes "s")
    bid_price ← price_at l j_data (codes "b")
    ask_price ← price_at l j_data (codes "a")
    bid_quantity ← price_at l j_data (codes "B")
    ask_quantity ← price_at l j_data (codes "A")
    some record {
      symbol = symbol;
      exchange = codes "Binance";
      bid_price = bid_price;
      ask_price = ask_price;
      bid_quantity = bid_quantity;
      ask_quantity = ask_quantity;
      timestamp_ms = now;
      enqueue_tsc = 0;
    }

  unfoldable pub read_stream : J → Option (List (Ticker D))
  read_stream j = do
    stream ← text_at l j (codes "stream")
    if not (occurs (codes "@bookTicker") stream)
        then some []
        else do j_data ← l.at j (codes "data"); ticker ← read_ticker j_data; some (ticker ∷ [])

  unfoldable pub read_message : Text → Option (List (Ticker D))
  read_message message = do
    j ← l.parse message
    if not (l.contains j (codes "data")) || not (l.contains j (codes "stream"))
        then some []
        else read_stream j

  -- The tickers that `message_callback_` gets.
  unfoldable pub parse_ticker_message : (has_callback : Bool) → Text → List (Ticker D)
  parse_ticker_message has_callback message = delivered has_callback (read_message message)
