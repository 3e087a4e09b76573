-- ===== src/Clients/Bybit.antt =====
-- `BybitWebSocketClient::parse_ticker_message` of src/bybit_client.cpp.
use my_arbitrager.Prelude.{ℕ, Bool, not, ◌||◌, List, [], ◌∷◌, Option, some, ◌>>=◌, if◌then◌else◌}
use my_arbitrager.Prelude.Text.{Text, codes, same}
use my_arbitrager.Market.{Ticker}
use my_arbitrager.Clients.{Json, occurs, text_at, delivered}

module _ {J D : Type 0} (l : Json J D) (now : ℕ) where
  -- `std::stod(side[0][i].get<std::string>())`
  unfoldable pub best : J → ℕ → Option D
  best side i = do entry ← l.nth side 0; v ← l.nth entry i; s ← l.get_string v; l.stod s

  unfoldable pub read_ticker : J → Option (Ticker D)
  read_ticker j_data = do
    symbol ← text_at l j_data (codes "s")
    bids ← l.at j_data (codes "b")
    bid_price ← best bids 0
    bid_quantity ← best bids 1
    asks ← l.at j_data (codes "a")
    ask_price ← best asks 0
    ask_quantity ← best asks 1
    some record {
      symbol = symbol;
      exchange = codes "Bybit";
      bid_price = bid_price;
      ask_price = ask_price;
      bid_quantity = bid_quantity;
      ask_quantity = ask_quantity;
      timestamp_ms = now;
      enqueue_tsc = 0;
    }

  -- From `auto data = j["data"]` on.
  unfoldable pub read_data : J → Option (List (Ticker D))
  read_data j_data =
      if not (l.contains j_data (codes "b")) || not (l.contains j_data (codes "a"))
      then some []
      else do
        bids ← l.at j_data (codes "b")
        asks ← l.at j_data (codes "a")
        if l.is_empty bids || l.is_empty asks
            then some []
            else do ticker ← read_ticker j_data; some (ticker ∷ [])

  -- From the test of the topic on.
  unfoldable pub read_topic : J → Option (List (Ticker D))
  read_topic j = if not (l.contains j (codes "topic")) then some [] else do
    topic ← text_at l j (codes "topic")
    if not (occurs (codes "orderbook.1.") topic) || not (l.contains j (codes "data"))
        then some []
        else do j_data ← l.at j (codes "data"); read_data j_data

  unfoldable pub read_message : Text → Option (List (Ticker D))
  read_message message = do
    j ← l.parse message
    if not (l.contains j (codes "op")) then read_topic j else do
      op ← text_at l j (codes "op")
      if same op (codes "subscribe") || same op (codes "pong") then some [] else read_topic j

  -- The tickers that `message_callback_` gets.
  unfoldable pub parse_ticker_message : (has_callback : Bool) → Text → List (Ticker D)
  parse_ticker_message has_callback message = delivered has_callback (read_message message)
