-- ===== src/Clients/Kraken.antt =====
-- `KrakenWebSocketClient::parse_ticker_message` of src/kraken_client.cpp. `now` is the clock at an entry.
use my_arbitrager.Prelude.{ℕ, Bool, not, ◌||◌, List, [], Option, some, ◌>>=◌, if◌then◌else◌}
use my_arbitrager.Prelude.Text.{Text, codes}
use my_arbitrager.Market.{Ticker}
use my_arbitrager.Clients.{Json, text_at, number_at, deliver_each, delivered}

module _ {J D : Type 0} (l : Json J D) (now : J → ℕ) where
  unfoldable pub read_ticker : J → Option (Ticker D)
  read_ticker ticker_data = do
    symbol ← text_at l ticker_data (codes "symbol")
    bid_price ← number_at l ticker_data (codes "bid")
    ask_price ← number_at l ticker_data (codes "ask")
    bid_quantity ← number_at l ticker_data (codes "bid_qty")
    ask_quantity ← number_at l ticker_data (codes "ask_qty")
    some record {
      symbol = symbol;
      exchange = codes "Kraken";
      bid_price = bid_price;
      ask_price = ask_price;
      bid_quantity = bid_quantity;
      ask_quantity = ask_quantity;
      timestamp_ms = now ticker_data;
      enqueue_tsc = 0;
    }

  -- From the test of the channel on.
  unfoldable pub read_channel : J → Option (List (Ticker D))
  read_channel j = if not (l.contains j (codes "channel")) then some [] else do
    channel ← l.at j (codes "channel")
    if not (l.is_text channel (codes "ticker")) || not (l.contains j (codes "data"))
        then some []
        else do
          data_array ← l.at j (codes "data")
          if l.is_empty data_array
              then some []
              else some (deliver_each read_ticker (l.items data_array)).0

  unfoldable pub read_message : Text → Option (List (Ticker D))
  read_message message = do
    j ← l.parse message
    if not (l.contains j (codes "method")) then read_channel j else do
      method ← l.at j (codes "method")
      if l.is_text method (codes "subscribe") then some [] else read_channel j

  -- The tickers that `message_callback_` gets.
  unfoldable pub parse_ticker_message : (has_callback : Bool) → Text → List (Ticker D)
  parse_ticker_message has_callback message = delivered has_callback (read_message message)
