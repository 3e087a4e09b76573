-- ===== src/Clients/Coinbase.antt =====
-- `CoinbaseWebSocketClient::parse_ticker_message` of src/coinbase_client.cpp. `now` is the clock at an
-- entry.
use my_arbitrager.Prelude.{
  ℕ, Bool, true, false, not, List, [], ◌∷◌, ◌++◌, Option, none, some, ◌>>=◌, if◌then◌else◌,
}
use my_arbitrager.Prelude.Text.{Text, codes}
use my_arbitrager.Market.{Ticker}
use my_arbitrager.Clients.{Json, text_at, price_at, deliver_each, delivered}

module _ {J D : Type 0} (l : Json J D) (now : J → ℕ) where
  unfoldable pub read_ticker : J → Option (Ticker D)
  read_ticker ticker_data = do
    symbol ← text_at l ticker_data (codes "product_id")
    bid_price ← price_at l ticker_data (codes "best_bid")
    ask_price ← price_at l ticker_data (codes "best_ask")
    bid_quantity ← price_at l ticker_data (codes "best_bid_quantity")
    ask_quantity ← price_at l ticker_data (codes "best_ask_quantity")
    some record {
      symbol = symbol;
      exchange = codes "Coinbase";
      bid_price = bid_price;
      ask_price = ask_price;
      bid_quantity = bid_quantity;
      ask_quantity = ask_quantity;
      timestamp_ms = now ticker_data;
      enqueue_tsc = 0;
    }

  -- The loop over the events: the tickers passed on, and whether nothing threw.
  unfoldable pub deliver_events : List J → List (Ticker D) × Bool
  deliver_events [] = ([], true)
  deliver_events (event ∷ events) =
      let (later, later_ok) = deliver_events events in
      if not (l.contains event (codes "tickers"))
      then (later, later_ok)
      else elim (l.at event (codes "tickers")) [
        | none ↦ ([], false)
        | some tickers ↦
            let (ts, ok) = deliver_each read_ticker (l.items tickers) in
            (if ok then ts ++ later else ts, if ok then later_ok else false)
      ]

  unfoldable pub read_message : Text → Option (List (Ticker D))
  read_message message = do
    j ← l.parse message
    if not (l.contains j (codes "events")) then some [] else do
      events ← l.at j (codes "events")
      if l.is_empty events then some [] else some (deliver_events (l.items events)).0

  -- The tickers that `message_callback_` gets.
  unfoldable pub parse_ticker_message : (has_callback : Bool) → Text → List (Ticker D)
  parse_ticker_message has_callback message = delivered has_callback (read_message message)
