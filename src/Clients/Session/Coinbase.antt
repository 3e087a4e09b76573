-- ===== src/Clients/Session/Coinbase.antt =====
-- `connect` and the threads of `CoinbaseWebSocketClient` in src/coinbase_client.cpp.
use my_arbitrager.Prelude.{ℕ, Bool, List, [], ◌∷◌, Option, some, false, map, if◌then◌else◌}
use my_arbitrager.Prelude.Text.{Text, codes}
use my_arbitrager.Market.{Ticker}
use my_arbitrager.Symbols.{binance_to_coinbase_symbol}
use my_arbitrager.Clients.{Json}
use my_arbitrager.Clients.Coinbase.{parse_ticker_message}
use my_arbitrager.Clients.Session
use my_arbitrager.Clients.Session.{
  Client, Attempt, Request, thrown, Turn, Value, text, array, object, end, field, open_stream,
  write_all, finish,
}

unfoldable pub subscribe_messages : List Text → List Value
subscribe_messages symbols =
    object (
      field (codes "type") (text (codes "subscribe")) (
        field (codes "product_ids") (array (map binance_to_coinbase_symbol symbols))
          (field (codes "channel") (text (codes "ticker")) end)))
    ∷ []

unfoldable pub connect : Attempt → List Text → Client → Option (Bool × List Request × Client)
connect a symbols c =
    if c.connected
    then some (false, [], c)
    else finish
        (open_stream Session.Opening.thrown a (codes "advanced-trade-ws.coinbase.com") (codes "443")
          (codes "/"))
        (write_all a.writes 0 (subscribe_messages symbols))
        (record c { subscribed_symbols = symbols })

unfoldable pub disconnect : Client → Client
disconnect c = Session.disconnect c

unfoldable pub run_client :
    {J D : Type 0} → Json J D → List (Turn (J → ℕ)) → Client → List (Ticker D) × Client
run_client l turns c = Session.run_client (parse_ticker_message l) turns c
