-- ===== src/Clients/Session/Kraken.antt =====
-- `connect` and the threads of `KrakenWebSocketClient` in src/kraken_client.cpp.
use my_arbitrager.Prelude.{ℕ, Bool, List, [], ◌∷◌, Option, some, false, map, if◌then◌else◌}
use my_arbitrager.Prelude.Text.{Text, codes}
use my_arbitrager.Market.{Ticker}
use my_arbitrager.Symbols.{binance_to_kraken_symbol}
use my_arbitrager.Clients.{Json}
use my_arbitrager.Clients.Kraken.{parse_ticker_message}
use my_arbitrager.Clients.Session
use my_arbitrager.Clients.Session.{
  Client, Attempt, Request, refused, Turn, Value, text, array, object, end, field, open_stream,
  write_all, finish,
}

unfoldable pub subscribe_messages : List Text → List Value
subscribe_messages symbols =
    object (
      field (codes "method") (text (codes "subscribe")) (
        field (codes "params")
          (object (
            field (codes "channel") (text (codes "ticker")) (
              field (codes "symbol") (array (map binance_to_kraken_symbol symbols))
                (field (codes "event_trigger") (text (codes "bbo")) end))))
          end))
    ∷ []

unfoldable pub connect : Attempt → List Text → Client → Option (Bool × List Request × Client)
connect a symbols c =
    if c.connected
    then some (false, [], c)
    else finish (open_stream refused a (codes "ws.kraken.com") (codes "443") (codes "/v2"))
        (write_all a.writes 0 (subscribe_messages symbols))
        (record c { subscribed_symbols = symbols })

unfoldable pub disconnect : Client → Client
disconnect c = Session.disconnect c

unfoldable pub run_client :
    {J D : Type 0} → Json J D → List (Turn (J → ℕ)) → Client → List (Ticker D) × Client
run_client l turns c = Session.run_client (parse_ticker_message l) turns c
