-- ===== src/Clients/Session/Binance.antt =====
-- `connect` and the threads of `BinanceWebSocketClient` in src/binance_client.cpp, which subscribes by its target.
use my_arbitrager.Prelude.{ℕ, Bool, List, [], ◌∷◌, ◌++◌, Option, some, false, if◌then◌else◌}
use my_arbitrager.Prelude.Text.{Text, codes}
use my_arbitrager.Market.{Ticker}
use my_arbitrager.Symbols.{symbol_to_stream}
use my_arbitrager.Clients.{Json}
use my_arbitrager.Clients.Binance.{parse_ticker_message}
use my_arbitrager.Clients.Session
use my_arbitrager.Clients.Session.{Client, Attempt, Request, refused, Turn, open_stream, finish}

-- The streams after the first, each behind a slash, and all of them.
unfoldable pub more_streams : List Text → Text
more_streams [] = []
more_streams (s ∷ symbols) = codes "/" ++ symbol_to_stream s ++ more_streams symbols

unfoldable pub streams : List Text → Text
streams [] = []
streams (s ∷ symbols) = symbol_to_stream s ++ more_streams symbols

unfoldable pub connect : Attempt → List Text → Client → Option (Bool × List Request × Client)
connect a symbols c =
    if c.connected
    then some (false, [], c)
    else finish
        (open_stream refused a (codes "stream.binance.us") (codes "9443")
          (codes "/stream?streams=" ++ streams symbols))
        [] (record c { subscribed_symbols = symbols })

unfoldable pub disconnect : Client → Client
disconnect c = Session.disconnect c

unfoldable pub run_client :
    {J D : Type 0} → Json J D → List (Turn ℕ) → Client → List (Ticker D) × Client
run_client l turns c = Session.run_client (parse_ticker_message l) turns c
