-- ===== src/Clients/Session/Bybit.antt =====
-- `connect` and the threads of `BybitWebSocketClient` in src/bybit_client.cpp, which subscribes in batches.
use my_arbitrager.Prelude.{
  ℕ, zero, suc, ◌+◌, ◌-◌, ◌/◌, Bool, List, [], ◌∷◌, Option, some, false, map, min, length, take,
  drop, ltb, if◌then◌else◌,
}
use my_arbitrager.Prelude.Text.{Text, codes, to_string}
use my_arbitrager.Market.{Ticker}
use my_arbitrager.Symbols.{binance_to_bybit_topic}
use my_arbitrager.Clients.{Json}
use my_arbitrager.Clients.Bybit.{parse_ticker_message}
use my_arbitrager.Clients.Session
use my_arbitrager.Clients.Session.{
  Client, Attempt, Request, refused, Turn, Value, text, array, object, end, field, open_stream,
  write_all, finish,
}

abbrev pub batch_size : ℕ
batch_size = 10

-- The batch from topic `i` on, and its message.
unfoldable pub batch : List Text → ℕ → List Text
batch topics i = take (min (i + batch_size) (length topics) - i) (drop i topics)

unfoldable pub batch_message : List Text → ℕ → Value
batch_message topics i = object (
    field (codes "req_id") (text (to_string (i / batch_size + 1))) (
      field (codes "op") (text (codes "subscribe"))
        (field (codes "args") (array (batch topics i)) end)))

-- The loop over the batches, on fuel: the indices where they start.
unfoldable pub batch_starts : (fuel : ℕ) → List Text → ℕ → List ℕ
batch_starts zero topics i = []
batch_starts (suc fuel) topics i =
    let rest = batch_starts fuel topics (i + batch_size) in
    if ltb i (length topics) then i ∷ rest else []

unfoldable pub subscribe_messages : List Text → List Value
subscribe_messages symbols =
    let topics = map binance_to_bybit_topic symbols in
    map (batch_message topics) (batch_starts (length topics) topics 0)

unfoldable pub connect : Attempt → List Text → Client → Option (Bool × List Request × Client)
connect a symbols c =
    if c.connected
    then some (false, [], c)
    else finish
        (open_stream refused a (codes "stream.bybit.com") (codes "443") (codes "/v5/public/spot"))
        (write_all a.writes 0 (subscribe_messages symbols))
        (record c { subscribed_symbols = symbols })

unfoldable pub disconnect : Client → Client
disconnect c = Session.disconnect c

unfoldable pub run_client :
    {J D : Type 0} → Json J D → List (Turn ℕ) → Client → List (Ticker D) × Client
run_client l turns c = Session.run_client (parse_ticker_message l) turns c
