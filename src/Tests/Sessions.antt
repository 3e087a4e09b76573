-- ===== src/Tests/Sessions.antt =====
-- A client that connects, reads two messages, and loses its stream.
use my_arbitrager.Prelude.{ℕ, ◌≡◌, refl, true, false, List, [], ◌∷◌, ◌++◌, some, arith, map, All}
use my_arbitrager.Prelude.Text.{Text, codes, to_string, digits_before}
use my_arbitrager.Symbols.{binance_to_bybit_topic}
use my_arbitrager.Clients.Binance.{parse_ticker_message}
use my_arbitrager.Clients.Session.{
  Client, Attempt, Request, lookup, handshake, open_stream, finish, write_all, run_client,
  set_message_callback,
}
use my_arbitrager.Clients.Session
use my_arbitrager.Clients.Session.Bybit.{subscribe_messages}
use my_arbitrager.Clients.Session.Batches.{all_args, IsShort, subscribe_messages_batches}
use my_arbitrager.Clients.Session.Reading.{calm, broken, interrupted, passed_on, run_client-until}
use my_arbitrager.Clients.Session.Reconnect.{Again, connect, binance, coinbase, reconnect_fails}
use my_arbitrager.Tests.Messages.{toy, message}

abbrev success : Attempt
success = record {
  prepared = true;
  host_name_set = true;
  resolved = true;
  reached = true;
  secured = true;
  accepted = true;
  writes = λ _. true;
}

abbrev reading : Client
reading = record {
  connected = true;
  should_stop = false;
  message_count = 5;
  has_callback = true;
  subscribed_symbols = codes "BTCUSDT" ∷ [];
  joinable = true;
}

abbrev messages : List (ℕ × Text)
messages = (9, message) ∷ (10, codes "?") ∷ []

run_client-until_example :
    (run_client (parse_ticker_message toy) (map calm messages ++ broken true ∷ []) reading ≡ (
      passed_on (parse_ticker_message toy) true messages,
      record reading { connected = false; message_count = 7 },
    ))
    × (run_client
          (parse_ticker_message toy)
          (map calm messages ++ interrupted (11, message) ∷ [])
          reading
        ≡ (
          passed_on (parse_ticker_message toy) true (messages ++ (11, message) ∷ []),
          record reading { connected = false; should_stop = true; message_count = 8 },
        ))
run_client-until_example =
    run_client-until (parse_ticker_message toy) reading messages (11, message) true [] refl refl
      (omega arith)

reconnect_fails_example :
    Again
      (parse_ticker_message toy)
      binance
      success
      (codes "BTCUSDT" ∷ [])
      (map calm messages)
      (run_client (parse_ticker_message toy) (map calm messages ++ broken false ∷ []) reading).1
reconnect_fails_example =
    reconnect_fails (parse_ticker_message toy) binance success (codes "BTCUSDT" ∷ []) reading
      messages false (map calm messages)
      (record {
        prepared = refl;
        host_name_set = refl;
        resolved = refl;
        reached = refl;
        secured = refl;
        accepted = refl;
      })
      refl refl refl (omega arith)

-- Eleven symbols, in two batches.
abbrev eleven : List Text
eleven =
    codes "A"
    ∷ codes "B"
    ∷ codes "C"
    ∷ codes "D"
    ∷ codes "E"
    ∷ codes "F"
    ∷ codes "G"
    ∷ codes "H"
    ∷ codes "I"
    ∷ codes "J"
    ∷ codes "K"
    ∷ []

subscribe_messages_batches_example :
    (all_args (subscribe_messages eleven) ≡ map binance_to_bybit_topic eleven)
    × All IsShort (subscribe_messages eleven)
subscribe_messages_batches_example = subscribe_messages_batches eleven

numbers_printed : (to_string 7 ≡ codes "7") × (to_string 120 ≡ codes "120")
unfolding to_string digits_before
numbers_printed = (refl, refl)

-- Coinbase's handshake fails with an exception, the others' with an error code.
abbrev rejected : Attempt
rejected = record success { accepted = false }

handshake_fails :
    connect coinbase rejected [] Session.create
    ≡ some (
      false,
      lookup (codes "advanced-trade-ws.coinbase.com") (codes "443")
          ∷ handshake (codes "advanced-trade-ws.coinbase.com") (codes "/")
          ∷ [],
      Session.create,
    )
unfolding Session.create Session.Coinbase.connect open_stream finish write_all
handshake_fails = refl
