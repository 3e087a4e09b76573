-- ===== src/Clients/Session.antt =====
-- The connection of an exchange client: src/binance_client.cpp, src/coinbase_client.cpp,
-- src/kraken_client.cpp and src/bybit_client.cpp repeat this code, and differ in what `connect` asks for
-- and in the parser. What the network calls do is an argument.
pub mod Binance
pub mod Coinbase
pub mod Kraken
pub mod Bybit
pub mod Reading
pub mod Batches
pub mod Reconnect
pub mod First
use my_arbitrager.Prelude.{
  ℕ, ◌+◌, Bool, true, false, not, ◌&&◌, ◌||◌, List, [], ◌∷◌, ◌++◌, Option, none, some,
  if◌then◌else◌,
}
use my_arbitrager.Prelude.Bits.{add64}
use my_arbitrager.Prelude.Text.{Text}
use my_arbitrager.Market.{Ticker}

-- The members that the connection reads or writes. `joinable` is `ws_thread_.joinable()`.
pub record Client : Type 0 where
  pub connected : Bool
  pub should_stop : Bool
  pub message_count : ℕ
  pub has_callback : Bool
  pub subscribed_symbols : List Text
  pub joinable : Bool

unfoldable pub create : Client
create = record {
  connected = false;
  should_stop = false;
  message_count = 0;
  has_callback = false;
  subscribed_symbols = [];
  joinable = false;
}

-- The JSON values that the clients build.
mutual
  pub data Value : Type 0 where
    text : Text → Value
    array : List Text → Value
    object : Fields → Value

  pub data Fields : Type 0 where
    end : Fields
    field : Text → Value → Fields → Fields

-- What a client asks of the network. The text of a message is the dump of its value.
pub data Request : Type 0 where
  lookup : (host port : Text) → Request
  handshake : (host target : Text) → Request
  message : Value → Request

-- Whether the calls of a `connect` succeed, in their order: the set-up of the contexts, the name for SNI,
-- the resolver, the connection, the two handshakes, and each write of a subscription.
pub record Attempt : Type 0 where
  pub prepared : Bool
  pub host_name_set : Bool
  pub resolved : Bool
  pub reached : Bool
  pub secured : Bool
  pub accepted : Bool
  pub writes : ℕ → Bool

-- How the opening of a stream ends: with `return false`, with an exception, or open.
pub data Opening : Type 0 where
  refused : Opening
  thrown : Opening
  opened : Opening

-- `on_error` is what a handshake that fails does: a client that passes no error code gets an exception.
unfoldable pub open_stream :
    (on_error : Opening) → Attempt → (host port target : Text) → List Request × Opening
open_stream on_error a host port target =
    if not a.prepared
    then ([], thrown)
    else if not a.host_name_set
    then ([], refused)
    else if not a.resolved || not a.reached
    then (lookup host port ∷ [], thrown)
    else if not a.secured
    then (lookup host port ∷ [], on_error)
    else (lookup host port ∷ handshake host target ∷ [], if a.accepted then opened else on_error)

-- The writes of a subscription, the next one number `i`: an exception ends them.
unfoldable pub write_all : (ℕ → Bool) → (i : ℕ) → List Value → List Request
write_all writes i [] = []
write_all writes i (v ∷ vs) =
    let rest = write_all writes (i + 1) vs in if writes i then message v ∷ rest else []

-- The end of `connect`: what it returns, what was asked of the network, and the client. `none` is
-- `std::terminate`, which the assignment to a thread that is still joinable calls.
unfoldable pub finish :
    List Request × Opening → List Request → Client → Option (Bool × List Request × Client)
finish (asked, refused) subscription c = some (false, asked, c)
finish (asked, thrown) subscription c = some (false, asked, record c { connected = false })
finish (asked, opened) subscription c =
    if c.joinable
    then none
    else some (true, asked ++ subscription, record c { connected = true; joinable = true })

-- The close of the stream changes nothing here, and the join waits for the reading thread.
unfoldable pub disconnect : Client → Client
disconnect c =
    if not c.connected && not c.joinable
    then c
    else record c { should_stop = true; connected = false; joinable = false }

unfoldable pub set_message_callback : Bool → Client → Client
set_message_callback callback c = record c { has_callback = callback }

-- What `ws_->read` does; `now` is the clock while the message is parsed.
pub data Read (C : Type 0) : Type 0 where
  received : (now : C) → Text → Read C
  failed : Read C  -- an error code, also that of a closed stream
  thrown : Read C

-- A turn of the reading thread, and whether another thread's `disconnect` sets its flags between the test
-- of the loop in this turn and the next test.
pub record Turn (C : Type 0) : Type 0 where
  pub stopped : Bool
  pub outcome : Read C

-- The flags that `disconnect` sets before it joins.
abbrev pub stop_if : Bool → Client → Client
stop_if b c = if b then record c { should_stop = true; connected = false } else c

module _ {C D : Type 0} (parse_ticker_message : C → Bool → Text → List (Ticker D)) where
  -- The tickers that the callback gets, and the client afterwards.
  unfoldable pub on_read : C → Text → Client → List (Ticker D) × Client
  on_read now words c = (
    parse_ticker_message now c.has_callback words,
    record c { message_count = add64 c.message_count 1 },
  )

  unfoldable pub do_read : Read C → Client → List (Ticker D) × Client
  do_read (received now words) c = on_read now words c
  do_read failed c = ([], record c { connected = false })
  do_read thrown c = ([], record c { connected = false })

  unfoldable pub run_client : List (Turn C) → Client → List (Ticker D) × Client
  run_client [] c = ([], c)
  run_client (t ∷ turns) c =
      let (ts, c') = do_read t.outcome (stop_if t.stopped c) in
      let (more, c'') = run_client turns c' in
      if not c.should_stop && c.connected then (ts ++ more, c'') else ([], c)
