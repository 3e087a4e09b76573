-- ===== src/Clients/Session/Reconnect.antt =====
-- What a second `connect` does.
use my_arbitrager.Prelude.{
  ◌+◌, ◌^◌, ◌<◌, ◌≡◌, refl, ap, ◌∙◌, Bool, true, false, not, ◌&&◌, if-true, if-false, List, [], ◌∷◌,
  ◌++◌, Option, none, some, arith, map, length,
}
use my_arbitrager.Prelude.Text.{Text}
use my_arbitrager.Market.{Ticker}
use my_arbitrager.Clients.Session.{
  Client, Attempt, Request, lookup, handshake, Opening, opened, Turn, open_stream, finish,
  disconnect, run_client,
}
use my_arbitrager.Clients.Session.Binance
use my_arbitrager.Clients.Session.Coinbase
use my_arbitrager.Clients.Session.Kraken
use my_arbitrager.Clients.Session.Bybit
use my_arbitrager.Clients.Session.Reading.{
  calm, broken, run_client-ends, run_client-broken, passed_on,
}

pub data Exchange : Type 0 where
  binance : Exchange
  coinbase : Exchange
  kraken : Exchange
  bybit : Exchange

abbrev pub connect : Exchange → Attempt → List Text → Client → Option (Bool × List Request × Client)
connect binance = Binance.connect
connect coinbase = Coinbase.connect
connect kraken = Kraken.connect
connect bybit = Bybit.connect

-- Every call of the network succeeds, but for the writes.
pub record Succeeds (a : Attempt) : Type 0 where
  pub prepared : a.prepared ≡ true
  pub host_name_set : a.host_name_set ≡ true
  pub resolved : a.resolved ≡ true
  pub reached : a.reached ≡ true
  pub secured : a.secured ≡ true
  pub accepted : a.accepted ≡ true

module _ {a : Attempt} (ok : Succeeds a) where
  opens :
      (on_error : Opening) (host port target : Text) (subscription : List Request) (c : Client)
      → finish (open_stream on_error a host port target) subscription c
        ≡ finish (lookup host port ∷ handshake host target ∷ [], opened) subscription c
  unfolding open_stream
  opens on_error host port target subscription c =
      rw (ok.prepared, ok.host_name_set, ok.resolved, ok.reached, ok.secured, ok.accepted) refl

  connect-finish :
      (e : Exchange) (symbols : List Text) (c : Client)
      → c.connected ≡ false
      → (asked subscription : List Request) × (connect e a symbols c
          ≡ finish (asked, opened) subscription (record c { subscribed_symbols = symbols }))
  unfolding Binance.connect Coinbase.connect Kraken.connect Bybit.connect
  connect-finish binance symbols c off = (_, _, if-false _ _ off ∙ opens _ _ _ _ _ _)
  connect-finish coinbase symbols c off = (_, _, if-false _ _ off ∙ opens _ _ _ _ _ _)
  connect-finish kraken symbols c off = (_, _, if-false _ _ off ∙ opens _ _ _ _ _ _)
  connect-finish bybit symbols c off = (_, _, if-false _ _ off ∙ opens _ _ _ _ _ _)

-- The two ways to connect again, with and without a `disconnect` before.
abbrev pub Again :
    {C D : Type 0}
    → (C → Bool → Text → List (Ticker D))
    → Exchange
    → Attempt
    → List Text
    → List (Turn C)
    → Client
    → Type 0
Again parse e a symbols turns lost =
    (connect e a symbols lost ≡ none)
    × (requests : List Request) × (c' : Client) × (connect e a symbols (disconnect lost)
        ≡ some (true, requests, c'))
    × (c'.connected ≡ true)
    × (run_client parse turns c' ≡ ([], c'))

lost-Again :
    {C D : Type 0} (parse : C → Bool → Text → List (Ticker D)) (e : Exchange) (a : Attempt)
    (symbols : List Text) (turns : List (Turn C)) (c : Client)
    → Succeeds a
    → c.connected ≡ false
    → c.joinable ≡ true
    → Again parse e a symbols turns c
unfolding disconnect finish
lost-Again parse e a symbols turns c ok off running =
    let (asked, subscription, first) = connect-finish ok e symbols c off in
    let down : Client = record c { should_stop = true; connected = false; joinable = false } in
    let (asked', subscription', second) = connect-finish ok e symbols down refl in
    (
      first ∙ if-true _ _ running,
      asked' ++ subscription',
      record down { subscribed_symbols = symbols; connected = true; joinable = true },
      ap (connect e a symbols) (if-false {c = not c.connected && not c.joinable} _ _ (ground arith))
          ∙ second,
      refl,
      run_client-ends parse _ turns refl,
    )

-- Of a client that lost its stream after any messages, a second `connect` for which every network call
-- succeeds terminates the program, since the thread that has ended was not joined; and after a
-- `disconnect` it returns `true` and says that it is connected, but its thread ends at once and reads
-- nothing.
pub reconnect_fails :
    {C D : Type 0} (parse : C → Bool → Text → List (Ticker D)) (e : Exchange) (a : Attempt)
    (symbols : List Text) (c : Client) (ms : List (C × Text)) (with_code : Bool)
    (turns : List (Turn C))
    → Succeeds a
    → c.connected ≡ true
    → c.should_stop ≡ false
    → c.joinable ≡ true
    → c.message_count + length ms + 1 < 2 ^ 64
    → Again parse e a symbols turns (run_client parse (map calm ms ++ broken with_code ∷ []) c).1
reconnect_fails parse e a symbols c ms with_code turns ok on going running small =
    lost-Again parse e a symbols turns (run_client parse (map calm ms ++ broken with_code ∷ []) c).1
      ok (ap (λ r. r.1.connected) ends) (ap (λ r. r.1.joinable) ends ∙ running)
  where
    ends : run_client parse (map calm ms ++ broken with_code ∷ []) c ≡ (
      passed_on parse c.has_callback ms,
      record c { connected = false; message_count = c.message_count + length ms },
    )
    ends = run_client-broken parse c ms with_code [] on going small
