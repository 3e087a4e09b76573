-- ===== src/Clients/Delivered.antt =====
-- Whose the tickers are that the clients pass on.
use my_arbitrager.Prelude.{
  ℕ, ◌≡◌, refl, Bool, Bool-cases, inl, inr, true, false, Option-cases, List, [], ◌∷◌, ◌++◌, All,
  not, if◌then◌else◌,
}
use my_arbitrager.Prelude.Text.{Text, codes}
use my_arbitrager.Market.{Ticker}
use my_arbitrager.Clients.{Json, deliver_each, text_at, price_at, number_at}
use my_arbitrager.Clients.Binance
use my_arbitrager.Clients.Coinbase
use my_arbitrager.Clients.Kraken
use my_arbitrager.Clients.Bybit
use my_arbitrager.Clients.Named.{
  From, named, AllFrom, all_named, From-bind, AllFrom-bind, AllFrom-one, AllFrom-if,
  AllFrom-delivered, each_named,
}

module _ {J D : Type 0} (l : Json J D) where
  binance-AllFrom :
      (now : ℕ) (message : Text) → AllFrom (codes "Binance") (Binance.read_message l now message)
  unfolding Binance.read_message Binance.read_stream Binance.read_ticker
  binance-AllFrom now message = AllFrom-bind (l.parse message) λ j. AllFrom-if _ (all_named tt) (
      AllFrom-bind (text_at l j (codes "stream")) λ stream. AllFrom-if _ (all_named tt) (
        AllFrom-bind (l.at j (codes "data")) λ j_data. AllFrom-one (
          From-bind (text_at l j_data (codes "s")) λ s.
            From-bind (price_at l j_data (codes "b")) λ b.
              From-bind (price_at l j_data (codes "a")) λ a.
                From-bind (price_at l j_data (codes "B"))
                  λ bq. From-bind (price_at l j_data (codes "A")) λ aq. named refl)))

  bybit-AllFrom :
      (now : ℕ) (message : Text) → AllFrom (codes "Bybit") (Bybit.read_message l now message)
  unfolding Bybit.read_message Bybit.read_topic Bybit.read_data Bybit.read_ticker
  bybit-AllFrom now message = AllFrom-bind (l.parse message) λ j.
      AllFrom-if _ (topic j)
        (AllFrom-bind (text_at l j (codes "op")) λ op. AllFrom-if _ (all_named tt) (topic j))
    where
      ticker : (v : J) → From (codes "Bybit") (Bybit.read_ticker l now v)
      ticker v = From-bind (text_at l v (codes "s")) λ s. From-bind (l.at v (codes "b")) λ bids.
          From-bind (Bybit.best l now bids 0) λ b. From-bind (Bybit.best l now bids 1) λ bq.
            From-bind (l.at v (codes "a")) λ asks.
              From-bind (Bybit.best l now asks 0)
                λ a. From-bind (Bybit.best l now asks 1) λ aq. named refl

      sides : (v : J) → AllFrom (codes "Bybit") (Bybit.read_data l now v)
      sides v = AllFrom-if _ (all_named tt) (
          AllFrom-bind (l.at v (codes "b")) λ bids.
            AllFrom-bind (l.at v (codes "a"))
              λ asks. AllFrom-if _ (all_named tt) (AllFrom-one (ticker v)))

      topic : (j : J) → AllFrom (codes "Bybit") (Bybit.read_topic l now j)
      topic j = AllFrom-if _ (all_named tt) (
          AllFrom-bind (text_at l j (codes "topic")) λ topic_text.
            AllFrom-if _ (all_named tt) (AllFrom-bind (l.at j (codes "data")) λ v. sides v))

  kraken-AllFrom :
      (now : J → ℕ) (message : Text) → AllFrom (codes "Kraken") (Kraken.read_message l now message)
  unfolding Kraken.read_message Kraken.read_channel Kraken.read_ticker
  kraken-AllFrom now message = AllFrom-bind (l.parse message) λ j.
      AllFrom-if _ (channel j)
        (AllFrom-bind (l.at j (codes "method")) λ method. AllFrom-if _ (all_named tt) (channel j))
    where
      ticker : (v : J) → From (codes "Kraken") (Kraken.read_ticker l now v)
      ticker v = From-bind (text_at l v (codes "symbol")) λ s.
          From-bind (number_at l v (codes "bid")) λ b. From-bind (number_at l v (codes "ask")) λ a.
            From-bind (number_at l v (codes "bid_qty"))
              λ bq. From-bind (number_at l v (codes "ask_qty")) λ aq. named refl

      channel : (j : J) → AllFrom (codes "Kraken") (Kraken.read_channel l now j)
      channel j = AllFrom-if _ (all_named tt) (
          AllFrom-bind (l.at j (codes "channel")) λ c. AllFrom-if _ (all_named tt) (
            AllFrom-bind (l.at j (codes "data")) λ data_array.
              AllFrom-if _ (all_named tt)
                (all_named (each_named _ (Kraken.read_ticker l now) (l.items data_array) ticker))))

  module _ (now : J → ℕ) where
    coinbase_ticker : (v : J) → From (codes "Coinbase") (Coinbase.read_ticker l now v)
    unfolding Coinbase.read_ticker
    coinbase_ticker v = From-bind (text_at l v (codes "product_id")) λ s.
        From-bind (price_at l v (codes "best_bid")) λ b.
          From-bind (price_at l v (codes "best_ask")) λ a.
            From-bind (price_at l v (codes "best_bid_quantity"))
              λ bq. From-bind (price_at l v (codes "best_ask_quantity")) λ aq. named refl

    All-if_append :
        (ok : Bool) (ts later : List (Ticker D))
        → All (λ t. t.exchange ≡ codes "Coinbase") ts
        → All (λ t. t.exchange ≡ codes "Coinbase") later
        → All (λ t. t.exchange ≡ codes "Coinbase") (if ok then ts ++ later else ts)
    All-if_append false ts later h k = h
    All-if_append true [] later h k = k
    All-if_append true (t ∷ ts) later (e, h) k = (e, All-if_append true ts later h k)

    events_named :
        (events : List J)
        → All (λ t. t.exchange ≡ codes "Coinbase") (Coinbase.deliver_events l now events).0
    unfolding Coinbase.deliver_events
    events_named [] = tt
    events_named (event ∷ events) = elim (Bool-cases (not (l.contains event (codes "tickers")))) [
      | inl skipped ↦ rw (skipped, Coinbase.deliver_events) (events_named events)
      | inr there ↦ elim (Option-cases (l.at event (codes "tickers"))) [
        | inl threw ↦ rw (there, threw, Coinbase.deliver_events) tt
        | inr (tickers, e) ↦
            rw (there, e, Coinbase.deliver_events)
              (All-if_append (deliver_each (Coinbase.read_ticker l now) (l.items tickers)).1 _ _
                (each_named _ (Coinbase.read_ticker l now) (l.items tickers) coinbase_ticker)
                (events_named events))
      ]
    ]

    coinbase-AllFrom :
        (message : Text) → AllFrom (codes "Coinbase") (Coinbase.read_message l now message)
    unfolding Coinbase.read_message
    coinbase-AllFrom message = AllFrom-bind (l.parse message) λ j. AllFrom-if _ (all_named tt) (
        AllFrom-bind (l.at j (codes "events"))
          λ events. AllFrom-if _ (all_named tt) (all_named (events_named (l.items events))))

  -- Whatever the message, and wherever it fails to parse, every ticker that a client passes to its
  -- callback carries the name of the client's exchange.
  pub exchange_named :
      (now : ℕ) (now_at : J → ℕ) (has_callback : Bool) (message : Text)
      → All
          (λ t. t.exchange ≡ codes "Binance")
          (Binance.parse_ticker_message l now has_callback message)
        × All
            (λ t. t.exchange ≡ codes "Coinbase")
            (Coinbase.parse_ticker_message l now_at has_callback message)
        × All
            (λ t. t.exchange ≡ codes "Kraken")
            (Kraken.parse_ticker_message l now_at has_callback message)
        × All
            (λ t. t.exchange ≡ codes "Bybit")
            (Bybit.parse_ticker_message l now has_callback message)
  unfolding Binance.parse_ticker_message Coinbase.parse_ticker_message Kraken.parse_ticker_message
      Bybit.parse_ticker_message
  exchange_named now now_at b message = (
    AllFrom-delivered b (binance-AllFrom now message),
    AllFrom-delivered b (coinbase-AllFrom now_at message),
    AllFrom-delivered b (kraken-AllFrom now_at message),
    AllFrom-delivered b (bybit-AllFrom now message),
  )
