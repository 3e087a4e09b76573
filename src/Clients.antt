-- ===== src/Clients.antt =====
-- What the four exchange clients share when they parse a message: the JSON library and `std::stod` as an
-- interface, and the loop over the entries of a message. src/binance_client.cpp,
-- src/coinbase_client.cpp, src/kraken_client.cpp and src/bybit_client.cpp.
pub mod Binance
pub mod Coinbase
pub mod Kraken
pub mod Bybit
pub mod Entries
pub mod Named
pub mod Delivered
pub mod Session
use my_arbitrager.Prelude.{
  ℕ, Bool, true, false, ◌&&◌, ◌==◌, List, [], ◌∷◌, Option, none, some, ◌>>=◌, if◌then◌else◌,
}
use my_arbitrager.Prelude.Text.{Text}
use my_arbitrager.Market.{Ticker}

-- The calls of the library on a value `J`; `none` is an exception, or an access that it leaves undefined.
pub record Json (J D : Type 0) : Type 0 where
  pub parse : Text → Option J
  pub contains : J → Text → Bool
  pub at : J → Text → Option J  -- `operator[]` with a key
  pub nth : J → ℕ → Option J  -- `operator[]` with an index
  pub items : J → List J  -- what a range `for` visits
  pub is_empty : J → Bool
  pub get_string : J → Option Text
  pub get_number : J → Option D
  pub is_text : J → Text → Bool  -- `==` with a string
  pub stod : Text → Option D

-- `s.find(word) != npos`
unfoldable pub starts_with : Text → Text → Bool
starts_with [] s = true
starts_with (c ∷ word) [] = false
starts_with (c ∷ word) (b ∷ s) = c == b && starts_with word s

unfoldable pub occurs : Text → Text → Bool
occurs word [] = starts_with word []
occurs word (b ∷ s) = if starts_with word (b ∷ s) then true else occurs word s

module _ {J D : Type 0} (l : Json J D) where
  -- `j[key].get<std::string>()`, `std::stod` of it, and `j[key].get<double>()`.
  unfoldable pub text_at : J → Text → Option Text
  text_at j key = do v ← l.at j key; l.get_string v

  unfoldable pub price_at : J → Text → Option D
  unfolding text_at
  price_at j key = do s ← text_at j key; l.stod s

  unfoldable pub number_at : J → Text → Option D
  number_at j key = do v ← l.at j key; l.get_number v

-- The entries of an array, each read and passed on before the next: the tickers passed on, and whether
-- no entry threw.
unfoldable pub deliver_each :
    {J D : Type 0} → (J → Option (Ticker D)) → List J → List (Ticker D) × Bool
deliver_each read [] = ([], true)
deliver_each read (x ∷ xs) =
    let (ts, ok) = deliver_each read xs in
    elim (read x) [ none ↦ ([], false) | some t ↦ (t ∷ ts, ok) ]

-- What reaches the callback: nothing if an exception comes first, or if no callback is set.
unfoldable pub delivered : {D : Type 0} → Bool → Option (List (Ticker D)) → List (Ticker D)
delivered has_callback none = []
delivered has_callback (some ts) = if has_callback then ts else []
