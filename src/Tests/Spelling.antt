-- ===== src/Tests/Spelling.antt =====
-- The spellings of one asset.
use my_arbitrager.Prelude.{◌≡◌, ◌≢◌, refl, ◌++◌, arith}
use my_arbitrager.Prelude.Text.{codes, has}
use my_arbitrager.Symbols.{
  to_upper, normalize_symbol, binance_to_coinbase_symbol, binance_to_kraken_symbol,
}
use my_arbitrager.Symbols.Agreement.{IsAsset, normalize-coinbase, normalize-kraken}

btc-IsAsset : IsAsset (codes "BTC")
unfolding to_upper has
btc-IsAsset = record { some_bytes = omega arith; upper = refl; no_dash = refl }

normalize-coinbase_example :
    (normalize_symbol (codes "BTC" ++ codes "USDT") ≡ codes "BTC")
    × (normalize_symbol (binance_to_coinbase_symbol (codes "BTC" ++ codes "USDT")) ≡ codes "BTC")
normalize-coinbase_example = normalize-coinbase (codes "BTC") btc-IsAsset

normalize-kraken_example :
    (normalize_symbol (binance_to_kraken_symbol (codes "BTC" ++ codes "USDT"))
      ≡ codes "BTC" ++ codes "/")
    × (normalize_symbol (binance_to_kraken_symbol (codes "BTC" ++ codes "USDT"))
        ≢ normalize_symbol (codes "BTC" ++ codes "USDT"))
normalize-kraken_example = normalize-kraken (codes "BTC") btc-IsAsset
