-- ===== src/Symbols/Agreement.antt =====
-- Which of the exchanges' spellings the engine takes for the same asset.
use my_arbitrager.Prelude.{
  ◌<◌, ◌≡◌, refl, sym, ap, ◌∙◌, ◌≢◌, Bool-cases, inl, inr, true, false, List, [], ◌∷◌, ◌++◌, map,
  map-append, append_assoc, arith, length, length-append, if-true, if-false,
}
use my_arbitrager.Prelude.Text.{
  Text, codes, same, same→eq, has, ends_with, chop, chop-append, ends_with-append, before-append,
  has-append, ends_with-append_same,
}
use my_arbitrager.Symbols.{
  to_upper, normalize_symbol, strip_quote, replace_usdt, first_of_table, coinbase_table,
  kraken_table, binance_to_coinbase_symbol, binance_to_kraken_symbol,
}

-- An asset's own name: not empty, in upper case already, and without a dash.
pub record IsAsset (base : Text) : Type 0 where
  pub some_bytes : 0 < length base
  pub upper : map to_upper base ≡ base
  pub no_dash : has b'-' base ≡ false

-- Each entry of a table is what the generic conversion gives.
abbrev Agrees : Text → List (Text × Text) → Type 0
Agrees quote [] = Unit
Agrees quote ((key, value) ∷ rest) = (value ≡ replace_usdt quote key) × Agrees quote rest

table_redundant :
    (quote : Text) (table : List (Text × Text)) (symbol : Text)
    → Agrees quote table
    → first_of_table table symbol (replace_usdt quote symbol) ≡ replace_usdt quote symbol
unfolding first_of_table
table_redundant quote [] symbol a = refl
table_redundant quote ((key, value) ∷ rest) symbol (e, a) = elim (Bool-cases (same symbol key)) [
  | inl hit ↦ rw hit (e ∙ ap (replace_usdt quote) (sym (same→eq symbol key hit)))
  | inr miss ↦ rw miss (table_redundant quote rest symbol a)
]

coinbase-Agrees : Agrees (codes "-USD") coinbase_table
unfolding replace_usdt ends_with same chop
coinbase-Agrees = (
  refl,
  (
    refl,
    (
      refl,
      (
        refl,
        (
          refl,
          (
            refl,
            (refl, (refl, (refl, (refl, (refl, (refl, (refl, (refl, (refl, (refl, tt)))))))))),
          ),
        ),
      ),
    ),
  ),
)

kraken-Agrees : Agrees (codes "/USD") kraken_table
unfolding replace_usdt ends_with same chop
kraken-Agrees = (
  refl,
  (
    refl,
    (
      refl,
      (
        refl,
        (refl, (refl, (refl, (refl, (refl, (refl, (refl, (refl, (refl, (refl, (refl, tt))))))))))),
      ),
    ),
  ),
)

replace_usdt_lem :
    (quote base : Text)
    → 0 < length base
    → replace_usdt quote (base ++ codes "USDT") ≡ base ++ quote
unfolding replace_usdt
replace_usdt_lem quote base h =
    rw (ends_with-append base (codes "USDT") h, chop-append base (codes "USDT"))

-- Both tables only repeat the generic rule: they convert every symbol as it does.
tables_redundant :
    (symbol : Text)
    → (binance_to_coinbase_symbol symbol ≡ replace_usdt (codes "-USD") symbol)
      × (binance_to_kraken_symbol symbol ≡ replace_usdt (codes "/USD") symbol)
unfolding binance_to_coinbase_symbol binance_to_kraken_symbol
tables_redundant symbol = (
  table_redundant (codes "-USD") coinbase_table symbol coinbase-Agrees,
  table_redundant (codes "/USD") kraken_table symbol kraken-Agrees,
)

map-append_upper :
    (base rest : Text)
    → map to_upper base ≡ base
    → map to_upper (base ++ rest) ≡ base ++ map to_upper rest
map-append_upper base rest e = map-append to_upper base rest ∙ ap (λ l. l ++ map to_upper rest) e

module _ {base : Text} (a : IsAsset base) where
  normalize-usdt : normalize_symbol (base ++ codes "USDT") ≡ base
  unfolding normalize_symbol strip_quote has same to_upper
  normalize-usdt = rw (map-append_upper base (codes "USDT") a.upper) (
      if-false _ _ no_dash
      ∙ if-true _ _ (ends_with-append base (codes "USDT") a.some_bytes)
      ∙ chop-append base (codes "USDT"))
    where
      no_dash : has b'-' (base ++ codes "USDT") ≡ false
      no_dash = has-append b'-' base _ ∙ if-false _ _ a.no_dash ∙ refl

  normalize-dash : normalize_symbol (base ++ codes "-USD") ≡ base
  unfolding normalize_symbol strip_quote has same to_upper
  normalize-dash =
      rw (map-append_upper base (codes "-USD") a.upper)
        (if-true _ _ dash ∙ before-append b'-' base (codes "USD") a.no_dash)
    where
      dash : has b'-' (base ++ codes "-USD") ≡ true
      dash = has-append b'-' base _ ∙ if-false _ _ a.no_dash ∙ refl

  normalize-slash : normalize_symbol (base ++ codes "/USD") ≡ base ++ codes "/"
  unfolding normalize_symbol strip_quote has same to_upper
  normalize-slash = rw (map-append_upper base (codes "/USD") a.upper) (
      if-false _ _ no_dash
      ∙ if-false _ _ not_usdt
      ∙ rw (← append_assoc base (codes "/") (codes "USD")) (
          if-true _ _ (ends_with-append (base ++ codes "/") (codes "USD") longer)
          ∙ chop-append (base ++ codes "/") (codes "USD")))
    where
      longer : 0 < length (base ++ codes "/")
      longer = omega (arith, length-append base (codes "/"))

      no_dash : has b'-' (base ++ codes "/USD") ≡ false
      no_dash = has-append b'-' base _ ∙ if-false _ _ a.no_dash ∙ refl

      not_usdt : ends_with (codes "USDT") (base ++ codes "/USD") ≡ false
      not_usdt = ends_with-append_same base (codes "/USD") (codes "USDT") a.some_bytes refl ∙ refl

-- The engine reads Binance's and Bybit's spelling of an asset, and Coinbase's spelling of it, back
-- as the asset, if its name is not empty, in upper case, and without a dash.
pub normalize-coinbase :
    (base : Text)
    → IsAsset base
    → (normalize_symbol (base ++ codes "USDT") ≡ base)
      × (normalize_symbol (binance_to_coinbase_symbol (base ++ codes "USDT")) ≡ base)
normalize-coinbase base a = (
  normalize-usdt a,
  ap normalize_symbol ((tables_redundant _).0 ∙ replace_usdt_lem (codes "-USD") base a.some_bytes)
      ∙ normalize-dash a,
)

-- Kraken's spelling of an asset whose name is not empty, in upper case, and without a dash keeps its
-- slash in the engine, so it is never taken for the asset that the other exchanges quote.
pub normalize-kraken :
    (base : Text)
    → IsAsset base
    → (normalize_symbol (binance_to_kraken_symbol (base ++ codes "USDT")) ≡ base ++ codes "/")
      × (normalize_symbol (binance_to_kraken_symbol (base ++ codes "USDT"))
          ≢ normalize_symbol (base ++ codes "USDT"))
normalize-kraken base a = (kraken, λ e. absurd (longer (sym kraken ∙ e ∙ normalize-usdt a)))
  where
    kraken : normalize_symbol (binance_to_kraken_symbol (base ++ codes "USDT")) ≡ base ++ codes "/"
    kraken =
        ap normalize_symbol
          ((tables_redundant _).1 ∙ replace_usdt_lem (codes "/USD") base a.some_bytes)
        ∙ normalize-slash a

    longer : base ++ codes "/" ≡ base → ⊥
    longer e = omega (arith, ap length e, length-append base (codes "/"))
