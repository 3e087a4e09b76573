-- ===== src/Engine/Pairs.antt =====
-- The loops over pairs: an opportunity comes out exactly when a pair of the list gives it.
use my_arbitrager.Prelude.{
  ◌≤◌, ◌≡◌, refl, sym, ap, subst, ◌⊎◌, inl, inr, true, false, List, [], ◌∷◌, ◌++◌, arith, length,
  ltb, if◌then◌else◌, Bool-cases, if-true, if-false,
}
use my_arbitrager.Prelude.Text.{Text}
use my_arbitrager.Market.{Double, Ticker, Opportunity}
use my_arbitrager.Engine.{
  Clock, opportunity, is_profitable, direction, age_diff, check_pair, check_against, check_all,
  find_opportunities,
}
use my_arbitrager.Engine.Members.{
  In, InOrder, In-append, In-append_left, In-append_right, In-guarded,
}

module _ {D : Type 0} (d : Double D) (clock : Clock D) (min_profit_bps : D) where
  -- Buying at `buy` and selling at `sell` pays: the bid is above the ask, the profit reaches the
  -- minimum, and `o` records the trade.
  pub record Trade (symbol : Text) (buy sell : Ticker D) (o : Opportunity D) : Type 0 where
    pub crosses : d.lt buy.ask_price sell.bid_price ≡ true
    pub pays :
        d.le min_profit_bps
          (d.mul (d.div (d.sub sell.bid_price buy.ask_price) buy.ask_price) (d.of_ℕ 10000))
        ≡ true
    pub recorded : o ≡ opportunity d symbol buy sell (clock.stamp buy sell)

  -- The two tickers are close enough in age, and one of the two directions pays.
  pub record Offers (symbol : Text) (t u : Ticker D) (o : Opportunity D) : Type 0 where
    pub close : age_diff clock t u ≤ 500
    pub trade : Trade symbol t u o ⊎ Trade symbol u t o

  direction-Trade :
      (symbol : Text) (buy sell : Ticker D) (o : Opportunity D)
      → In o (direction d min_profit_bps symbol buy sell (clock.stamp buy sell))
      → Trade symbol buy sell o
  unfolding direction is_profitable
  direction-Trade symbol buy sell o h = record {
    crosses = ground arith;
    pays = ground arith;
    recorded = passed.1;
  }
    where
      passed :
          (is_profitable d min_profit_bps buy sell ≡ true)
          × (o ≡ opportunity d symbol buy sell (clock.stamp buy sell))
      passed = In-guarded (is_profitable d min_profit_bps buy sell) o _ h

  Trade-direction :
      (symbol : Text) (buy sell : Ticker D) (o : Opportunity D)
      → Trade symbol buy sell o
      → In o (direction d min_profit_bps symbol buy sell (clock.stamp buy sell))
  unfolding direction is_profitable
  Trade-direction symbol buy sell o t = rw (t.crosses, t.pays) (inl t.recorded)

  check_pair-Offers :
      (symbol : Text) (t u : Ticker D) (o : Opportunity D)
      → In o (check_pair d clock min_profit_bps symbol t u)
      → Offers symbol t u o
  unfolding check_pair
  check_pair-Offers symbol t u o h = elim (Bool-cases (ltb 500 (age_diff clock t u))) [
    | inl far ↦ absurd (subst (In o) (if-true _ _ far) h)
    | inr near ↦ elim (In-append o _ _ (subst (In o) (if-false _ _ near) h)) [
      | inl a ↦ record { close = ground arith; trade = inl (direction-Trade symbol t u o a) }
      | inr b ↦ record { close = ground arith; trade = inr (direction-Trade symbol u t o b) }
    ]
  ]

  Offers-check_pair :
      (symbol : Text) (t u : Ticker D) (o : Opportunity D)
      → Offers symbol t u o
      → In o (check_pair d clock min_profit_bps symbol t u)
  unfolding check_pair
  Offers-check_pair symbol t u o h = subst (In o) (sym (if-false _ _ near)) (either h.trade)
    where
      near : ltb 500 (age_diff clock t u) ≡ false
      near = ground (arith, h.close)

      either :
          Trade symbol t u o ⊎ Trade symbol u t o
          → In o (
              direction d min_profit_bps symbol t u (clock.stamp t u)
              ++ direction d min_profit_bps symbol u t (clock.stamp u t))
      either (inl a) = In-append_left o _ _ (Trade-direction symbol t u o a)
      either (inr b) =
          In-append_right o (direction d min_profit_bps symbol t u (clock.stamp t u)) _
            (Trade-direction symbol u t o b)

  -- A pair of the list, in order, that offers `o`.
  abbrev pub Pair : Text → List (Ticker D) → Opportunity D → Type 0
  Pair symbol ts o = (t : Ticker D) × (u : Ticker D) × InOrder t u ts × Offers symbol t u o

  check_against_sound :
      (symbol : Text) (t : Ticker D) (us : List (Ticker D)) (o : Opportunity D)
      → In o (check_against d clock min_profit_bps symbol t us)
      → (u : Ticker D) × In u us × Offers symbol t u o
  unfolding check_against
  check_against_sound symbol t [] o h = elim h [ ]
  check_against_sound symbol t (u ∷ us) o h = elim (In-append o _ _ h) [
    | inl a ↦ (u, inl refl, check_pair-Offers symbol t u o a)
    | inr b ↦ let (v, m, f) = check_against_sound symbol t us o b in (v, inr m, f)
  ]

  check_against_complete :
      (symbol : Text) (t u : Ticker D) (us : List (Ticker D)) (o : Opportunity D)
      → In u us
      → Offers symbol t u o
      → In o (check_against d clock min_profit_bps symbol t us)
  unfolding check_against
  check_against_complete symbol t u [] o m f = elim m [ ]
  check_against_complete symbol t u (v ∷ us) o (inl e) f =
      In-append_left o _ _ (Offers-check_pair symbol t v o (subst (λ w. Offers symbol t w o) e f))
  check_against_complete symbol t u (v ∷ us) o (inr m) f =
      In-append_right o (check_pair d clock min_profit_bps symbol t v) _
        (check_against_complete symbol t u us o m f)

  check_all_sound :
      (symbol : Text) (ts : List (Ticker D)) (o : Opportunity D)
      → In o (check_all d clock min_profit_bps symbol ts)
      → Pair symbol ts o
  unfolding check_all
  check_all_sound symbol [] o h = elim h [ ]
  check_all_sound symbol (t ∷ ts) o h = elim (In-append o _ _ h) [
    | inl a ↦ let (u, m, f) = check_against_sound symbol t ts o a in (t, u, inl (refl, m), f)
    | inr b ↦ let (v, u, m, f) = check_all_sound symbol ts o b in (v, u, inr m, f)
  ]

  check_all_complete :
      (symbol : Text) (t u : Ticker D) (ts : List (Ticker D)) (o : Opportunity D)
      → InOrder t u ts
      → Offers symbol t u o
      → In o (check_all d clock min_profit_bps symbol ts)
  unfolding check_all
  check_all_complete symbol t u [] o m f = elim m [ ]
  check_all_complete symbol t u (v ∷ ts) o (inl (e, m)) f =
      In-append_left o _ _
        (check_against_complete symbol v u ts o m (subst (λ w. Offers symbol w u o) e f))
  check_all_complete symbol t u (v ∷ ts) o (inr m) f =
      In-append_right o (check_against d clock min_profit_bps symbol v ts) _
        (check_all_complete symbol t u ts o m f)

  -- The test for two tickers only saves work.
  skip_small :
      (symbol : Text) (ts : List (Ticker D))
      → (if ltb (length ts) 2 then [] else check_all d clock min_profit_bps symbol ts)
        ≡ check_all d clock min_profit_bps symbol ts
  unfolding check_all check_against
  skip_small symbol [] = refl
  skip_small symbol (t ∷ []) = refl
  skip_small symbol (t ∷ u ∷ ts) = if-false {c = ltb (length (t ∷ u ∷ ts)) 2} _ _ (ground arith)

  pub find_opportunities_sound :
      (m : List (Text × List (Ticker D))) (o : Opportunity D)
      → In o (find_opportunities d clock min_profit_bps m)
      → (symbol : Text) × (ts : List (Ticker D)) × In (symbol, ts) m × Pair symbol ts o
  unfolding find_opportunities
  find_opportunities_sound [] o h = elim h [ ]
  find_opportunities_sound ((symbol, ts) ∷ m) o h = elim (In-append o _ _ h) [
    | inl a ↦
        (symbol, ts, inl refl, check_all_sound symbol ts o (subst (In o) (skip_small symbol ts) a))
    | inr b ↦ let (k, us, i, q) = find_opportunities_sound m o b in (k, us, inr i, q)
  ]

  pub find_opportunities_complete :
      (symbol : Text) (ts : List (Ticker D)) (m : List (Text × List (Ticker D))) (o : Opportunity D)
      → In (symbol, ts) m
      → Pair symbol ts o
      → In o (find_opportunities d clock min_profit_bps m)
  unfolding find_opportunities
  find_opportunities_complete symbol ts [] o i q = elim i [ ]
  find_opportunities_complete symbol ts ((k, us) ∷ m) o (inl e) (t, u, r, f) =
      In-append_left o _ _ (
        subst (In o) (sym (skip_small k us)) (
          check_all_complete k t u us o (subst (InOrder t u) (ap (λ q. q.1) e) r)
            (subst (λ s. Offers s t u o) (ap (λ q. q.0) e) f)))
  find_opportunities_complete symbol ts ((k, us) ∷ m) o (inr i) q =
      In-append_right o (if ltb (length us) 2 then [] else check_all d clock min_profit_bps k us) _
        (find_opportunities_complete symbol ts m o i q)
