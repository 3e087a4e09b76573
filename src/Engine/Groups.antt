-- ===== src/Engine/Groups.antt =====
-- What `symbol_map` holds after the first loop: under each symbol, the usable tickers of that symbol, in
-- the order of `market_data_`.
use my_arbitrager.Prelude.{
  ◌≡◌, refl, sym, ap, ◌∙◌, subst, inl, inr, Bool, true, false, List, [], ◌∷◌, ◌++◌, append-nil,
  append_assoc, arith, if◌then◌else◌, Bool-cases, if-true, if-false,
}
use mathlib.Core.Path.{ap₂}
use my_arbitrager.Prelude.Text.{Text, same, same_iff, same_refl, same→eq}
use my_arbitrager.Market.{Ticker, get_data_status}
use my_arbitrager.Symbols.{normalize_symbol}
use my_arbitrager.Engine.{Clock, is_usable, push_back, group}
use my_arbitrager.Engine.Members.{In, filter}

module _ {D : Type 0} where
  -- The tickers under a symbol, or none.
  pub members : Text → List (Text × List (Ticker D)) → List (Ticker D)
  members k [] = []
  members k ((j, ts) ∷ m) = if same j k then ts else members k m

  pub has_key : Text → List (Text × List (Ticker D)) → Bool
  has_key k [] = false
  has_key k ((j, ts) ∷ m) = if same j k then true else has_key k m

  -- No symbol has two entries.
  abbrev pub Distinct : List (Text × List (Ticker D)) → Type 0
  Distinct [] = Unit
  Distinct ((k, ts) ∷ m) = (has_key k m ≡ false) × Distinct m

  members-push_back :
      (k key : Text) (t : Ticker D) (m : List (Text × List (Ticker D)))
      → members k (push_back key t m) ≡ (if same key k then members k m ++ t ∷ [] else members k m)
  unfolding members push_back
  members-push_back k key t [] = ground arith
  members-push_back k key t ((j, ts) ∷ m) =
      ground (arith, same_iff j k, same_iff j key, same_iff key k, members-push_back k key t m)

  has_key-push_back :
      (k key : Text) (t : Ticker D) (m : List (Text × List (Ticker D)))
      → has_key k (push_back key t m) ≡ (if same key k then true else has_key k m)
  unfolding has_key push_back
  has_key-push_back k key t [] = refl
  has_key-push_back k key t ((j, ts) ∷ m) =
      ground (arith, same_iff j k, same_iff j key, same_iff key k, has_key-push_back k key t m)

  push_back-Distinct :
      (key : Text) (t : Ticker D) (m : List (Text × List (Ticker D)))
      → Distinct m
      → Distinct (push_back key t m)
  unfolding push_back has_key
  push_back-Distinct key t [] h = (refl, tt)
  push_back-Distinct key t ((j, ts) ∷ m) h = elim (Bool-cases (same j key)) [
    | inl e ↦ rw e h
    | inr e ↦ rw e (
      ground (arith, has_key-push_back j key t m, same_iff j key, same_iff key j),
      push_back-Distinct key t m h.1,
    )
  ]

  absent :
      (k : Text) (ts : List (Ticker D)) (m : List (Text × List (Ticker D)))
      → In (k, ts) m
      → has_key k m ≡ false
      → ⊥
  unfolding has_key
  absent k ts [] i h = i
  absent k ts ((j, us) ∷ m) (inl e) h =
      ground (arith, same_refl j, ap (λ q. same j q) (ap (λ q. q.0) e))
  absent k ts ((j, us) ∷ m) (inr i) h = absent k ts m i (ground arith)

  -- With distinct symbols an entry is found under its symbol.
  pub members_of_In :
      (k : Text) (ts : List (Ticker D)) (m : List (Text × List (Ticker D)))
      → Distinct m
      → In (k, ts) m
      → members k m ≡ ts
  unfolding members
  members_of_In k ts [] h i = elim i [ ]
  members_of_In k ts ((j, us) ∷ m) h (inl e) =
      if-true _ _ (ap (λ q. same j q) (ap (λ q. q.0) e) ∙ same_refl j) ∙ sym (ap (λ q. q.1) e)
  members_of_In k ts ((j, us) ∷ m) h (inr i) = elim (Bool-cases (same j k)) [
    | inl e ↦ absurd (absent k ts m i (subst (λ q. has_key q m ≡ false) (same→eq j k e) h.0))
    | inr e ↦ if-false _ _ e ∙ members_of_In k ts m h.1 i
  ]

  -- A symbol with tickers has its entry.
  pub In-of_members :
      (k : Text) (t : Ticker D) (ts : List (Ticker D)) (m : List (Text × List (Ticker D)))
      → members k m ≡ t ∷ ts
      → In (k, t ∷ ts) m
  unfolding members
  In-of_members k t ts [] e = cc
  In-of_members k t ts ((j, us) ∷ m) e = elim (Bool-cases (same j k)) [
    | inl f ↦ inl (ap₂ (λ a b. (a, b)) (sym (same→eq j k f)) (sym e ∙ if-true _ _ f))
    | inr f ↦ inr (In-of_members k t ts m (sym (if-false _ _ f) ∙ e))
  ]

module _ {D : Type 0} (clock : Clock D) where
  -- A ticker that goes under the symbol `k`.
  abbrev pub belongs : Text → Ticker D → Bool
  belongs k t =
      if is_usable (get_data_status (clock.status t) t.timestamp_ms)
      then same (normalize_symbol t.symbol) k
      else false

  pub members-group :
      (k : Text) (xs : List (Ticker D)) (m : List (Text × List (Ticker D)))
      → members k (group clock xs m) ≡ members k m ++ filter (belongs k) xs
  unfolding group filter
  members-group k [] m = sym (append-nil (members k m))
  members-group k (x ∷ xs) m = ground (
    arith,
    members-group k xs m,
    members-group k xs (push_back (normalize_symbol x.symbol) x m),
    members-push_back k (normalize_symbol x.symbol) x m,
    append_assoc (members k m) (x ∷ []) (filter (belongs k) xs),
  )

  pub group-Distinct :
      (xs : List (Ticker D)) (m : List (Text × List (Ticker D)))
      → Distinct m
      → Distinct (group clock xs m)
  unfolding group
  group-Distinct [] m h = h
  group-Distinct (x ∷ xs) m h =
      elim (Bool-cases (is_usable (get_data_status (clock.status x) x.timestamp_ms))) [
        | inl e ↦ rw e (group-Distinct xs _ (push_back-Distinct (normalize_symbol x.symbol) x m h))
        | inr e ↦ rw e (group-Distinct xs m h)
      ]

  -- Under `k`, a pass from an empty map leaves the tickers that belong to `k`.
  pub members-group_start :
      (k : Text) (xs : List (Ticker D)) → members k (group clock xs []) ≡ filter (belongs k) xs
  unfolding members
  members-group_start k xs = members-group k xs []
