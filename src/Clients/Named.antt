-- ===== src/Clients/Named.antt =====
-- Results whose tickers all come from one exchange, through the steps of a parse.
use my_arbitrager.Prelude.{
  ◌≡◌, Bool, true, false, List, [], ◌∷◌, Option, none, some, ◌>>=◌, All, if◌then◌else◌,
}
use my_arbitrager.Prelude.Text.{Text}
use my_arbitrager.Market.{Ticker}
use my_arbitrager.Clients.{deliver_each, delivered}

-- A result whose tickers, if there are any, all come from the exchange.
pub data From {D : Type 0} (name : Text) : Option (Ticker D) → Type 0 where
  failed : From name none
  named : {t : Ticker D} → t.exchange ≡ name → From name (some t)

pub data AllFrom {D : Type 0} (name : Text) : Option (List (Ticker D)) → Type 0 where
  failed : AllFrom name none
  all_named : {ts : List (Ticker D)} → All (λ t. t.exchange ≡ name) ts → AllFrom name (some ts)

module _ {D : Type 0} {name : Text} where
  pub From-bind :
      {A : Type 0} (o : Option A) {f : A → Option (Ticker D)}
      → ((a : A) → From name (f a))
      → From name (o >>= f)
  From-bind none h = From.failed
  From-bind (some a) h = h a

  pub AllFrom-bind :
      {A : Type 0} (o : Option A) {f : A → Option (List (Ticker D))}
      → ((a : A) → AllFrom name (f a))
      → AllFrom name (o >>= f)
  AllFrom-bind none h = AllFrom.failed
  AllFrom-bind (some a) h = h a

  pub AllFrom-one : {o : Option (Ticker D)} → From name o → AllFrom name (o >>= λ t. some (t ∷ []))
  AllFrom-one From.failed = AllFrom.failed
  AllFrom-one (named e) = all_named (e, tt)

  pub AllFrom-if :
      (b : Bool) {o p : Option (List (Ticker D))}
      → AllFrom name o
      → AllFrom name p
      → AllFrom name (if b then o else p)
  AllFrom-if true h k = h
  AllFrom-if false h k = k

  pub AllFrom-delivered :
      (b : Bool) {o : Option (List (Ticker D))}
      → AllFrom name o
      → All (λ t. t.exchange ≡ name) (delivered b o)
  unfolding delivered
  AllFrom-delivered b AllFrom.failed = tt
  AllFrom-delivered true (all_named h) = h
  AllFrom-delivered false (all_named h) = tt

module _ {J D : Type 0} where
  pub each_named :
      (name : Text) (read : J → Option (Ticker D)) (xs : List J)
      → ((x : J) → From name (read x))
      → All (λ t. t.exchange ≡ name) (deliver_each read xs).0
  unfolding deliver_each
  each_named name read [] h = tt
  each_named name read (x ∷ xs) h = each_named_cons (read x) (h x) (each_named name read xs h)
    where
      each_named_cons :
          (o : Option (Ticker D))
          → From name o
          → All (λ t. t.exchange ≡ name) (deliver_each read xs).0
          → All
              (λ t. t.exchange ≡ name)
              (elim o as (λ _. List (Ticker D) × Bool) [
                | none ↦ ([], false)
                | some t ↦ (t ∷ (deliver_each read xs).0, (deliver_each read xs).1)
              ]).0
      each_named_cons none From.failed k = tt
      each_named_cons (some t) (named e) k = (e, k)
