-- ===== src/Clients/Session/Batches.antt =====
-- Bybit's subscription in batches.
use my_arbitrager.Prelude.{
  ℕ, zero, suc, ◌+◌, ◌-◌, ◌≤◌, ◌<◌, ◌≡◌, refl, sym, ap, ◌∙◌, inl, inr, Bool-cases, if-true,
  if-false, List, [], ◌∷◌, ◌++◌, arith, All, map, min, length, take, drop, ltb,
}
use native.Mathlib.Decide.{dec_le}
use my_arbitrager.Prelude.Text.{Text}
use my_arbitrager.Symbols.{binance_to_bybit_topic}
use my_arbitrager.Clients.Session.{Value, array, object, end, field}
use my_arbitrager.Clients.Session.Bybit.{
  batch_size, batch, batch_message, batch_starts, subscribe_messages,
}

-- The arguments of a message.
abbrev pub args_of : Value → List Text
args_of (object (field k v (field k' v' (field k'' (array args) end)))) = args
args_of v = []

-- The arguments of all of them, in order.
abbrev pub all_args : List Value → List Text
all_args [] = []
all_args (v ∷ vs) = args_of v ++ all_args vs

module _ {A : Type 0} where
  take-drop : (n : ℕ) (xs : List A) → take n xs ++ drop n xs ≡ xs
  take-drop zero xs = refl
  take-drop (suc n) [] = refl
  take-drop (suc n) (x ∷ xs) = ap (λ ys. x ∷ ys) (take-drop n xs)

  drop_nil : (n : ℕ) → drop {A = A} n [] ≡ []
  drop_nil zero = refl
  drop_nil (suc n) = refl

  drop-drop : (m n : ℕ) (xs : List A) → drop n (drop m xs) ≡ drop (m + n) xs
  drop-drop zero n xs = ap (λ k. drop k xs) (omega arith)
  drop-drop (suc m) n [] = drop_nil n ∙ sym (drop_nil (suc m + n))
  drop-drop (suc m) n (x ∷ xs) =
      drop-drop m n xs ∙ ap (λ k. drop k (x ∷ xs)) {x = suc (m + n)} (omega arith)

  drop_past : (n : ℕ) (xs : List A) → length xs ≤ n → drop n xs ≡ []
  drop_past n [] h = drop_nil n
  drop_past zero (x ∷ xs) h = elim h [ ]
  drop_past (suc n) (x ∷ xs) h = drop_past n xs (omega arith)

  drop-min : (n : ℕ) (xs : List A) → drop (min n (length xs)) xs ≡ drop n xs
  drop-min n xs = elim (dec_le (length xs) n) [
    | yes h ↦ drop_past (min n (length xs)) xs (omega arith) ∙ sym (drop_past n xs h)
    | no h ↦ ap (λ k. drop k xs) (omega arith)
  ]

  length-take : (n : ℕ) (xs : List A) → length (take n xs) ≡ min n (length xs)
  length-take zero xs = omega arith
  length-take (suc n) [] = omega arith
  length-take (suc n) (x ∷ xs) = omega (arith, length-take n xs)

  length-drop : (n : ℕ) (xs : List A) → length (drop n xs) ≡ length xs - n
  length-drop zero xs = omega arith
  length-drop (suc n) [] = omega arith
  length-drop (suc n) (x ∷ xs) = omega (arith, length-drop n xs)

-- A message of 1 to 10 arguments.
abbrev pub IsShort : Value → Type 0
IsShort v = (0 < length (args_of v)) × (length (args_of v) ≤ 10)

module _ (topics : List Text) where
  batch_then :
      (i : ℕ) → i < length topics → batch topics i ++ drop (i + batch_size) topics ≡ drop i topics
  unfolding batch
  batch_then i h =
      ap (λ ys. take (min (i + batch_size) (length topics) - i) (drop i topics) ++ ys) rest
      ∙ take-drop (min (i + batch_size) (length topics) - i) (drop i topics)
    where
      rest :
          drop (i + batch_size) topics
          ≡ drop (min (i + batch_size) (length topics) - i) (drop i topics)
      rest =
          sym (drop-min (i + batch_size) topics)
          ∙ ap (λ k. drop k topics) (omega arith)
          ∙ sym (drop-drop i (min (i + batch_size) (length topics) - i) topics)

  batch-IsShort : (i : ℕ) → i < length topics → IsShort (batch_message topics i)
  unfolding batch batch_message
  batch-IsShort i h =
      let size = length-take (min (i + batch_size) (length topics) - i) (drop i topics) in
      let left = length-drop i topics in
      (omega (arith, size, left, h), omega (arith, size, left, h))

  batches_complete :
      (fuel i : ℕ)
      → length topics ≤ i + fuel
      → let messages = map (batch_message topics) (batch_starts fuel topics i) in
        (all_args messages ≡ drop i topics) × All IsShort messages
  unfolding batch_starts batch_message
  batches_complete zero i h = (sym (drop_past i topics (omega arith)), tt)
  batches_complete (suc fuel) i h = elim (Bool-cases (ltb i (length topics))) [
    | inl more ↦ rw (if-true _ _ more) (
      ap (λ ts. batch topics i ++ ts) (batches_complete fuel (i + batch_size) (omega arith)).0
          ∙ batch_then i (ground arith),
      (batch-IsShort i (ground arith), (batches_complete fuel (i + batch_size) (omega arith)).1),
    )
    | inr done ↦ rw (if-false _ _ done) (sym (drop_past i topics (ground arith)), tt)
  ]

-- Bybit's subscription asks for exactly the topics of the symbols, in order, in messages of 1 to 10
-- topics each.
pub subscribe_messages_batches :
    (symbols : List Text)
    → (all_args (subscribe_messages symbols) ≡ map binance_to_bybit_topic symbols)
      × All IsShort (subscribe_messages symbols)
unfolding subscribe_messages
subscribe_messages_batches symbols =
    let topics = map binance_to_bybit_topic symbols in
    batches_complete topics (length topics) 0 (omega arith)
