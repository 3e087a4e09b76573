-- ===== src/Ring/Window.antt =====
-- What a circular buffer holds from an index on, and how a write past the end extends it.
use my_arbitrager.Prelude.{
  ℕ, ◌+◌, ◌-◌, ◌<◌, ◌≡◌, ◌∙◌, List, [], ◌∷◌, ◌++◌, some, arith, bit_and, length, get_elem?, set,
  get_elem?-set_self, get_elem?-set_ne, leb, ◌==◌, if◌then◌else◌,
}
use my_arbitrager.Prelude.Bits.{add64, IsPow2, mask-add-one}

-- `(i + 1) & (Size - 1)`
unfoldable pub next_index : ℕ → ℕ → ℕ
next_index size i = bit_and (add64 i 1) (size - 1)

-- One step round the buffer, and any number below `size` of steps.
abbrev pub step : ℕ → ℕ → ℕ
step size i = if i + 1 == size then 0 else i + 1

abbrev pub wrap : ℕ → ℕ → ℕ
wrap size i = if leb size i then i - size else i

pub next_index-eq-step :
    {size : ℕ} (i : ℕ) → IsPow2 size → i < size → next_index size i ≡ step size i
unfolding next_index
next_index-eq-step i p h = mask-add-one i p h

module _ {ℓ} {A : Type ℓ} (size : ℕ) where
  -- The entries of `buffer` from index `h` on, going round at `size`, are these.
  abbrev pub Holds : List A → ℕ → List A → Type ℓ
  Holds buffer h [] = Unit
  Holds buffer h (x ∷ xs) = (get_elem? buffer h ≡ some x) × Holds buffer (step size h) xs

  -- A write at the index past the last entry changes no entry.
  pub Holds-set_past :
      (buffer : List A) (x : A) (xs : List A) (h i : ℕ)
      → h < size
      → length xs < size
      → i ≡ wrap size (h + length xs)
      → Holds buffer h xs
      → Holds (set buffer i x) h xs
  Holds-set_past buffer x [] h i hh room e held = tt
  Holds-set_past buffer x (y ∷ xs) h i hh room e held = (
    get_elem?-set_ne buffer i h x (ground arith) ∙ held.0,
    Holds-set_past buffer x xs (step size h) i (ground arith) (omega arith) (ground arith) held.1,
  )

  -- The entry at that index is the next one.
  pub Holds-append :
      (buffer : List A) (x : A) (xs : List A) (h i : ℕ)
      → h < size
      → length xs < size
      → i ≡ wrap size (h + length xs)
      → get_elem? buffer i ≡ some x
      → Holds buffer h xs
      → Holds buffer h (xs ++ x ∷ [])
  Holds-append buffer x [] h i hh room e at held = (ground arith, tt)
  Holds-append buffer x (y ∷ xs) h i hh room e at held = (
    held.0,
    Holds-append buffer x xs (step size h) i (ground arith) (omega arith) (ground arith) at held.1,
  )

  pub Holds-set :
      (buffer : List A) (x : A) (xs : List A) (h i : ℕ)
      → length buffer ≡ size
      → h < size
      → length xs < size
      → i ≡ wrap size (h + length xs)
      → Holds buffer h xs
      → Holds (set buffer i x) h (xs ++ x ∷ [])
  Holds-set buffer x xs h i s hh room e held =
      Holds-append (set buffer i x) x xs h i hh room e
        (get_elem?-set_self buffer i x (ground arith))
        (Holds-set_past buffer x xs h i hh room e held)
