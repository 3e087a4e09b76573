-- ===== src/Output/Columns.antt =====
-- How many columns of a terminal a piece of output takes.
use my_arbitrager.Prelude.{
  ℕ, zero, suc, ◌+◌, ◌-◌, ◌≤◌, ◌<◌, ◌≡◌, refl, ap, ◌∙◌, Bool, true, false, Bool-cases, inl, inr,
  List, [], ◌∷◌, ◌++◌, arith, All, length, length-append, length-replicate, replicate, ltb, leb,
  ◌&&◌, ◌||◌, ◌==◌, if◌then◌else◌,
}
use my_arbitrager.Prelude.Text.{Text, to_string}
use my_arbitrager.Output.{
  Insertion, item, number, double, setw, setfill, setprecision, left, right, fixed, Item, text,
  color, clear_screen, Format, padded, bytes_of, bytes_of_all, after, print,
}

-- A byte takes a column, unless it goes on with a character or ends the line.
abbrev pub columns : Text → ℕ
columns [] = 0
columns (b ∷ t) = (if b == 10 || (leb 128 b && ltb b 192) then 0 else 1) + columns t

abbrev pub columns_of : Item → ℕ
columns_of (text t) = columns t
columns_of (color c) = 0
columns_of clear_screen = 0

abbrev pub byte_count : Item → ℕ
byte_count i = length (bytes_of i)

unfoldable pub size_of : (size : Item → ℕ) → List Item → ℕ
size_of size [] = 0
size_of size (i ∷ is) = size i + size_of size is

abbrev pub width_of : List Item → ℕ
width_of = size_of columns_of

pub columns-append : (s t : Text) → columns (s ++ t) ≡ columns s + columns t
columns-append [] t = omega arith
columns-append (b ∷ s) t = omega (arith, columns-append s t)

size_of-append :
    (size : Item → ℕ) (is js : List Item)
    → size_of size (is ++ js) ≡ size_of size is + size_of size js
unfolding size_of
size_of-append size [] js = omega arith
size_of-append size (i ∷ is) js = omega (arith, size_of-append size is js)

-- What a `std::stringstream` holds.
pub length-bytes_of_all : (is : List Item) → length (bytes_of_all is) ≡ size_of byte_count is
unfolding bytes_of_all size_of
length-bytes_of_all [] = refl
length-bytes_of_all (i ∷ is) =
    length-append (bytes_of i) (bytes_of_all is)
    ∙ ap (λ n. byte_count i + n) (length-bytes_of_all is)

-- Printable ASCII.
abbrev pub IsPlain : Text → Type 0
IsPlain = All (λ b. (32 ≤ b) × (b < 127))

pub columns-IsPlain : (t : Text) → IsPlain t → columns t ≡ length t
columns-IsPlain [] h = refl
columns-IsPlain (b ∷ t) h = ground (arith, columns-IsPlain t h.1)

pub columns-spaces : (n : ℕ) → columns (replicate n 32) ≡ n
columns-spaces zero = refl
columns-spaces (suc n) = omega (arith, columns-spaces n)

pub length-spaces : (n : ℕ) → byte_count (text (replicate n 32)) ≡ n
unfolding bytes_of
length-spaces n = length-replicate n 32

-- No insertion changes the fill.
abbrev pub NoFill : {D : Type 0} → List (Insertion D) → Type 0
NoFill [] = Unit
NoFill (setfill c ∷ is) = ⊥
NoFill (i ∷ is) = NoFill is

-- A size of items, of which `n` spaces have `n`.
module _ {D : Type 0} (show : (is_fixed : Bool) (precision : ℕ) → D → Text) (size : Item → ℕ)
    (size_spaces : (n : ℕ) → size (text (replicate n 32)) ≡ n) where
  -- The size that an insertion has with the spaces up to the width.
  abbrev pub taken : Format → Item → ℕ
  taken f i = size i + (f.width - length (bytes_of i))

  abbrev pub measure : Format → List (Insertion D) → ℕ
  measure f [] = 0
  measure f (item i ∷ is) = taken f i + measure (record f { width = 0 }) is
  measure f (number n ∷ is) = taken f (text (to_string n)) + measure (record f { width = 0 }) is
  measure f (double x ∷ is) =
      taken f (text (show f.is_fixed f.precision x)) + measure (record f { width = 0 }) is
  measure f (i ∷ is) = measure (after show f i) is

  size_of-padded : (f : Format) (i : Item) → f.fill ≡ 32 → size_of size (padded f i) ≡ taken f i
  unfolding size_of
  size_of-padded f i fill = elim (Bool-cases f.is_left) [
    | inl l ↦ rw (l, fill) (omega (arith, size_spaces (f.width - length (bytes_of i))))
    | inr r ↦ rw (r, fill) (omega (arith, size_spaces (f.width - length (bytes_of i))))
  ]

  size_of-item :
      (f : Format) (i : Item) (is : List Item)
      → f.fill ≡ 32
      → size_of size (padded f i ++ is) ≡ taken f i + size_of size is
  size_of-item f i is fill =
      size_of-append size (padded f i) is ∙ ap (λ n. n + size_of size is) (size_of-padded f i fill)

  -- The size of what is printed, if no insertion changes the fill.
  pub size_of-print :
      (f : Format) (is : List (Insertion D))
      → f.fill ≡ 32
      → NoFill is
      → size_of size (print show f is) ≡ measure f is
  unfolding print size_of
  size_of-print f [] fill plain = refl
  size_of-print f (item i ∷ is) fill plain =
      let rest = size_of-print (record f { width = 0 }) is fill plain in
      size_of-item f i (print show (record f { width = 0 }) is) fill ∙ ap (λ m. taken f i + m) rest
  size_of-print f (number n ∷ is) fill plain =
      let rest = size_of-print (record f { width = 0 }) is fill plain in
      size_of-item f (text (to_string n)) (print show (record f { width = 0 }) is) fill
      ∙ ap (λ m. taken f (text (to_string n)) + m) rest
  size_of-print f (double x ∷ is) fill plain =
      let rest = size_of-print (record f { width = 0 }) is fill plain in
      size_of-item f (text (show f.is_fixed f.precision x)) (print show (record f { width = 0 }) is)
        fill
      ∙ ap (λ m. taken f (text (show f.is_fixed f.precision x)) + m) rest
  size_of-print f (setw n ∷ is) fill plain = size_of-print (record f { width = n }) is fill plain
  size_of-print f (setprecision n ∷ is) fill plain =
      size_of-print (record f { precision = n }) is fill plain
  size_of-print f (left ∷ is) fill plain = size_of-print (record f { is_left = true }) is fill plain
  size_of-print f (right ∷ is) fill plain =
      size_of-print (record f { is_left = false }) is fill plain
  size_of-print f (fixed ∷ is) fill plain =
      size_of-print (record f { is_fixed = true }) is fill plain
  size_of-print f (setfill c ∷ is) fill plain = absurd plain

-- A plain text of at most `n` bytes.
abbrev pub Fits : ℕ → Text → Type 0
Fits n t = IsPlain t × (length t ≤ n)

-- It fills a field of `n` columns.
pub columns-Fits : (n : ℕ) (t : Text) → Fits n t → columns t + (n - length t) ≡ n
columns-Fits n t h = omega (arith, columns-IsPlain t h.0, h.1)
