-- ===== src/Output.antt =====
-- What the program prints with `std::cout` and the manipulators of <iomanip>, as a list of insertions, and
-- the text and the terminal's colours that come out. The text of a `double` is a parameter.
pub mod Columns
use Prim.Native.Char.{code}
use Prim.Native.String.{String}
use my_arbitrager.Prelude.{
  ℕ, zero, suc, ◌+◌, ◌-◌, ◌/◌, ◌%◌, Bool, true, false, List, [], ◌∷◌, ◌++◌, length, replicate, ltb,
  if◌then◌else◌,
}
use my_arbitrager.Prelude.Text.{Text, codes, to_string}

-- The UTF-8 bytes of a code point below 2 ^ 16, as the sources are encoded.
abbrev pub utf8_bytes : ℕ → Text
utf8_bytes c =
    if ltb c 128
    then c ∷ []
    else if ltb c 2048
    then (192 + c / 64) ∷ (128 + c % 64) ∷ []
    else (224 + c / 4096) ∷ (128 + c / 64 % 64) ∷ (128 + c % 64) ∷ []

abbrev pub utf8 : String → Text
utf8 String.[] = []
utf8 (String.◌∷◌ c s) = utf8_bytes (code c) ++ utf8 s

pub data Color : Type 0 where
  green red yellow blue magenta cyan reset bold bright_green : Color

-- The part of the escape sequence between `ESC [` and `m`.
unfoldable pub ansi : Color → Text
ansi green = codes "32"
ansi red = codes "31"
ansi yellow = codes "33"
ansi blue = codes "34"
ansi magenta = codes "35"
ansi cyan = codes "36"
ansi reset = codes "0"
ansi bold = codes "1"
ansi bright_green = codes "1;32"

-- What a terminal gets: text, or an escape sequence that colours what follows or clears the screen.
pub data Item : Type 0 where
  text : Text → Item
  color : Color → Item
  clear_screen : Item

unfoldable pub bytes_of : Item → Text
unfolding ansi
bytes_of (text t) = t
bytes_of (color c) = 27 ∷ codes "[" ++ ansi c ++ codes "m"
bytes_of clear_screen = 27 ∷ codes "[2J" ++ 27 ∷ codes "[H"

-- An insertion into the stream, by `<<`.
pub data Insertion (D : Type 0) : Type 0 where
  item : Item → Insertion D
  number : ℕ → Insertion D
  double : D → Insertion D
  setw setfill setprecision : ℕ → Insertion D
  left right fixed : Insertion D

-- The format of a stream; a `width` of 0 is none.
pub record Format : Type 0 where
  pub width : ℕ
  pub fill : ℕ
  pub is_left : Bool
  pub is_fixed : Bool
  pub precision : ℕ

-- Of `std::cout`, or of a fresh `std::stringstream`.
abbrev pub default_format : Format
default_format = record { width = 0; fill = 32; is_left = false; is_fixed = false; precision = 6 }

-- An insertion of text fills it up to the width, on its right or its left.
abbrev pub padded : Format → Item → List Item
padded f i =
    let filling : Item = text (replicate (f.width - length (bytes_of i)) f.fill) in
    if f.is_left then i ∷ filling ∷ [] else filling ∷ i ∷ []

module _ {D : Type 0} (show : (is_fixed : Bool) (precision : ℕ) → D → Text) where
  abbrev pub written : Format → Insertion D → List Item
  written f (item i) = padded f i
  written f (number n) = padded f (text (to_string n))
  written f (double x) = padded f (text (show f.is_fixed f.precision x))
  written f (setw n) = []
  written f (setfill c) = []
  written f (setprecision n) = []
  written f left = []
  written f right = []
  written f fixed = []

  -- The width is for one insertion of text.
  abbrev pub after : Format → Insertion D → Format
  after f (item i) = record f { width = 0 }
  after f (number n) = record f { width = 0 }
  after f (double x) = record f { width = 0 }
  after f (setw n) = record f { width = n }
  after f (setfill c) = record f { fill = c }
  after f (setprecision n) = record f { precision = n }
  after f left = record f { is_left = true }
  after f right = record f { is_left = false }
  after f fixed = record f { is_fixed = true }

  -- What comes out, and the format that it leaves.
  unfoldable pub print : Format → List (Insertion D) → List Item
  print f [] = []
  print f (i ∷ is) = written f i ++ print (after f i) is

  unfoldable pub print_format : Format → List (Insertion D) → Format
  print_format f [] = f
  print_format f (i ∷ is) = print_format (after f i) is

-- The bytes that the terminal gets, or the contents of a `std::stringstream`.
unfoldable pub bytes_of_all : List Item → Text
bytes_of_all [] = []
bytes_of_all (i ∷ is) = bytes_of i ++ bytes_of_all is

-- A literal.
abbrev pub lit : {D : Type 0} → String → Insertion D
lit s = item (text (utf8 s))

abbrev pub paint : {D : Type 0} → Color → Insertion D
paint c = item (color c)

abbrev pub spaces : {D : Type 0} → ℕ → Insertion D
spaces n = item (text (replicate n 32))

-- A literal that ends the line.
abbrev pub line : {D : Type 0} → String → Insertion D
line s = item (text (utf8 s ++ 10 ∷ []))
