-- ===== src/Prelude/Text.antt =====
-- `std::string` as the list of its bytes, with the tests and searches that the program makes.
use Prim.Native.Char.{code}
use Prim.Native.Nat.{ℕ, zero, suc, ◌+◌, ◌-◌, ◌/◌, ◌%◌, ◌<◌}
use Prim.Native.String.{String}
use mathlib.Core.Path.{◌≡◌, refl, ap, ◌∙◌}
use mathlib.Core.Logic.{◌↔◌}
use mathlib.Core.Bool.{Bool, true, false, ◌&&◌}
use mathlib.Core.List.{List, [], ◌∷◌, ◌++◌}
use native.Mathlib.Omega.{arith}
use my_arbitrager.Prelude.Tests.{ltb, ◌==◌, if◌then◌else◌}
use my_arbitrager.Prelude.Lists.{length, take, drop, length-append}

abbrev pub Text : Type 0
Text = List ℕ

-- The bytes of an ASCII literal.
abbrev pub codes : String → Text
codes String.[] = []
codes (String.◌∷◌ c s) = code c ∷ codes s

-- `operator==`
unfoldable pub same : Text → Text → Bool
same [] [] = true
same [] (b ∷ t) = false
same (a ∷ s) [] = false
same (a ∷ s) (b ∷ t) = a == b && same s t

pub same→eq : (s t : Text) → same s t ≡ true → s ≡ t
unfolding same
same→eq [] [] h = refl
same→eq [] (b ∷ t) h = cc
same→eq (a ∷ s) [] h = cc
same→eq (a ∷ s) (b ∷ t) h = ground (arith, same→eq s t)

pub same_refl : (s : Text) → same s s ≡ true
unfolding same
same_refl [] = refl
same_refl (a ∷ s) = ground (arith, same_refl s)

pub same_iff : (s t : Text) → (same s t ≡ true) ↔ (s ≡ t)
same_iff s t = (same→eq s t, λ e. rw e (same_refl t))

-- `s.find(c) != npos`, and `s.substr(0, s.find(c))`.
unfoldable pub has : ℕ → Text → Bool
has c [] = false
has c (a ∷ s) = if a == c then true else has c s

unfoldable pub before : ℕ → Text → Text
before c [] = []
before c (a ∷ s) = if a == c then [] else a ∷ before c s

-- `s.length() > suffix.length() && s.substr(s.length() - suffix.length()) == suffix`
unfoldable pub ends_with : Text → Text → Bool
ends_with suffix s =
    ltb (length suffix) (length s) && same (drop (length s - length suffix) s) suffix

-- `s.substr(0, s.length() - n)`
unfoldable pub chop : ℕ → Text → Text
chop n s = take (length s - n) s

take_append : (s t : Text) → take (length s) (s ++ t) ≡ s
take_append [] t = refl
take_append (a ∷ s) t = ap (λ r. a ∷ r) (take_append s t)

drop_append : (s t : Text) → drop (length s) (s ++ t) ≡ t
drop_append [] t = refl
drop_append (a ∷ s) t = drop_append s t

pub chop-append : (s t : Text) → chop (length t) (s ++ t) ≡ s
unfolding chop
chop-append s t = ap (λ n. take n (s ++ t)) (omega (arith, length-append s t)) ∙ take_append s t

pub ends_with-append : (s t : Text) → 0 < length s → ends_with t (s ++ t) ≡ true
unfolding ends_with
ends_with-append s t h = rw (cut, same_refl t) (ground (arith, length-append s t))
  where
    cut : drop (length (s ++ t) - length t) (s ++ t) ≡ t
    cut = ap (λ n. drop n (s ++ t)) (omega (arith, length-append s t)) ∙ drop_append s t

pub before-append : (c : ℕ) (s t : Text) → has c s ≡ false → before c (s ++ c ∷ t) ≡ s
unfolding has before
before-append c [] t h = ground arith
before-append c (a ∷ s) t h = ground (arith, before-append c s t)

pub has-append : (c : ℕ) (s t : Text) → has c (s ++ t) ≡ (if has c s then true else has c t)
unfolding has
has-append c [] t = refl
has-append c (a ∷ s) t = ground (arith, has-append c s t)

-- A text of the suffix's length tells by itself whether it is the suffix.
pub ends_with-append_same :
    (s t suffix : Text)
    → 0 < length s
    → length t ≡ length suffix
    → ends_with suffix (s ++ t) ≡ same t suffix
unfolding ends_with
ends_with-append_same s t suffix h e = rw cut (ground (arith, length-append s t))
  where
    cut : drop (length (s ++ t) - length suffix) (s ++ t) ≡ t
    cut = ap (λ n. drop n (s ++ t)) (omega (arith, length-append s t)) ∙ drop_append s t

-- `std::to_string`, the digits in front of those of `acc`.
unfoldable pub digits_before : (fuel : ℕ) → ℕ → (acc : Text) → Text
digits_before zero n acc = acc
digits_before (suc fuel) n acc =
    let more = digits_before fuel (n / 10) ((48 + n % 10) ∷ acc) in
    if ltb n 10 then (48 + n) ∷ acc else more

unfoldable pub to_string : ℕ → Text
to_string n = digits_before (suc n) n []
