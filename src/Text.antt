-- ===== src/Text.antt =====
-- Text as the list of its bytes, with what the program uses of the C++ library on it: `tolower` and
-- `toupper` in the "C" locale, `find`, `substr` and `from_chars`.
use Prim.Native.Char.{code}
use Prim.Native.String.{String}
use packet_dpi_engine.Base.{
  ◌≡◌, refl, arith, ℕ, ◌+◌, ◌-◌, ◌*◌, ◌^◌, Bool, true, false, List, [], ◌∷◌, Option, none, some,
  ◌==◌, ltb, leb, ◌&&◌, ◌||◌, if◌then◌else◌, map, ◌/◌, ◌%◌, zero, suc, ◌++◌,
}

abbrev pub Text : Type 0
Text = List ℕ

unfoldable pub to_lower : ℕ → ℕ
to_lower c = if leb 65 c && leb c 90 then c + 32 else c

unfoldable pub to_upper : ℕ → ℕ
to_upper c = if leb 97 c && leb c 122 then c - 32 else c

-- `operator==` of two texts.
unfoldable pub text_eq : Text → Text → Bool
text_eq [] [] = true
text_eq [] (y ∷ ys) = false
text_eq (x ∷ xs) [] = false
text_eq (x ∷ xs) (y ∷ ys) = x == y && text_eq xs ys

-- `find(c)` and `substr`: the text before the first `c`, and the text after it.
unfoldable pub cut : ℕ → Text → Text × Option Text
cut c [] = ([], none)
cut c (x ∷ xs) =
    let (before, after) = cut c xs in if x == c then ([], some xs) else (x ∷ before, after)

unfoldable pub contains : ℕ → Text → Bool
contains c [] = false
contains c (x ∷ xs) = x == c || contains c xs

abbrev pub onto_first : ℕ → List Text → List Text
onto_first x [] = (x ∷ []) ∷ []
onto_first x (t ∷ ts) = (x ∷ t) ∷ ts

-- The tokens of a loop that looks for the next `c` while characters are left: nothing follows a `c`
-- at the end.
unfoldable pub split : ℕ → Text → List Text
split c [] = []
split c (x ∷ xs) = let rest = split c xs in if x == c then [] ∷ rest else onto_first x rest

unfoldable pub is_digit : ℕ → Bool
is_digit c = leb 48 c && leb c 57

-- The value of the leading digits after those that were read.
unfoldable pub decimal : ℕ → Text → ℕ
unfolding is_digit
decimal acc [] = acc
decimal acc (c ∷ cs) =
    let rest = decimal (acc * 10 + (c - 48)) cs in if is_digit c then rest else acc

-- `std::from_chars` into an `unsigned int`; `none` is an error code.
unfoldable pub from_chars : Text → Option ℕ
unfolding decimal is_digit
from_chars [] = none
from_chars (c ∷ cs) =
    if is_digit c
    then (let v = decimal 0 (c ∷ cs) in if ltb v (2 ^ 32) then some v else none)
    else none

unfoldable pub lower : Text → Text
unfolding to_lower
lower xs = map to_lower xs

unfoldable pub upper : Text → Text
unfolding to_upper
upper xs = map to_upper xs

-- "ANY" and "any".
abbrev pub text_any_upper : Text
text_any_upper = 65 ∷ 78 ∷ 89 ∷ []

abbrev pub text_any_lower : Text
text_any_lower = 97 ∷ 110 ∷ 121 ∷ []

-- The spellings of "anything" that all criteria share: empty, "*", "ANY" and "any".
unfoldable pub is_wildcard : Text → Bool
unfolding text_eq
is_wildcard s =
    text_eq s [] || text_eq s (42 ∷ []) || text_eq s text_any_upper || text_eq s text_any_lower

pub text_eq_sound : (a b : Text) → text_eq a b ≡ true → a ≡ b
unfolding text_eq
text_eq_sound [] [] h = refl
text_eq_sound [] (y ∷ ys) h = absurd (ground arith)
text_eq_sound (x ∷ xs) [] h = absurd (ground arith)
text_eq_sound (x ∷ xs) (y ∷ ys) h = ground (arith, text_eq_sound xs ys)

pub text_eq_refl : (a : Text) → text_eq a a ≡ true
unfolding text_eq
text_eq_refl [] = refl
text_eq_refl (x ∷ xs) = ground (arith, text_eq_refl xs)

-- A literal as its bytes.
abbrev pub codes : String → Text
codes String.[] = []
codes (String.◌∷◌ c s) = code c ∷ codes s

abbrev pub digit_of : ℕ → ℕ
digit_of d = if ltb d 10 then 48 + d else 87 + d

-- The digits of a number to a base, at most as many as the fuel.
unfoldable pub digits : ℕ → ℕ → ℕ → Text
digits zero base n = []
digits (suc k) base n =
    let front = digits k base (n / base) in
    if ltb n base then digit_of n ∷ [] else front ++ (digit_of (n % base) ∷ [])

-- `std::to_string` of an integer of up to 64 bits, which has at most 20 digits.
unfoldable pub to_string : ℕ → Text
unfolding digits
to_string n = digits 20 10 n

-- An integer of 16 bits under `std::hex`.
unfoldable pub to_hex : ℕ → Text
unfolding digits
to_hex n = digits 4 16 n
