-- ===== src/Dpi/HttpTexts.antt =====
-- The searches and trims of the HTTP parser on texts whose parts are known.
use packet_dpi_engine.Base.{
  ℕ, zero, suc, ◌≡◌, ◌≢◌, refl, ap, false, [], ◌∷◌, ◌++◌, none, some, length, replicate, arith,
}
use packet_dpi_engine.Text.{Text, cut, split}
use packet_dpi_engine.Dpi.Http.{
  strip_cr, find_char, rfind_char, trim_leading, trim_trailing, is_space_or_tab,
}

-- No character of the text is `c`.
abbrev pub Lacks : ℕ → Text → Type 0
Lacks c [] = Unit {0}
Lacks c (x ∷ xs) = (x ≢ c) × Lacks c xs

pub Lacks-append : (c : ℕ) (a b : Text) → Lacks c a → Lacks c b → Lacks c (a ++ b)
Lacks-append c [] b h k = k
Lacks-append c (x ∷ xs) b h k = (h.0, Lacks-append c xs b h.1 k)

pub find_char-append :
    (c : ℕ) (a b : Text) → Lacks c a → find_char c (a ++ (c ∷ b)) ≡ some (length a)
unfolding find_char
find_char-append c [] b h = ground arith
find_char-append c (x ∷ xs) b h = ground (arith, h.0, find_char-append c xs b h.1)

rfind_char-Lacks : (c : ℕ) (a : Text) → Lacks c a → rfind_char c a ≡ none
unfolding rfind_char
rfind_char-Lacks c [] h = refl
rfind_char-Lacks c (x ∷ xs) h = ground (arith, h.0, rfind_char-Lacks c xs h.1)

pub rfind_char-append :
    (c : ℕ) (a b : Text) → Lacks c b → rfind_char c (a ++ (c ∷ b)) ≡ some (length a)
unfolding rfind_char
rfind_char-append c [] b h = ground (arith, rfind_char-Lacks c b h)
rfind_char-append c (x ∷ xs) b h = ground (arith, rfind_char-append c xs b h)

pub cut-append : (c : ℕ) (a b : Text) → Lacks c a → cut c (a ++ (c ∷ b)) ≡ (a, some b)
unfolding cut
cut-append c [] b h = ground arith
cut-append c (x ∷ xs) b h = ground (arith, h.0, cut-append c xs b h.1)

pub cut-Lacks : (c : ℕ) (a : Text) → Lacks c a → cut c a ≡ (a, none)
unfolding cut
cut-Lacks c [] h = refl
cut-Lacks c (x ∷ xs) h = ground (arith, h.0, cut-Lacks c xs h.1)

pub split-append : (c : ℕ) (a b : Text) → Lacks c a → split c (a ++ (c ∷ b)) ≡ a ∷ split c b
unfolding split
split-append c [] b h = ground arith
split-append c (x ∷ xs) b h = ground (arith, h.0, split-append c xs b h.1)

pub strip_cr-append : (a : Text) → strip_cr (a ++ (13 ∷ [])) ≡ a
unfolding strip_cr
strip_cr-append [] = ground arith
strip_cr-append (x ∷ []) = ground arith
strip_cr-append (x ∷ y ∷ ys) = ap (λ t. x ∷ t) (strip_cr-append (y ∷ ys))

-- No character of the text is a blank.
abbrev pub LacksBlanks : Text → Type 0
LacksBlanks [] = Unit {0}
LacksBlanks (x ∷ xs) = (is_space_or_tab x ≡ false) × LacksBlanks xs

pub trim_leading-blanks :
    (k x : ℕ) (xs : Text)
    → is_space_or_tab x ≡ false
    → trim_leading (replicate k 32 ++ (x ∷ xs)) ≡ x ∷ xs
unfolding trim_leading
trim_leading-blanks zero x xs h = ground (arith, h)
trim_leading-blanks (suc k) x xs h = ground (arith, trim_leading-blanks k x xs h)

pub trim_trailing-append :
    (a b : Text) → LacksBlanks a → trim_trailing (a ++ b) ≡ a ++ trim_trailing b
unfolding trim_trailing
trim_trailing-append [] b h = refl
trim_trailing-append (x ∷ xs) b h = ground (arith, h.0, trim_trailing-append xs b h.1)
