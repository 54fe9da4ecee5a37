-- ===== src/Threat/SignatureLaws.antt =====
-- What `contains_substring` finds.
use packet_dpi_engine.Base.{
  ℕ, ◌+◌, ◌⊎◌, suc, ◌<◌, ◌≤◌, ◌≡◌, ◌↔◌, inl, inr, refl, ap, ◌∙◌, Bool, true, false, [], ◌∷◌, ◌++◌,
  length, arith, Bool-cases, length-append,
}
use packet_dpi_engine.Text.{Text, to_lower}
use packet_dpi_engine.Threat.Signatures.{same_char, stands_at, occurs, contains_substring}

-- The capital letter `x` from A to Z and the small letter `y` are one letter.
abbrev pub IsCapitalOf : ℕ → ℕ → Type 0
IsCapitalOf x y = (65 ≤ x) × (x ≤ 90) × (y ≡ x + 32)

-- Characters that are the same, or the same letter in two cases, if `ci` ignores the case.
abbrev pub SameLetter : Bool → ℕ → ℕ → Type 0
SameLetter false x y = x ≡ y
SameLetter true x y = (x ≡ y) ⊎ IsCapitalOf x y ⊎ IsCapitalOf y x

same_char-SameLetter : (ci : Bool) (x y : ℕ) → same_char ci x y ≡ true → SameLetter ci x y
unfolding to_lower
same_char-SameLetter false x y h = ground (arith, h)
same_char-SameLetter true x y h = ground (arith, h)

SameLetter-same_char : (ci : Bool) (x y : ℕ) → SameLetter ci x y → same_char ci x y ≡ true
unfolding to_lower
SameLetter-same_char false x y h = ground (arith, h)
SameLetter-same_char true x y h = ground (arith, h)

-- Texts of one length that agree character by character, in any case if that is asked for.
abbrev pub Alike : Bool → Text → Text → Type 0
Alike ci [] [] = Unit {0}
Alike ci (x ∷ xs) (y ∷ ys) = SameLetter ci x y × Alike ci xs ys
Alike ci _ _ = ⊥

-- The text has a piece that is alike.
pub record HasPiece (ci : Bool) (needle hay : Text) : Type 0 where
  pub before : Text
  pub piece : Text
  pub after : Text
  pub parts : hay ≡ before ++ (piece ++ after)
  pub alike : Alike ci piece needle

stands_at-front :
    (ci : Bool) (needle hay : Text)
    → stands_at ci needle hay ≡ true
    → (piece : Text) × (after : Text) × (hay ≡ piece ++ after) × Alike ci piece needle
unfolding stands_at
stands_at-front ci [] hay h = ([], hay, refl, tt)
stands_at-front ci (n ∷ ns) [] h = absurd (ground arith)
stands_at-front ci (n ∷ ns) (x ∷ xs) h = elim (Bool-cases (same_char ci x n)) [
  | inl same ↦
      let (piece, after, parts, alike) = stands_at-front ci ns xs (ground (arith, h, same)) in
      (x ∷ piece, after, ap (λ t. x ∷ t) parts, (same_char-SameLetter ci x n same, alike))
  | inr other ↦ absurd (ground (arith, h, other))
]

stands_at-Alike :
    (ci : Bool) (needle piece after : Text)
    → Alike ci piece needle
    → stands_at ci needle (piece ++ after) ≡ true
unfolding stands_at
stands_at-Alike ci [] [] after a = refl
stands_at-Alike ci [] (x ∷ xs) after a = refl
stands_at-Alike ci (n ∷ ns) [] after a = elim a [ ]
stands_at-Alike ci (n ∷ ns) (x ∷ xs) after a =
    ground (arith, SameLetter-same_char ci x n a.0, stands_at-Alike ci ns xs after a.1)

occurs-HasPiece :
    (ci : Bool) (needle hay : Text) → occurs ci needle hay ≡ true → HasPiece ci needle hay
unfolding occurs
occurs-HasPiece ci needle [] h =
    let (piece, after, parts, alike) = stands_at-front ci needle [] h in
    record { before = []; piece = piece; after = after; parts = parts; alike = alike }
occurs-HasPiece ci needle (x ∷ xs) h = elim (Bool-cases (stands_at ci needle (x ∷ xs))) [
  | inl here ↦
      let (piece, after, parts, alike) = stands_at-front ci needle (x ∷ xs) here in
      record { before = []; piece = piece; after = after; parts = parts; alike = alike }
  | inr not_here ↦
      let later = occurs-HasPiece ci needle xs (ground (arith, h, not_here)) in
      record {
        before = x ∷ later.before;
        piece = later.piece;
        after = later.after;
        parts = ap (λ t. x ∷ t) later.parts;
        alike = later.alike;
      }
]

occurs-front :
    (ci : Bool) (needle hay : Text) → stands_at ci needle hay ≡ true → occurs ci needle hay ≡ true
unfolding occurs
occurs-front ci needle [] h = h
occurs-front ci needle (x ∷ xs) h = ground (arith, h)

occurs-append :
    (ci : Bool) (needle before rest : Text)
    → stands_at ci needle rest ≡ true
    → occurs ci needle (before ++ rest) ≡ true
unfolding occurs
occurs-append ci needle [] rest h = occurs-front ci needle rest h
occurs-append ci needle (x ∷ xs) rest h = ground (arith, occurs-append ci needle xs rest h)

length-Alike : (ci : Bool) (xs ys : Text) → Alike ci xs ys → length xs ≡ length ys
length-Alike ci [] [] a = refl
length-Alike ci [] (y ∷ ys) a = elim a [ ]
length-Alike ci (x ∷ xs) [] a = elim a [ ]
length-Alike ci (x ∷ xs) (y ∷ ys) a = ap suc (length-Alike ci xs ys a.1)

-- A pattern that is not empty is found in a text exactly if some piece of the text, of the length of
-- the pattern, agrees with it character by character: with the same characters if the case counts,
-- else up to the case of the letters A to Z.
pub contains_substring_iff :
    (hay needle : Text) (ci : Bool)
    → 0 < length needle
    → (contains_substring hay needle ci ≡ true) ↔ HasPiece ci needle hay
unfolding contains_substring
contains_substring_iff hay [] ci full = elim full [ ]
contains_substring_iff hay (n ∷ ns) ci full = (
  λ h. occurs-HasPiece ci (n ∷ ns) hay (ground (arith, h)),
  λ p.
      let fits : length (n ∷ ns) ≤ length hay = omega (
        arith,
        ap length p.parts,
        length-append p.before (p.piece ++ p.after),
        length-append p.piece p.after,
        length-Alike ci p.piece (n ∷ ns) p.alike,
      ) in
      let found =
        ap (occurs ci (n ∷ ns)) p.parts
        ∙ occurs-append ci (n ∷ ns) p.before (p.piece ++ p.after)
            (stands_at-Alike ci (n ∷ ns) p.piece p.after p.alike) in
      ground (arith, fits, found),
)
