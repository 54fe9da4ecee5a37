-- ===== src/Rules/GlobLaws.antt =====
-- The loops of `glob_match` end.
use packet_dpi_engine.Base.{
  ℕ, zero, suc, ◌+◌, ◌*◌, ◌≡◌, ◌≢◌, ◌<◌, ◌≤◌, refl, ap, false, [], ◌∷◌, Option, none, some, arith,
  ltb, length, Bool-cases, inl, inr, ◌⊎◌,
}
use packet_dpi_engine.Text.{Text}
use packet_dpi_engine.Rules.Domain.{
  Star, GlobState, head_matches, starts_with_star, backtrack, glob_step, glob_loop, glob_start,
  glob_fuel, only_stars,
}

mul_gap : (a b k : ℕ) → a < b → a * k + k ≤ b * k
mul_gap a zero k h = elim h [ ]
mul_gap a (suc b) k h = elim (Bool-cases (ltb a b)) [
  | inl lt ↦ omega (arith, mul_gap a b k (ground arith))
  | inr ge ↦ let same : a ≡ b = ground arith in rw same (omega arith)
]

-- What bounds the number of returns to the last star that can still follow.
abbrev rank : GlobState → ℕ
rank s = elim s.star [ none ↦ length s.text + 1 | some k ↦ length k.text_from ]

-- The pattern and what follows the last star are parts of the whole pattern, and the text that is
-- left is a part of the text from the last star.
abbrev StarFits : ℕ → ℕ → Option Star → Type 0
StarFits len text none = Unit {0}
StarFits len text (some k) = (length k.pattern_after ≤ len) × (text ≤ length k.text_from)

record Fits (len : ℕ) (s : GlobState) : Type 0 where
  pattern_fits : length s.pattern ≤ len
  star_fits : StarFits len (length s.text) s.star

-- How a turn of the loop makes progress: no more returns and a shorter pattern, or fewer returns.
record Progress (s s' : GlobState) (len : ℕ) : Type 0 where
  fits : Fits len s'
  less : (rank s' ≤ rank s) × (length s'.pattern < length s.pattern) ⊎ (rank s' < rank s)

glob_step-Progress :
    (len c : ℕ) (cs : Text) (s : GlobState) {s' : GlobState}
    → s.text ≡ c ∷ cs
    → Fits len s
    → glob_step c s ≡ some s'
    → Progress s s' len
unfolding glob_step head_matches starts_with_star backtrack
glob_step-Progress len c cs s full v e = ground arith

Progress-less :
    (len n : ℕ) (s s' : GlobState)
    → Fits len s
    → Progress s s' len
    → rank s * (len + 1) + length s.pattern < suc n
    → rank s' * (len + 1) + length s'.pattern < n
Progress-less len n s s' v p h = elim p.less [
  | inl (no_more, shorter) ↦ elim (Bool-cases (ltb (rank s') (rank s))) [
    | inl fewer ↦
        omega (arith, mul_gap (rank s') (rank s) (len + 1) (ground arith), p.fits.pattern_fits)
    | inr no_fewer ↦
        let same : rank s' ≡ rank s = ground arith in
        let products = ap (λ r. r * (len + 1)) same in omega (arith, products, shorter)
  ]
  | inr fewer ↦ omega (arith, mul_gap (rank s') (rank s) (len + 1) fewer, p.fits.pattern_fits)
]

glob_loop-ne-none :
    (n len : ℕ) (s : GlobState)
    → Fits len s
    → rank s * (len + 1) + length s.pattern < n
    → glob_loop n s ≢ none
unfolding glob_loop
glob_loop-ne-none zero len s v h = elim h [ ]
glob_loop-ne-none (suc n) len s v h = go (glob_loop-ne-none n len) s.text refl
  where
    turn :
        ((s' : GlobState)
          → Fits len s'
          → rank s' * (len + 1) + length s'.pattern < n
          → glob_loop n s' ≢ none)
        → (c : ℕ) (cs : Text) (o : Option GlobState) → s.text ≡ c ∷ cs
        → glob_step c s ≡ o
        → elim o [ none ↦ some false | some s' ↦ glob_loop n s' ] ≢ none
    turn again c cs none full e = λ q. cc
    turn again c cs (some s') full e =
        let p = glob_step-Progress len c cs s full v e in
        again s' p.fits (Progress-less len n s s' v p h)

    go :
        ((s' : GlobState)
          → Fits len s'
          → rank s' * (len + 1) + length s'.pattern < n
          → glob_loop n s' ≢ none)
        → (t : Text) → s.text ≡ t
        → elim t [
          | [] ↦ some (only_stars s.pattern)
          | c ∷ cs ↦ elim (glob_step c s) [ none ↦ some false | some s' ↦ glob_loop n s' ]
        ]
          ≢ none
    go again [] e = λ q. cc
    go again (c ∷ cs) e = turn again c cs (glob_step c s) e refl

-- The two loops of the matching end on every name and every pattern: the matching makes at most as
-- many turns as its fuel, the length of the name plus two, times the length of the pattern plus one.
pub glob_match-ends :
    (text pattern : Text) → glob_loop (glob_fuel text pattern) (glob_start text pattern) ≢ none
unfolding glob_fuel
glob_match-ends text pattern =
    glob_loop-ne-none _ (length pattern) (glob_start text pattern)
      (record { pattern_fits = omega arith; star_fits = tt })
      (omega
        (arith, mul_gap (length text + 1) (length text + 2) (length pattern + 1) (omega arith)))
