-- ===== src/Rules/Domain.antt =====
-- `DomainMatcher` of include/dpi/rules/domain_matcher.h and src/rules/domain_matcher.cpp.
use packet_dpi_engine.Base.{
  ℕ, zero, suc, ◌+◌, ◌-◌, ◌*◌, Bool, true, false, [], ◌∷◌, Option, none, some, ◌==◌, ltb, ◌&&◌,
  ◌||◌, not, if◌then◌else◌, length, drop,
}
use packet_dpi_engine.Text.{Text, lower, is_wildcard, text_eq}

-- The last star seen: the pattern after it and the text from `match_idx` on.
pub record Star : Type 0 where
  pub pattern_after : Text
  pub text_from : Text

-- The second loop and the final test: only stars are left of the pattern.
unfoldable pub only_stars : Text → Bool
only_stars [] = true
only_stars (p ∷ ps) = p == 42 && only_stars ps

-- Whether the heads agree, and whether the pattern starts with a star.
unfoldable pub head_matches : ℕ → Text → Bool
head_matches c [] = false
head_matches c (p ∷ ps) = p == 63 || p == c

unfoldable pub starts_with_star : Text → Bool
starts_with_star [] = false
starts_with_star (p ∷ ps) = p == 42

-- The state of the first loop: the text and the pattern that are left, and the last star.
pub record GlobState : Type 0 where
  pub text : Text
  pub pattern : Text
  pub star : Option Star

-- The third branch of the loop: back to the last star, one character further.
unfoldable pub backtrack : Option Star → Option GlobState
backtrack none = none
backtrack (some k) = some (record {
  text = drop 1 k.text_from;
  pattern = k.pattern_after;
  star = some (record k { text_from = drop 1 k.text_from });
})

-- One turn of the first loop on a text that starts with `c`; none is `return false`.
unfoldable pub glob_step : ℕ → GlobState → Option GlobState
unfolding head_matches starts_with_star
glob_step c s =
    if head_matches c s.pattern
    then some (record s { text = drop 1 s.text; pattern = drop 1 s.pattern })
    else if starts_with_star s.pattern
    then some (record s {
      pattern = drop 1 s.pattern;
      star = some (record { pattern_after = drop 1 s.pattern; text_from = s.text });
    })
    else backtrack s.star

-- The first loop on fuel; none is fuel that ran out.
unfoldable pub glob_loop : ℕ → GlobState → Option Bool
glob_loop zero s = none
glob_loop (suc n) s = elim s.text [
  | [] ↦ some (only_stars s.pattern)
  | c ∷ cs ↦ elim (glob_step c s) [ none ↦ some false | some s' ↦ glob_loop n s' ]
]

abbrev pub glob_start : Text → Text → GlobState
glob_start text pattern = record { text = text; pattern = pattern; star = none }

-- The turns that `glob_match` allows the loop.
unfoldable pub glob_fuel : Text → Text → ℕ
glob_fuel text pattern = (length text + 2) * (length pattern + 1)

abbrev is_true : Option Bool → Bool
is_true none = false
is_true (some b) = b

unfoldable pub glob_match : Text → Text → Bool
unfolding glob_fuel glob_loop
glob_match text pattern = is_true (glob_loop (glob_fuel text pattern) (glob_start text pattern))

pub record DomainMatcher : Type 0 where
  pub is_any : Bool
  pub is_valid : Bool
  pub is_suffix_wildcard : Bool
  pub pattern : Text
  pub suffix : Text

abbrev pub any_domain : DomainMatcher
any_domain = record {
  is_any = true;
  is_valid = true;
  is_suffix_wildcard = false;
  pattern = [];
  suffix = [];
}

-- The part of a pattern after "*.", if it starts with that.
unfoldable pub wildcard_suffix : Text → Option Text
wildcard_suffix (a ∷ b ∷ rest) = if a == 42 && b == 46 then some rest else none
wildcard_suffix _ = none

abbrev of_pattern : Text → Option Text → DomainMatcher
of_pattern p none = record any_domain { is_any = false; pattern = p }
of_pattern p (some rest) = record any_domain {
  is_any = false;
  pattern = p;
  is_suffix_wildcard = true;
  suffix = rest;
}

unfoldable pub parse_domain : Text → DomainMatcher
unfolding is_wildcard lower wildcard_suffix
parse_domain pattern =
    if is_wildcard pattern
    then any_domain
    else of_pattern (lower pattern) (wildcard_suffix (lower pattern))

-- The fast path for "*.suffix": the suffix itself, or a name that ends with a dot and the suffix.
unfoldable pub matches_suffix : Text → Text → Bool
unfolding text_eq
matches_suffix suffix name =
    if text_eq name suffix
    then true
    else (let dot_suffix = 46 ∷ suffix in
        ltb (length dot_suffix) (length name)
        && text_eq (drop (length name - length dot_suffix) name) dot_suffix)

unfoldable pub matches_domain : DomainMatcher → Text → Bool
unfolding matches_suffix glob_match lower
matches_domain m domain =
    if not m.is_valid
    then false
    else if m.is_any
    then true
    else if text_eq domain []
    then false
    else if m.is_suffix_wildcard
    then matches_suffix m.suffix (lower domain)
    else glob_match (lower domain) m.pattern
