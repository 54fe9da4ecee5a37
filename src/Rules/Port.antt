-- ===== src/Rules/Port.antt =====
-- `PortMatcher` of include/dpi/rules/port_matcher.h and src/rules/port_matcher.cpp.
use packet_dpi_engine.Base.{
  ℕ, Bool, true, false, List, [], ◌∷◌, ◌++◌, Option, none, some, ◌==◌, ltb, leb, ◌&&◌, ◌||◌, not,
  if◌then◌else◌,
}
use packet_dpi_engine.Text.{Text, cut, split, from_chars, is_wildcard, text_eq}

pub record PortMatcher : Type 0 where
  pub is_any : Bool
  pub is_valid : Bool
  pub ranges : List (ℕ × ℕ)

abbrev is_blank : ℕ → Bool
is_blank c = c == 32 || c == 9

unfoldable pub trim_front : Text → Text
trim_front [] = []
trim_front (c ∷ cs) = let rest = trim_front cs in if is_blank c then rest else c ∷ cs

-- A character and what is left of the text after it, without the blanks at the end.
abbrev onto_trimmed : ℕ → Text → Text
onto_trimmed c [] = if is_blank c then [] else c ∷ []
onto_trimmed c (d ∷ ds) = c ∷ d ∷ ds

unfoldable pub trim_back : Text → Text
trim_back [] = []
trim_back (c ∷ cs) = onto_trimmed c (trim_back cs)

-- A range from the two values that were read, or none if the text is not valid.
unfoldable pub range_of : Option ℕ → Option ℕ → Option (ℕ × ℕ)
range_of none hi = none
range_of (some lo) none = none
range_of (some lo) (some hi) =
    if ltb 65535 lo || ltb 65535 hi || ltb hi lo then none else some (lo, hi)

-- A token that is not empty: "min-max", or a single port.
unfoldable pub parse_token : Text → Option (ℕ × ℕ)
unfolding range_of cut
parse_token token =
    let (first, rest) = cut 45 token in
    elim rest [
      | some second ↦ range_of (from_chars first) (from_chars second)
      | none ↦ range_of (from_chars token) (from_chars token)
    ]

-- The end of the loop.
abbrev any_if_empty : PortMatcher → PortMatcher
any_if_empty m = elim m.ranges [ [] ↦ record m { is_any = true } | r ∷ rs ↦ m ]

-- The loop over the tokens; it stops at the first that is not valid.
unfoldable pub add_tokens : List Text → PortMatcher → PortMatcher
add_tokens [] m = any_if_empty m
add_tokens (t ∷ ts) m = elim (trim_back (trim_front t)) [
  | [] ↦ add_tokens ts m
  | c ∷ cs ↦ elim (parse_token (c ∷ cs)) [
    | none ↦ record m { is_valid = false }
    | some r ↦ add_tokens ts (record m { ranges = m.ranges ++ (r ∷ []) })
  ]
]

unfoldable pub parse_ports : Text → PortMatcher
unfolding is_wildcard add_tokens split
parse_ports expr =
    if is_wildcard expr || text_eq expr (48 ∷ [])
    then record { is_any = true; is_valid = true; ranges = [] }
    else add_tokens (split 44 expr) (record { is_any = false; is_valid = true; ranges = [] })

unfoldable pub in_ranges : ℕ → List (ℕ × ℕ) → Bool
in_ranges port [] = false
in_ranges port ((lo, hi) ∷ rs) = (leb lo port && leb port hi) || in_ranges port rs

unfoldable pub matches_port : PortMatcher → ℕ → Bool
matches_port m port =
    if not m.is_valid then false else if m.is_any then true else in_ranges port m.ranges
