-- ===== src/Rules/DomainLaws.antt =====
-- The fast path for patterns "*.suffix".
use packet_dpi_engine.Base.{
  ◌-◌, ◌<◌, ◌≡◌, ◌≢◌, ◌↔◌, ◌⊎◌, inl, inr, refl, sym, ap, ◌∙◌, true, [], ◌∷◌, ◌++◌, arith, ltb,
  length, take, drop, length-append, length-take, take-append-drop, Bool-cases, ltb→lt, lt→ltb,
}
use packet_dpi_engine.Text.{Text, text_eq, text_eq_sound, text_eq_refl}
use packet_dpi_engine.Memory.Views.{drop-append}
use packet_dpi_engine.Rules.Domain.{matches_suffix}

-- The name is the suffix, or a name inside it.
abbrev pub IsUnder : Text → Text → Type 0
IsUnder suffix name = (name ≡ suffix) ⊎ ((p : Text) × (p ≢ []) × (name ≡ p ++ (46 ∷ suffix)))

nonempty : (p : Text) → 0 < length p → p ≢ []
nonempty [] h = elim h [ ]
nonempty (x ∷ xs) h = λ e. cc

positive : (p : Text) → p ≢ [] → 0 < length p
positive [] h = absurd (h refl)
positive (x ∷ xs) h = omega arith

matches_suffix_sound : (s n : Text) → matches_suffix s n ≡ true → IsUnder s n
unfolding matches_suffix
matches_suffix_sound s n h = elim (Bool-cases (text_eq n s)) [
  | inl e ↦ inl (text_eq_sound n s e)
  | inr e ↦
      let k = length n - length (46 ∷ s) in
      let longer : ltb (length (46 ∷ s)) (length n) ≡ true = ground arith in
      let tail : drop k n ≡ 46 ∷ s = text_eq_sound (drop k n) (46 ∷ s) (ground arith) in
      let lt = ltb→lt (length (46 ∷ s)) (length n) longer in
      inr (
        take k n,
        nonempty (take k n) (omega (arith, length-take k n, lt)),
        sym (take-append-drop k n) ∙ ap (λ t. take k n ++ t) tail,
      )
]

matches_suffix-inside : (s p : Text) → p ≢ [] → matches_suffix s (p ++ (46 ∷ s)) ≡ true
unfolding matches_suffix
matches_suffix-inside s p ne =
    let n = p ++ (46 ∷ s) in
    let long : ltb (length (46 ∷ s)) (length n) ≡ true =
      lt→ltb _ _ (omega (arith, length-append p (46 ∷ s), positive p ne)) in
    let place : length n - length (46 ∷ s) ≡ length p = omega (arith, length-append p (46 ∷ s)) in
    let tail : drop (length n - length (46 ∷ s)) n ≡ 46 ∷ s =
      ap (λ k. drop k n) place ∙ drop-append p (46 ∷ s) in
    let same : text_eq (drop (length n - length (46 ∷ s)) n) (46 ∷ s) ≡ true =
      ap (λ t. text_eq t (46 ∷ s)) tail ∙ text_eq_refl (46 ∷ s) in
    ground (arith, long, same)

-- The fast path matches a name exactly if the name is the suffix itself or ends with a dot and the
-- suffix, after at least one character; a name that merely ends with the same letters is not matched.
pub matches_suffix_iff : (s n : Text) → (matches_suffix s n ≡ true) ↔ IsUnder s n
unfolding matches_suffix
matches_suffix_iff s n = (matches_suffix_sound s n, back)
  where
    back : IsUnder s n → matches_suffix s n ≡ true
    back (inl e) = rw (e, text_eq_refl s) refl
    back (inr (p, ne, e)) = ap (matches_suffix s) e ∙ matches_suffix-inside s p ne
