-- ===== src/Threat/Recent.antt =====
-- The most recent items of a sequence, one step at a time and at once.
use mathlib.Core.List.{append-nil, append_assoc}
use packet_dpi_engine.Base.{
  ℕ, suc, ◌+◌, ◌-◌, ◌<◌, ◌≤◌, ◌≡◌, refl, ap, ◌∙◌, List, [], ◌∷◌, ◌++◌, ltb, if◌then◌else◌, length,
  drop, arith, length-append, Bool-cases, inl, inr,
}

module _ {ℓ} {A : Type ℓ} where
  -- One more alert, and the oldest one gone if there are `n` already.
  unfoldable pub keep : ℕ → List A → A → List A
  keep n xs x = if ltb (length xs) n then xs ++ (x ∷ []) else drop 1 xs ++ (x ∷ [])

  unfoldable pub keep_all : ℕ → List A → List A → List A
  unfolding keep
  keep_all n live [] = live
  keep_all n live (x ∷ xs) = keep_all n (keep n live x) xs

  keep_all-full :
      (n : ℕ) (y : A) (ys live' xs : List A) (x : A)
      → length (y ∷ ys) ≡ n
      → live' ≡ ys ++ (x ∷ [])
      → drop (length live' + length xs - n) (live' ++ xs)
        ≡ drop (length (y ∷ ys) + length (x ∷ xs) - n) ((y ∷ ys) ++ (x ∷ xs))
  keep_all-full n y ys live' xs x e q =
      let before : length live' + length xs - n ≡ length xs =
        omega (arith, e, ap length q, length-append ys (x ∷ [])) in
      let after : length (y ∷ ys) + length (x ∷ xs) - n ≡ suc (length xs) = omega (arith, e) in
      rw (before, after, q) (ap (drop (length xs)) (append_assoc ys (x ∷ []) xs))

  pub keep_all-drop :
      (n : ℕ) (live xs : List A)
      → 0 < n
      → length live ≤ n
      → keep_all n live xs ≡ drop (length live + length xs - n) (live ++ xs)
  unfolding keep_all keep
  keep_all-drop n live [] pos h =
      let none_gone : length live + 0 - n ≡ 0 = omega (arith, h) in
      rw (append-nil live, none_gone) refl
  keep_all-drop n live (x ∷ xs) pos h = elim (Bool-cases (ltb (length live) n)) [
    | inl room ↦
        let ih =
          keep_all-drop n (live ++ (x ∷ [])) xs pos (ground (arith, length-append live (x ∷ []))) in
        rw (room, ih, append_assoc live (x ∷ []) xs)
          (ap (λ k. drop k (live ++ (x ∷ xs))) (omega (arith, length-append live (x ∷ []))))
    | inr full ↦
        rw full (slide live (ground arith) (λ live' fits. keep_all-drop n live' xs pos fits))
  ]
    where
      slide :
          (live : List A)
          → length live ≡ n
          → ((live' : List A)
              → length live' ≤ n
              → keep_all n live' xs ≡ drop (length live' + length xs - n) (live' ++ xs))
          → keep_all n (drop 1 live ++ (x ∷ [])) xs
            ≡ drop (length live + length (x ∷ xs) - n) (live ++ (x ∷ xs))
      slide [] e ih = absurd (omega (arith, e, pos))
      slide (y ∷ ys) e ih =
          ih (ys ++ (x ∷ [])) (omega (arith, e, length-append ys (x ∷ [])))
          ∙ keep_all-full n y ys (ys ++ (x ∷ [])) xs x e refl
