-- ===== src/Base/Slices.antt =====
-- Parts of a list and their elements.
use Prim.Native.Nat.{ℕ, zero, suc, ◌<◌}
use mathlib.Core.Path.{◌≡◌, refl}
use mathlib.Core.Option.{some}
use mathlib.Core.List.{List, [], ◌∷◌, ◌++◌}
use native.Mathlib.Omega.{arith}
use packet_dpi_engine.Base.Lists.{length, get_elem?, drop}

module _ {ℓ} {A : Type ℓ} where
  pub get_elem?-append_left :
      (xs ys : List A) (i : ℕ) → i < length xs → get_elem? (xs ++ ys) i ≡ get_elem? xs i
  get_elem?-append_left [] ys i h = elim h [ ]
  get_elem?-append_left (x ∷ xs) ys zero h = refl
  get_elem?-append_left (x ∷ xs) ys (suc i) h = get_elem?-append_left xs ys i (omega (arith, h))

  pub get_elem?-append_last :
      (xs : List A) (x : A) (i : ℕ) → i ≡ length xs → get_elem? (xs ++ (x ∷ [])) i ≡ some x
  get_elem?-append_last [] x i h = rw h refl
  get_elem?-append_last (y ∷ ys) x zero h = absurd (omega (arith, h))
  get_elem?-append_last (y ∷ ys) x (suc i) h = get_elem?-append_last ys x i (omega (arith, h))

  pub get_elem?-drop_one : (xs : List A) (i : ℕ) → get_elem? (drop 1 xs) i ≡ get_elem? xs (suc i)
  get_elem?-drop_one [] i = refl
  get_elem?-drop_one (x ∷ xs) i = refl

  pub drop-get_elem? :
      (xs : List A) (i : ℕ)
      → i < length xs
      → (a : A) × (get_elem? xs i ≡ some a) × (drop i xs ≡ a ∷ drop (suc i) xs)
  drop-get_elem? [] i h = elim h [ ]
  drop-get_elem? (x ∷ xs) zero h = (x, refl, refl)
  drop-get_elem? (x ∷ xs) (suc i) h = drop-get_elem? xs i (omega (arith, h))

  pub drop-length : (xs : List A) (i : ℕ) → i ≡ length xs → drop i xs ≡ []
  drop-length [] i h = rw h refl
  drop-length (x ∷ xs) zero h = absurd (omega (arith, h))
  drop-length (x ∷ xs) (suc i) h = drop-length xs i (omega (arith, h))
