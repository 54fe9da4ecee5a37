-- ===== src/Memory/Views.antt =====
-- What the readers return at an offset where the rest of the buffer is known.
use packet_dpi_engine.Base.{
  ℕ, zero, suc, ◌+◌, ◌-◌, ◌*◌, ◌/◌, ◌%◌, ◌<◌, ◌≤◌, ◌≡◌, refl, sym, ap, ◌∙◌, List, [], ◌∷◌, ◌++◌,
  some, length, take, drop, get_or, arith,
}
use packet_dpi_engine.Memory.{Buffer, read_u8, read_u16_be, copy}

pub drop-cons :
    (buf : Buffer) (i : ℕ) {x : ℕ} {ys : List ℕ}
    → drop i buf ≡ x ∷ ys
    → (i < length buf) × (get_or buf i 0 ≡ x) × (drop (suc i) buf ≡ ys)
drop-cons [] zero h = absurd (ground arith)
drop-cons [] (suc i) h = absurd (ground arith)
drop-cons (b ∷ bs) zero h = (omega arith, ground arith, ground arith)
drop-cons (b ∷ bs) (suc i) h =
    let later = drop-cons bs i h in (omega (arith, later.0), later.1, later.2)

pub drop-nil : (n : ℕ) → drop {A = ℕ} n [] ≡ []
drop-nil zero = refl
drop-nil (suc n) = refl

pub drop-drop : (buf : Buffer) (i k : ℕ) → drop (i + k) buf ≡ drop k (drop i buf)
drop-drop buf zero k = let e : 0 + k ≡ k = omega arith in ap (λ n. drop n buf) e
drop-drop [] (suc i) k = drop-nil (suc i + k) ∙ sym (drop-nil k)
drop-drop (b ∷ bs) (suc i) k =
    let e : suc i + k ≡ suc (i + k) = omega arith in ap (λ n. drop n (b ∷ bs)) e ∙ drop-drop bs i k

pub take-append : (l r : List ℕ) → take (length l) (l ++ r) ≡ l
take-append [] r = refl
take-append (x ∷ xs) r = ap (λ t. x ∷ t) (take-append xs r)

pub drop-append : (l r : List ℕ) → drop (length l) (l ++ r) ≡ r
drop-append [] r = refl
drop-append (x ∷ xs) r = drop-append xs r

pub read_u8-drop :
    (buf : Buffer) (i : ℕ) {x : ℕ} {ys : List ℕ} → drop i buf ≡ x ∷ ys → read_u8 buf i ≡ some x
unfolding read_u8
read_u8-drop buf i h = ground (arith, drop-cons buf i h)

pub copy-drop :
    (buf : Buffer) (i : ℕ) (l r : List ℕ)
    → drop i buf ≡ l ++ r
    → i + length l ≤ length buf
    → copy buf i (length l) ≡ some l
unfolding copy
copy-drop buf i l r h fits =
    let taken : take (length l) (drop i buf) ≡ l = ap (take (length l)) h ∙ take-append l r in
    ground (arith, taken, fits)

pub read_u16_be-drop :
    (buf : Buffer) (i : ℕ) {x y : ℕ} {ys : List ℕ}
    → drop i buf ≡ x ∷ y ∷ ys
    → read_u16_be buf i ≡ some (x * 256 + y)
unfolding read_u16_be
read_u16_be-drop buf i h =
    let one_on : i + 1 ≡ suc i = omega arith in
    let second = ap (λ n. drop n buf) one_on ∙ (drop-cons buf i h).2 in
    rw (read_u8-drop buf i h, read_u8-drop buf (i + 1) second) refl

pub drop-two :
    (buf : Buffer) (i : ℕ) {x y : ℕ} {ys : List ℕ} → drop i buf ≡ x ∷ y ∷ ys → drop (i + 2) buf ≡ ys
drop-two buf i h = drop-drop buf i 2 ∙ ap (drop 2) h

pub word_back : (n : ℕ) → n / 256 * 256 + n % 256 ≡ n
word_back n = omega arith

pub take-append-more : (a b : List ℕ) (n : ℕ) → n ≡ length a → take n (a ++ b) ≡ a
take-append-more [] b n h = rw h refl
take-append-more (x ∷ xs) b zero h = absurd (omega (arith, h))
take-append-more (x ∷ xs) b (suc n) h = ap (λ t. x ∷ t) (take-append-more xs b n (omega (arith, h)))

pub take-all {ℓ} : {A : Type ℓ} (a : List A) (n : ℕ) → length a ≤ n → take n a ≡ a
take-all [] zero h = refl
take-all [] (suc n) h = refl
take-all (x ∷ xs) zero h = absurd (omega (arith, h))
take-all (x ∷ xs) (suc n) h = ap (λ t. x ∷ t) (take-all xs n (omega (arith, h)))

pub take-append-past :
    (a b : List ℕ) (n : ℕ) → length a ≤ n → take n (a ++ b) ≡ a ++ take (n - length a) b
take-append-past [] b n h = let e : n ≡ n - 0 = omega arith in ap (λ k. take k b) e
take-append-past (x ∷ xs) b zero h = absurd (omega (arith, h))
take-append-past (x ∷ xs) b (suc n) h =
    let e : n - length xs ≡ suc n - suc (length xs) = omega arith in
    ap (λ t. x ∷ t) (take-append-past xs b n (omega (arith, h)) ∙ ap (λ k. xs ++ take k b) e)
