-- ===== src/Memory.antt =====
-- Byte buffers and the readers of include/dpi/protocols/protocol_types.h. A pointer into a buffer is
-- the buffer with an offset. A read outside the buffer, which the C++ leaves undefined, is `none`.
pub mod Views
use packet_dpi_engine.Base.{
  ℕ, zero, suc, ◌+◌, ◌*◌, ◌/◌, ◌%◌, ◌≤◌, ◌<◌, ◌^◌, ◌≡◌, ◌≢◌, Bool, List, [], ◌∷◌, Option, none,
  some, arith, ltb, if◌then◌else◌, length, get_or, take, drop, ◌==◌, zero, suc, [], ◌∷◌, ◌≡◌,
  length-take, length-drop,
}

-- The bytes that were captured; each is below 256.
abbrev pub Buffer : Type 0
Buffer = List ℕ

infixl 5 ◌>>=◌
abbrev pub ◌>>=◌ {ℓ κ} : {A : Type ℓ} {B : Type κ} → Option A → (A → Option B) → Option B
none >>= f = none
some a >>= f = f a

unfoldable pub read_u8 : Buffer → ℕ → Option ℕ
read_u8 buf i = if ltb i (length buf) then some (get_or buf i 0) else none

unfoldable pub read_u16_be : Buffer → ℕ → Option ℕ
read_u16_be buf i = do hi ← read_u8 buf i; lo ← read_u8 buf (i + 1); some (hi * 256 + lo)

unfoldable pub read_u32_be : Buffer → ℕ → Option ℕ
read_u32_be buf i = do
  b0 ← read_u8 buf i
  b1 ← read_u8 buf (i + 1)
  b2 ← read_u8 buf (i + 2)
  b3 ← read_u8 buf (i + 3)
  some (b0 * 16777216 + b1 * 65536 + b2 * 256 + b3)

-- `memcpy` of `n` bytes out of the buffer, and the `string_view` over them.
unfoldable pub copy : Buffer → ℕ → ℕ → Option (List ℕ)
copy buf i n = if ltb (length buf) (i + n) then none else some (take n (drop i buf))

-- Bit `k` of a word.
abbrev pub bit : ℕ → ℕ → Bool
bit w k = w / 2 ^ k % 2 == 1

pub read_u8-some : (buf : Buffer) (i : ℕ) → i < length buf → read_u8 buf i ≢ none
unfolding read_u8
read_u8-some buf i h = ground arith

pub read_u16_be-some : (buf : Buffer) (i : ℕ) → i + 1 < length buf → read_u16_be buf i ≢ none
unfolding read_u16_be
read_u16_be-some buf i h = ground (arith, read_u8-some buf i, read_u8-some buf (i + 1))

pub read_u32_be-some : (buf : Buffer) (i : ℕ) → i + 3 < length buf → read_u32_be buf i ≢ none
unfolding read_u32_be
read_u32_be-some buf i h = ground (
  arith,
  read_u8-some buf i,
  read_u8-some buf (i + 1),
  read_u8-some buf (i + 2),
  read_u8-some buf (i + 3),
)

pub copy-some : (buf : Buffer) (i n : ℕ) → i + n ≤ length buf → copy buf i n ≢ none
unfolding copy
copy-some buf i n h = ground arith

pub copy-length : (buf : Buffer) (i n : ℕ) {xs : List ℕ} → copy buf i n ≡ some xs → length xs ≡ n
unfolding copy
copy-length buf i n h = ground (arith, length-take n (drop i buf), length-drop i buf)

-- A buffer of `uint8_t`.
abbrev pub AllBytes : Buffer → Type 0
AllBytes [] = Unit {0}
AllBytes (b ∷ bs) = (b < 256) × AllBytes bs

get_or-lt : (buf : Buffer) (i : ℕ) → AllBytes buf → get_or buf i 0 < 256
get_or-lt [] i h = omega arith
get_or-lt (b ∷ bs) zero h = h.0
get_or-lt (b ∷ bs) (suc i) h = get_or-lt bs i h.1

-- The top four bits of a byte need no mask.
pub read_u8-nibble :
    (buf : Buffer) (i : ℕ) {v : ℕ}
    → AllBytes buf
    → read_u8 buf i >>= (λ b. some (b / 16 % 16)) ≡ some v
    → read_u8 buf i >>= (λ b. some (b / 16)) ≡ some v
unfolding read_u8
read_u8-nibble buf i h e = ground (arith, get_or-lt buf i h)

-- The top four bits of a big-endian word are those of its first byte.
pub read_u32_be-nibble :
    (buf : Buffer) (i : ℕ) {v : ℕ}
    → AllBytes buf
    → read_u32_be buf i >>= (λ w. some (w / 268435456 % 16)) ≡ some v
    → read_u8 buf i >>= (λ b. some (b / 16)) ≡ some v
unfolding read_u32_be read_u8
read_u32_be-nibble buf i h e = ground (
  arith,
  get_or-lt buf i h,
  get_or-lt buf (i + 1) h,
  get_or-lt buf (i + 2) h,
  get_or-lt buf (i + 3) h,
)
