-- ===== src/Dpi/TlsNames.antt =====
-- The loops of the TLS parser find the server name among the extensions.
use mathlib.Core.List.{append_assoc}
use packet_dpi_engine.Base.{
  ℕ, zero, suc, ◌+◌, ◌/◌, ◌%◌, ◌<◌, ◌≤◌, ◌≡◌, refl, ap, ◌∙◌, List, [], ◌∷◌, ◌++◌, some, length, min,
  drop, length-append, length-drop, arith,
}
use packet_dpi_engine.Memory.{Buffer, read_u8, read_u16_be}
use packet_dpi_engine.Memory.Views.{
  drop-drop, drop-append, read_u8-drop, copy-drop, read_u16_be-drop, drop-two, word_back,
}
use packet_dpi_engine.Dpi.Tls.{
  over, moves, sni_turn, sni_walk, server_name, extension_turn, extension_walk,
}

-- A word of two bytes in network order.
abbrev pub word : ℕ → List ℕ
word n = n / 256 ∷ n % 256 ∷ []

pub record Extension : Type 0 where
  pub ext_type : ℕ
  pub body : List ℕ

-- An extension on the wire: its type, its length and its body.
unfoldable pub encode_extension : Extension → List ℕ
encode_extension x = word x.ext_type ++ word (length x.body) ++ x.body

unfoldable pub encode_extensions : List Extension → List ℕ
encode_extensions [] = []
encode_extensions (x ∷ xs) = encode_extension x ++ encode_extensions xs

-- The server name extension with one host name.
abbrev pub server_name_extension : List ℕ → Extension
server_name_extension name = record {
  ext_type = 0;
  body = word (length name + 3) ++ (0 ∷ word (length name)) ++ name;
}

-- None of them is the server name extension.
abbrev pub AreOthers : List Extension → Type 0
AreOthers [] = Unit {0}
AreOthers (x ∷ xs) = (0 < x.ext_type) × AreOthers xs

pub read_word-drop :
    (buf : Buffer) (i n : ℕ) {ys : List ℕ} → drop i buf ≡ word n ++ ys → read_u16_be buf i ≡ some n
read_word-drop buf i n h = read_u16_be-drop buf i h ∙ ap some (word_back n)

-- Where the rest of the buffer starts with a list, the list lies in the buffer.
pub fits-drop :
    (buf : Buffer) (i : ℕ) (l r : List ℕ)
    → 0 < length l
    → drop i buf ≡ l ++ r
    → i + length l ≤ length buf
fits-drop buf i l r h at = omega (arith, h, ap length at, length-append l r, length-drop i buf)

pub past-drop :
    (buf : Buffer) (i : ℕ) (l : List ℕ) {r : List ℕ}
    → drop i buf ≡ l ++ r
    → drop (i + length l) buf ≡ r
past-drop buf i l {r} h = drop-drop buf i (length l) ∙ ap (drop (length l)) h ∙ drop-append l r

sni_turn-host_name :
    (buf : Buffer) (i e : ℕ) (name rest : List ℕ)
    → 0 < length name
    → i + 3 + length name ≤ e
    → drop i buf ≡ (0 ∷ word (length name)) ++ name ++ rest
    → sni_turn buf i e ≡ some (over (some name))
unfolding sni_turn
sni_turn-host_name buf i e name rest full within at =
    let len : drop (i + 1) buf ≡ word (length name) ++ name ++ rest =
      drop-drop buf i 1 ∙ ap (drop 1) at in
    let body : drop (i + 3) buf ≡ name ++ rest = drop-drop buf i 3 ∙ ap (drop 3) at in
    let copied = copy-drop buf (i + 3) name rest body (fits-drop buf (i + 3) name rest full body) in
    let kind : read_u8 buf i ≡ some 0 = read_u8-drop buf i at in
    let long = read_word-drop buf (i + 1) (length name) len in
    ground (arith, full, within, copied, kind, long)

server_name-found :
    (buf : Buffer) (i : ℕ) (name rest : List ℕ)
    → 0 < length name
    → drop i buf ≡ word (length name + 3) ++ (0 ∷ word (length name)) ++ name ++ rest
    → server_name buf i (length name + 5) ≡ some (some name)
unfolding server_name sni_walk
server_name-found buf i name rest full at =
    let entry : drop (i + 2) buf ≡ (0 ∷ word (length name)) ++ name ++ rest = drop-two buf i at in
    let e = min (i + (length name + 5)) (i + 2 + (length name + 3)) in
    let long = read_word-drop buf i (length name + 3) at in
    let found = sni_turn-host_name buf (i + 2) e name rest full (omega arith) entry in
    ground (arith, long, found)

extension_turn-other :
    (buf : Buffer) (i e : ℕ) (x : Extension) (rest : List ℕ)
    → 0 < x.ext_type
    → i + length (encode_extension x) ≤ e
    → drop i buf ≡ encode_extension x ++ rest
    → extension_turn buf i e ≡ some (moves (i + length (encode_extension x)))
unfolding extension_turn encode_extension
extension_turn-other buf i e x rest other within at =
    let kind = read_word-drop buf i x.ext_type at in
    let long = read_word-drop buf (i + 2) (length x.body) (drop-two buf i at) in
    let same : i + 4 + length x.body ≡ i + (4 + length x.body) = omega arith in
    ground (arith, other, within, kind, long, same)

extension_turn-server_name :
    (buf : Buffer) (i e : ℕ) (name rest : List ℕ)
    → 0 < length name
    → i + length (encode_extension (server_name_extension name)) ≤ e
    → drop i buf ≡ encode_extension (server_name_extension name) ++ rest
    → extension_turn buf i e ≡ some (over (some name))
unfolding extension_turn encode_extension
extension_turn-server_name buf i e name rest full within at =
    let kind : read_u16_be buf i ≡ some 0 = read_u16_be-drop buf i at in
    let size : length (server_name_extension name).body ≡ length name + 5 = omega arith in
    let long =
      read_word-drop buf (i + 2) (length (server_name_extension name).body) (drop-two buf i at)
      ∙ ap some size in
    let body = drop-drop buf i 4 ∙ ap (drop 4) at in
    let found = server_name-found buf (i + 4) name rest full body in
    ground (arith, full, within, kind, long, found)

pub extension_walk-found :
    (n : ℕ) (buf : Buffer) (i e : ℕ) (others : List Extension) (name rest : List ℕ)
    → length others < n
    → AreOthers others
    → 0 < length name
    → i + length (encode_extensions others ++ encode_extension (server_name_extension name)) ≤ e
    → drop i buf
      ≡ encode_extensions others ++ (encode_extension (server_name_extension name) ++ rest)
    → extension_walk n buf e i ≡ some (some name)
unfolding extension_walk encode_extensions
extension_walk-found zero buf i e others name rest h o full within at = elim h [ ]
extension_walk-found (suc n) buf i e [] name rest h o full within at =
    rw (extension_turn-server_name buf i e name rest full within at) refl
extension_walk-found (suc n) buf i e (x ∷ xs) name rest h o full within at =
    let sni = encode_extension (server_name_extension name) in
    let l = encode_extension x in
    let here : drop i buf ≡ l ++ (encode_extensions xs ++ (sni ++ rest)) =
      at ∙ append_assoc l (encode_extensions xs) (sni ++ rest) in
    let long = length-append l (encode_extensions xs ++ sni) in
    let moved = ap length (append_assoc l (encode_extensions xs) sni) in
    let turn = extension_turn-other buf i e x _ o.0 (omega (arith, within, long, moved)) here in
    rw turn (
      extension_walk-found n buf (i + length l) e xs name rest (omega (arith, h)) o.1 full
        (omega (arith, within, long, moved)) (past-drop buf i l here))
