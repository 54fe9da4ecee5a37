-- ===== src/Dpi/TlsLaws.antt =====
-- The loops of the TLS parser end and read inside the payload.
use packet_dpi_engine.Base.{
  ℕ, zero, suc, ◌+◌, ◌<◌, ◌≤◌, ◌≡◌, ◌≢◌, refl, List, Option, none, some, length, arith,
}
use packet_dpi_engine.Memory.{Buffer, read_u8-some, read_u16_be-some, copy-some}
use packet_dpi_engine.Dpi.Types.{TlsMetadata}
use packet_dpi_engine.Dpi.Tls.{
  Search, over, moves, after_search, sni_turn, sni_walk, server_name, extension_turn,
  extension_walk, read_extensions, skip_compression, skip_ciphers, skip_session, parse_hello,
  parse_client_hello,
}

sni_turn-ne-none : (buf : Buffer) (i e : ℕ) → e ≤ length buf → sni_turn buf i e ≢ none
unfolding sni_turn
sni_turn-ne-none buf i e h =
    grind (arith, read_u8-some buf i, read_u16_be-some buf (i + 1), copy-some buf (i + 3))

sni_turn_advances :
    (buf : Buffer) (i e : ℕ) {j : ℕ} → sni_turn buf i e ≡ some (moves j) → (i < j) × (j ≤ e)
unfolding sni_turn
sni_turn_advances buf i e h = ground arith

-- A loop whose turns all succeed and advance ends, on fuel for the bytes that are left.
walk-ne-none :
    (e i n : ℕ) (walk : ℕ → Option (Option (List ℕ))) (turn : Option Search)
    → turn ≢ none
    → ((j : ℕ) → turn ≡ some (moves j) → (i < j) × (j ≤ e))
    → ((j : ℕ) → j ≤ e → e < j + n → walk j ≢ none)
    → e < i + suc n
    → after_search walk turn ≢ none
walk-ne-none e i n walk none some_turn further again h = absurd (some_turn refl)
walk-ne-none e i n walk (some (over name)) some_turn further again h = λ q. cc
walk-ne-none e i n walk (some (moves j)) some_turn further again h =
    let (ahead, within) = further j refl in again j within (omega (arith, ahead, h))

sni_walk-ne-none :
    (n : ℕ) (buf : Buffer) (e i : ℕ)
    → e ≤ length buf
    → i ≤ e
    → e < i + n
    → sni_walk n buf e i ≢ none
unfolding sni_walk
sni_walk-ne-none zero buf e i inside before h = absurd (omega (arith, before, h))
sni_walk-ne-none (suc n) buf e i inside before h =
    walk-ne-none e i n (λ j. sni_walk n buf e j) (sni_turn buf i e)
      (sni_turn-ne-none buf i e inside) (λ j moved. sni_turn_advances buf i e moved)
      (λ j within fuel. sni_walk-ne-none n buf e j inside within fuel) h

server_name-ne-none : (buf : Buffer) (i n : ℕ) → i + n ≤ length buf → server_name buf i n ≢ none
unfolding server_name
server_name-ne-none buf i n h =
    grind (arith, read_u16_be-some buf i, sni_walk-ne-none (length buf + 1) buf)

extension_turn-ne-none : (buf : Buffer) (i e : ℕ) → e ≤ length buf → extension_turn buf i e ≢ none
unfolding extension_turn
extension_turn-ne-none buf i e h =
    grind
      (arith, read_u16_be-some buf i, read_u16_be-some buf (i + 2), server_name-ne-none buf (i + 4))

extension_turn_advances :
    (buf : Buffer) (i e : ℕ) {j : ℕ} → extension_turn buf i e ≡ some (moves j) → (i < j) × (j ≤ e)
unfolding extension_turn
extension_turn_advances buf i e h = ground arith

extension_walk-ne-none :
    (n : ℕ) (buf : Buffer) (e i : ℕ)
    → e ≤ length buf
    → i ≤ e
    → e < i + n
    → extension_walk n buf e i ≢ none
unfolding extension_walk
extension_walk-ne-none zero buf e i inside before h = absurd (omega (arith, before, h))
extension_walk-ne-none (suc n) buf e i inside before h =
    walk-ne-none e i n (λ j. extension_walk n buf e j) (extension_turn buf i e)
      (extension_turn-ne-none buf i e inside) (λ j moved. extension_turn_advances buf i e moved)
      (λ j within fuel. extension_walk-ne-none n buf e j inside within fuel) h

read_extensions-ne-none : (buf : Buffer) (i : ℕ) → read_extensions buf i ≢ none
unfolding read_extensions
read_extensions-ne-none buf i =
    grind (arith, read_u16_be-some buf i, extension_walk-ne-none (length buf + 1) buf)

skip_compression-ne-none : (buf : Buffer) (i : ℕ) → skip_compression buf i ≢ none
unfolding skip_compression
skip_compression-ne-none buf i = grind (arith, read_u8-some buf i, read_extensions-ne-none buf)

skip_ciphers-ne-none : (buf : Buffer) (i : ℕ) → skip_ciphers buf i ≢ none
unfolding skip_ciphers
skip_ciphers-ne-none buf i = grind (arith, read_u16_be-some buf i, skip_compression-ne-none buf)

skip_session-ne-none : (buf : Buffer) → 44 ≤ length buf → skip_session buf ≢ none
unfolding skip_session
skip_session-ne-none buf h = grind (arith, h, read_u8-some buf 43, skip_ciphers-ne-none buf)

parse_hello-ne-none : (buf : Buffer) (m : TlsMetadata) → parse_hello buf m ≢ none
unfolding parse_hello
parse_hello-ne-none buf m =
    grind (arith, read_u8-some buf 5, read_u16_be-some buf 9, skip_session-ne-none buf)

-- On any payload, whatever lengths it announces, the TLS parser ends and reads nothing outside the
-- payload: each of its loops makes at most one turn for each byte and one more.
pub parse_client_hello-ne-none : (buf : Buffer) (m : TlsMetadata) → parse_client_hello buf m ≢ none
unfolding parse_client_hello
parse_client_hello-ne-none buf m = grind (
  arith,
  read_u8-some buf 0,
  read_u16_be-some buf 1,
  read_u16_be-some buf 3,
  parse_hello-ne-none buf,
)
