-- ===== src/Dpi/TlsHello.antt =====
-- A ClientHello with a server name is read back.
use packet_dpi_engine.Base.{
  ℕ, ◌+◌, ◌/◌, ◌%◌, ◌<◌, ◌≤◌, ◌≡◌, refl, sym, ap, ◌∙◌, true, List, [], ◌∷◌, ◌++◌, some, length, min,
  drop, length-append, length-drop, arith,
}
use packet_dpi_engine.Memory.{Buffer, read_u8, read_u16_be}
use packet_dpi_engine.Memory.Views.{drop-drop, drop-two, read_u8-drop, drop-cons}
use packet_dpi_engine.Dpi.Types.{TlsMetadata}
use packet_dpi_engine.Dpi.Tls.{
  read_extensions, skip_compression, skip_ciphers, skip_session, set_sni, parse_hello,
  parse_client_hello,
}
use packet_dpi_engine.Dpi.TlsNames.{
  word, Extension, encode_extension, encode_extensions, server_name_extension, AreOthers,
  read_word-drop, fits-drop, past-drop, extension_walk-found,
}

-- The parts of a ClientHello: `others` are the extensions before the server name, `more` those after.
pub record ClientHello : Type 0 where
  pub record_version : ℕ
  pub client_version : ℕ
  pub random : List ℕ
  pub session_id : List ℕ
  pub cipher_suites : List ℕ
  pub compression_methods : List ℕ
  pub others : List Extension
  pub name : List ℕ
  pub more : List Extension

unfoldable pub extensions_of : ClientHello → List ℕ
extensions_of h =
    encode_extensions h.others
    ++ (encode_extension (server_name_extension h.name) ++ encode_extensions h.more)

-- What follows the random bytes, in the order of the wire.
unfoldable pub extension_block : ClientHello → List ℕ
extension_block h = word (length (extensions_of h)) ++ extensions_of h

unfoldable pub compression_block : ClientHello → List ℕ
compression_block h = length h.compression_methods ∷ (h.compression_methods ++ extension_block h)

unfoldable pub cipher_block : ClientHello → List ℕ
cipher_block h = word (length h.cipher_suites) ++ (h.cipher_suites ++ compression_block h)

unfoldable pub session_block : ClientHello → List ℕ
session_block h = length h.session_id ∷ (h.session_id ++ cipher_block h)

unfoldable pub hello_body : ClientHello → List ℕ
hello_body h = word h.client_version ++ (h.random ++ session_block h)

-- The record with its handshake; the length of the handshake has three bytes.
unfoldable pub encode_client_hello : ClientHello → List ℕ
encode_client_hello h =
    let n = length (hello_body h) in
    0x16
    ∷ (word h.record_version
        ++ (word (n + 4) ++ (1 ∷ n / 65536 ∷ n / 256 % 256 ∷ n % 256 ∷ hello_body h)))

fewer_extensions : (xs : List Extension) → length xs ≤ length (encode_extensions xs)
unfolding encode_extensions encode_extension
fewer_extensions [] = omega arith
fewer_extensions (x ∷ xs) =
    omega (arith, fewer_extensions xs, length-append (encode_extension x) (encode_extensions xs))

read_extensions-found :
    (buf : Buffer) (i : ℕ) (h : ClientHello)
    → AreOthers h.others
    → 0 < length h.name
    → drop i buf ≡ extension_block h
    → read_extensions buf i ≡ some (some h.name)
unfolding read_extensions extension_block extensions_of
read_extensions-found buf i h others full at =
    let sni = encode_extension (server_name_extension h.name) in
    let xs = encode_extensions h.others in
    let long = read_word-drop buf i (length (extensions_of h)) at in
    let body : drop (i + 2) buf ≡ xs ++ (sni ++ encode_extensions h.more) = drop-two buf i at in
    let size = ap length body in
    let part = length-append xs (sni ++ encode_extensions h.more) in
    let part2 = length-append sni (encode_extensions h.more) in
    let head = length-append xs sni in
    let left = length-drop (i + 2) buf in
    let outer = length-drop i buf in
    let outside = ap length at in
    let few = fewer_extensions h.others in
    let found =
      extension_walk-found (length buf + 1) buf (i + 2)
        (min (length buf) (i + 2 + length (extensions_of h))) h.others h.name
        (encode_extensions h.more) (omega (arith, size, part, few, left)) others full
        (omega (arith, size, part, part2, head, left, outer, outside)) body in
    ground (arith, long, found, outer, outside)

skip_compression-found :
    (buf : Buffer) (i : ℕ) (h : ClientHello)
    → AreOthers h.others
    → 0 < length h.name
    → drop i buf ≡ compression_block h
    → skip_compression buf i ≡ some (some h.name)
unfolding skip_compression compression_block
skip_compression-found buf i h others full at =
    let one = read_u8-drop buf i at in
    let inside = (drop-cons buf i at).0 in
    let next = past-drop buf (i + 1) h.compression_methods (drop-drop buf i 1 ∙ ap (drop 1) at) in
    let found =
      read_extensions-found buf (i + 1 + length h.compression_methods) h others full next in
    ground (arith, one, inside, found)

skip_ciphers-found :
    (buf : Buffer) (i : ℕ) (h : ClientHello)
    → AreOthers h.others
    → 0 < length h.name
    → drop i buf ≡ cipher_block h
    → skip_ciphers buf i ≡ some (some h.name)
unfolding skip_ciphers cipher_block
skip_ciphers-found buf i h others full at =
    let two = read_word-drop buf i (length h.cipher_suites) at in
    let inside : i + 2 ≤ length buf =
      fits-drop buf i (word (length h.cipher_suites)) _ (omega arith) at in
    let next = past-drop buf (i + 2) h.cipher_suites (drop-two buf i at) in
    let found = skip_compression-found buf (i + 2 + length h.cipher_suites) h others full next in
    ground (arith, two, inside, found)

skip_session-found :
    (buf : Buffer) (h : ClientHello)
    → AreOthers h.others
    → 0 < length h.name
    → drop 43 buf ≡ session_block h
    → skip_session buf ≡ some (some h.name)
unfolding skip_session session_block
skip_session-found buf h others full at =
    let one = read_u8-drop buf 43 at in
    let next = past-drop buf 44 h.session_id (drop-drop buf 43 1 ∙ ap (drop 1) at) in
    let found = skip_ciphers-found buf (44 + length h.session_id) h others full next in
    rw (one, found) refl

-- The offsets of the handshake.
hello_offsets :
    (h : ClientHello)
    → let buf = encode_client_hello h in
      (read_u8 buf 0 ≡ some 0x16)
      × (read_u16_be buf 1 ≡ some h.record_version)
      × (read_u16_be buf 3 ≡ some (length (hello_body h) + 4))
      × (read_u8 buf 5 ≡ some 1)
      × (read_u16_be buf 9 ≡ some h.client_version)
      × (drop 11 buf ≡ h.random ++ session_block h)
unfolding encode_client_hello hello_body
hello_offsets h =
    let buf = encode_client_hello h in
    (
      read_u8-drop buf 0 refl,
      read_word-drop buf 1 h.record_version refl,
      read_word-drop buf 3 (length (hello_body h) + 4) refl,
      read_u8-drop buf 5 refl,
      read_word-drop buf 9 h.client_version refl,
      refl,
    )

hello_long : (h : ClientHello) → length h.random ≡ 32 → 44 ≤ length (encode_client_hello h)
unfolding encode_client_hello hello_body session_block
hello_long h r = omega (arith, r, length-append h.random (session_block h))

parse_hello-found :
    (h : ClientHello) (m : TlsMetadata)
    → length h.random ≡ 32
    → AreOthers h.others
    → 0 < length h.name
    → parse_hello (encode_client_hello h) m
      ≡ some (true, record m { client_version = h.client_version; sni = h.name; has_sni = true })
unfolding parse_hello set_sni
parse_hello-found h m r others full =
    let buf = encode_client_hello h in
    let at = hello_offsets h in
    let past : drop (11 + length h.random) buf ≡ session_block h = past-drop buf 11 h.random at.5 in
    let session : drop 43 buf ≡ session_block h = ap (λ n. drop (11 + n) buf) (sym r) ∙ past in
    let found = skip_session-found buf h others full session in
    ground (arith, hello_long h r, at, found)

-- A TLS record of version 3.0 to 3.4 with a ClientHello that has 32 random bytes, any session
-- identifier, cipher suites and compression methods, and a server name extension with one nonempty
-- host name among any other extensions before and after it, is accepted, and the parser gets back
-- both versions and the host name.
pub parse_client_hello-encode_client_hello :
    (h : ClientHello) (m : TlsMetadata)
    → 0x0300 ≤ h.record_version
    → h.record_version ≤ 0x0304
    → length h.random ≡ 32
    → AreOthers h.others
    → 0 < length h.name
    → parse_client_hello (encode_client_hello h) m
      ≡ some (
        true,
        record m {
          legacy_version = h.record_version;
          client_version = h.client_version;
          sni = h.name;
          has_sni = true;
        },
      )
unfolding parse_client_hello
parse_client_hello-encode_client_hello h m low high r others full =
    let at = hello_offsets h in
    let m' : TlsMetadata = record m { legacy_version = h.record_version } in
    ground (arith, low, high, at, hello_long h r, parse_hello-found h m' r others full)
