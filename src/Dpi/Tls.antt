-- ===== src/Dpi/Tls.antt =====
-- `TlsParser::parse_client_hello` of src/dpi/tls_parser.cpp.
use packet_dpi_engine.Base.{
  ℕ, zero, suc, ◌+◌, Bool, true, false, List, [], Option, none, some, ◌==◌, ltb, ◌&&◌, ◌||◌, not,
  if◌then◌else◌, length, min,
}
use packet_dpi_engine.Memory.{Buffer, ◌>>=◌, read_u8, read_u16_be, copy}
use packet_dpi_engine.Dpi.Types.{TlsMetadata}

-- How a turn of one of the two loops ends: the search is over, with the server name if there is one,
-- or the loop goes on at an offset.
pub data Search : Type 0 where
  over : Option (List ℕ) → Search
  moves : ℕ → Search

-- What follows a turn, with the next turns given.
abbrev pub after_search : (ℕ → Option (Option (List ℕ))) → Option Search → Option (Option (List ℕ))
after_search walk none = none
after_search walk (some (over name)) = some name
after_search walk (some (moves i)) = walk i

-- A turn of the loop over the server names, from `sni_offset` to `sni_end`; none is a read outside.
unfoldable pub sni_turn : Buffer → ℕ → ℕ → Option Search
sni_turn buf i sni_end = if ltb sni_end (i + 3) then some (over none) else do
  name_type ← read_u8 buf i
  name_len ← read_u16_be buf (i + 1)
  if ltb sni_end (i + 3 + name_len)
      then some (over none)
      else if name_type == 0 && ltb 0 name_len
      then (do name ← copy buf (i + 3) name_len; some (over (some name)))
      else some (moves (i + 3 + name_len))

-- The loop on fuel: none is a read outside, or fuel that ran out.
unfoldable pub sni_walk : ℕ → Buffer → ℕ → ℕ → Option (Option (List ℕ))
sni_walk zero buf sni_end i = none
sni_walk (suc n) buf sni_end i =
    after_search (λ j. sni_walk n buf sni_end j) (sni_turn buf i sni_end)

-- The body of a server name extension at `i`.
unfoldable pub server_name : Buffer → ℕ → ℕ → Option (Option (List ℕ))
server_name buf i ext_len = if ltb ext_len 2 then some none else do
  list_len ← read_u16_be buf i
  sni_walk (length buf + 1) buf (min (i + ext_len) (i + 2 + list_len)) (i + 2)

-- A turn of the loop over the extensions.
unfoldable pub extension_turn : Buffer → ℕ → ℕ → Option Search
extension_turn buf i extensions_end = if ltb extensions_end (i + 4) then some (over none) else do
  ext_type ← read_u16_be buf i
  ext_len ← read_u16_be buf (i + 2)
  if ltb extensions_end (i + 4 + ext_len)
      then some (over none)
      else if ext_type == 0
      then (do name ← server_name buf (i + 4) ext_len; some (over name))
      else some (moves (i + 4 + ext_len))

unfoldable pub extension_walk : ℕ → Buffer → ℕ → ℕ → Option (Option (List ℕ))
extension_walk zero buf extensions_end i = none
extension_walk (suc n) buf extensions_end i =
    after_search (λ j. extension_walk n buf extensions_end j) (extension_turn buf i extensions_end)

-- The length of the extensions at `i`, and the extensions.
unfoldable pub read_extensions : Buffer → ℕ → Option (Option (List ℕ))
read_extensions buf i = if ltb (length buf) (i + 2) then some none else do
  extensions_len ← read_u16_be buf i
  extension_walk (length buf + 1) buf (min (length buf) (i + 2 + extensions_len)) (i + 2)

-- From the compression methods at `i` on.
unfoldable pub skip_compression : Buffer → ℕ → Option (Option (List ℕ))
skip_compression buf i =
    if ltb (length buf) (i + 1)
    then some none
    else do comp_methods_len ← read_u8 buf i; read_extensions buf (i + 1 + comp_methods_len)

-- From the cipher suites at `i` on.
unfoldable pub skip_ciphers : Buffer → ℕ → Option (Option (List ℕ))
skip_ciphers buf i =
    if ltb (length buf) (i + 2)
    then some none
    else do cipher_suites_len ← read_u16_be buf i; skip_compression buf (i + 2 + cipher_suites_len)

-- From the session identifier on, at offset 43 behind the random bytes.
unfoldable pub skip_session : Buffer → Option (Option (List ℕ))
skip_session buf = do session_id_len ← read_u8 buf 43; skip_ciphers buf (44 + session_id_len)

unfoldable pub set_sni : TlsMetadata → Option (List ℕ) → TlsMetadata
set_sni m none = m
set_sni m (some name) = record m { sni = name; has_sni = true }

-- The handshake behind the record header.
unfoldable pub parse_hello : Buffer → TlsMetadata → Option (Bool × TlsMetadata)
parse_hello buf m = if ltb (length buf) 9 then some (false, m) else do
  handshake_type ← read_u8 buf 5
  if not (handshake_type == 1)
      then some (false, m)
      else if ltb (length buf) 44
      then some (false, m)
      else do
        client_version ← read_u16_be buf 9
        name ← skip_session buf
        some (
          true,
          set_sni (record m { client_version = client_version; has_sni = false; sni = [] }) name,
        )

-- `parse_client_hello`, with what it leaves in `out_meta`.
unfoldable pub parse_client_hello : Buffer → TlsMetadata → Option (Bool × TlsMetadata)
parse_client_hello buf m = if ltb (length buf) 5 then some (false, m) else do
  content_type ← read_u8 buf 0
  if not (content_type == 0x16) then some (false, m) else do
    record_version ← read_u16_be buf 1
    if ltb record_version 0x0300 || ltb 0x0304 record_version then some (false, m) else do
      record_len ← read_u16_be buf 3
      let m' = record m { legacy_version = record_version }
      if record_len == 0 then some (false, m') else parse_hello buf m'
