-- ===== src/Dpi/Http.antt =====
-- `HttpParser::parse_request` of src/dpi/http_parser.cpp.
use packet_dpi_engine.Base.{
  ℕ, suc, ◌+◌, ◌-◌, ◌%◌, ◌^◌, Bool, true, false, List, [], ◌∷◌, Option, none, some, ◌==◌, ltb, leb,
  ◌&&◌, ◌||◌, not, if◌then◌else◌, length, min, take, drop,
}
use packet_dpi_engine.Memory.{◌>>=◌}
use packet_dpi_engine.Text.{Text, text_eq, cut, split, to_lower}
use packet_dpi_engine.Protocols.Types.{is_empty}
use packet_dpi_engine.Dpi.Types.{HttpMetadata}

-- The loop of `equals_ci`.
abbrev pub same_lower : Text → Text → Bool
same_lower (x ∷ xs) (y ∷ ys) =
    let rest = same_lower xs ys in if not (to_lower x == to_lower y) then false else rest
same_lower _ _ = true

unfoldable pub equals_ci : Text → Text → Bool
equals_ci a b = if not (length a == length b) then false else same_lower a b

-- The methods, each with the space behind it.
abbrev pub methods : List Text
methods =
    (b'G' ∷ b'E' ∷ b'T' ∷ 32 ∷ [])
    ∷ (b'P' ∷ b'O' ∷ b'S' ∷ b'T' ∷ 32 ∷ [])
    ∷ (b'H' ∷ b'E' ∷ b'A' ∷ b'D' ∷ 32 ∷ [])
    ∷ (b'P' ∷ b'U' ∷ b'T' ∷ 32 ∷ [])
    ∷ (b'D' ∷ b'E' ∷ b'L' ∷ b'E' ∷ b'T' ∷ b'E' ∷ 32 ∷ [])
    ∷ (b'O' ∷ b'P' ∷ b'T' ∷ b'I' ∷ b'O' ∷ b'N' ∷ b'S' ∷ 32 ∷ [])
    ∷ (b'P' ∷ b'A' ∷ b'T' ∷ b'C' ∷ b'H' ∷ 32 ∷ [])
    ∷ (b'C' ∷ b'O' ∷ b'N' ∷ b'N' ∷ b'E' ∷ b'C' ∷ b'T' ∷ 32 ∷ [])
    ∷ (b'T' ∷ b'R' ∷ b'A' ∷ b'C' ∷ b'E' ∷ 32 ∷ [])
    ∷ []

-- `payload.size() >= len && payload.substr(0, len) == m`.
unfoldable pub has_prefix : Text → Text → Bool
unfolding text_eq
has_prefix m payload = leb (length m) (length payload) && text_eq (take (length m) payload) m

-- The first method that the payload starts with.
unfoldable pub match_method : List Text → Text → Option Text
match_method [] payload = none
match_method (m ∷ ms) payload =
    let rest = match_method ms payload in if has_prefix m payload then some m else rest

-- `back() == '\r'` and `remove_suffix(1)`.
unfoldable pub strip_cr : Text → Text
strip_cr [] = []
strip_cr (x ∷ []) = if x == 13 then [] else x ∷ []
strip_cr (x ∷ y ∷ ys) = x ∷ strip_cr (y ∷ ys)

-- `find` and `rfind` of a character.
unfoldable pub find_char : ℕ → Text → Option ℕ
find_char c [] = none
find_char c (x ∷ xs) =
    let rest = find_char c xs in if x == c then some 0 else (do i ← rest; some (suc i))

unfoldable pub rfind_char : ℕ → Text → Option ℕ
rfind_char c [] = none
rfind_char c (x ∷ xs) = elim (rfind_char c xs) [
  | some i ↦ some (suc i)
  | none ↦ if x == c then some 0 else none
]

-- The URI and the version of a request line.
unfoldable pub request_parts : Text → Option (Text × Text)
request_parts line = do
  first_space ← find_char 32 line
  second_space ← rfind_char 32 line
  if leb second_space first_space
      then none
      else some (
        take (second_space - first_space - 1) (drop (first_space + 1) line),
        drop (second_space + 1) line,
      )

abbrev pub http_1_1 : Text
http_1_1 = b'H' ∷ b'T' ∷ b'T' ∷ b'P' ∷ b'/' ∷ b'1' ∷ b'.' ∷ b'1' ∷ []

abbrev pub http_1_0 : Text
http_1_0 = b'H' ∷ b'T' ∷ b'T' ∷ b'P' ∷ b'/' ∷ b'1' ∷ b'.' ∷ b'0' ∷ []

abbrev pub text_host : Text
text_host = b'H' ∷ b'o' ∷ b's' ∷ b't' ∷ []

abbrev pub is_space_or_tab : ℕ → Bool
is_space_or_tab c = c == 32 || c == 9

-- The loops that trim blanks.
unfoldable pub trim_leading : Text → Text
trim_leading [] = []
trim_leading (x ∷ xs) = let rest = trim_leading xs in if is_space_or_tab x then rest else x ∷ xs

unfoldable pub trim_trailing : Text → Text
trim_trailing [] = []
trim_trailing (x ∷ xs) =
    let rest = trim_trailing xs in if is_space_or_tab x && is_empty rest then [] else x ∷ rest

-- The host in a header value, without its port.
unfoldable pub host_value : Text → Text
host_value value = (cut 58 (trim_trailing (trim_leading value))).0

-- The host that a header names, if it is not empty.
unfoldable pub host_in : Text → Option Text → Option Text
host_in name none = none
host_in name (some value) =
    if equals_ci name text_host && not (is_empty (host_value value))
    then some (host_value value)
    else none

unfoldable pub host_of : Text → Option Text
host_of line = host_in (cut 58 line).0 (cut 58 line).1

-- The loop over the lines of the headers: the host, and `headers_ended`.
unfoldable pub scan_headers : List Text → Option Text × Bool
scan_headers [] = (none, false)
scan_headers (l ∷ ls) =
    let rest = scan_headers ls in
    let line = strip_cr l in
    if is_empty line
    then (none, true)
    else elim (host_of line) [ some host ↦ (some host, false) | none ↦ rest ]

-- A difference of two values of `size_t`.
abbrev pub size_t_minus : ℕ → ℕ → ℕ
size_t_minus a b = (a + 2 ^ 64 - b) % 2 ^ 64

-- The part of the payload behind the request line that is scanned; `substr` stops at the end.
unfoldable pub headers_section : Text → ℕ → Text
headers_section payload headers_start =
    take (size_t_minus (min (length payload) 4096) headers_start) (drop headers_start payload)

unfoldable pub finish_request : HttpMetadata → Option Text × Bool → Bool × HttpMetadata
finish_request m (some host, ended) = (true, record m { host = host; has_host = true })
finish_request m (none, ended) = (if m.has_host then true else ended, m)

-- From the request line on, with the position of its end.
unfoldable pub parse_lines : Text → Text → HttpMetadata → ℕ → Bool × HttpMetadata
parse_lines payload method m req_line_end =
    elim (request_parts (strip_cr (take req_line_end payload))) [
      | none ↦ (false, m)
      | some (uri, version) ↦
          if not (text_eq version http_1_1) && not (text_eq version http_1_0)
          then (false, m)
          else finish_request
              (record {
                method = method;
                uri = uri;
                version = version;
                host = [];
                has_host = false;
              })
              (scan_headers (split 10 (headers_section payload (req_line_end + 1))))
    ]

-- `parse_request`, with what it leaves in `out_meta`.
unfoldable pub parse_request : Text → HttpMetadata → Bool × HttpMetadata
parse_request payload m =
    if ltb (length payload) 10 then (false, m) else elim (match_method methods payload) [
      | none ↦ (false, m)
      | some matched ↦ elim (find_char 10 payload) [
        | none ↦ (false, m)
        | some req_line_end ↦ parse_lines payload (take (length matched - 1) matched) m req_line_end
      ]
    ]
