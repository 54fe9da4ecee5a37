-- ===== src/Dpi/HttpRequest.antt =====
-- A request with a Host header is read back.
use mathlib.Core.List.{append_assoc}
use packet_dpi_engine.Base.{
  ℕ, suc, ◌+◌, ◌-◌, ◌<◌, ◌≤◌, ◌≡◌, sym, ap, ◌∙◌, Bool, true, false, List, [], ◌∷◌, ◌++◌, Option,
  none, some, length, take, drop, replicate, arith, length-append,
}
use packet_dpi_engine.Memory.Views.{drop-append, take-append, drop-drop}
use packet_dpi_engine.Text.{Text, text_eq}
use packet_dpi_engine.Dpi.Http.{
  equals_ci, methods, has_prefix, match_method, rfind_char, request_parts, http_1_1, http_1_0,
  text_host,
}
use packet_dpi_engine.Dpi.HttpTexts.{Lacks, LacksBlanks, find_char-append, rfind_char-append}

pub data HttpMethod : Type 0 where
  get post head put delete options patch connect trace : HttpMethod

unfoldable pub method_name : HttpMethod → Text
method_name get = b'G' ∷ b'E' ∷ b'T' ∷ []
method_name post = b'P' ∷ b'O' ∷ b'S' ∷ b'T' ∷ []
method_name head = b'H' ∷ b'E' ∷ b'A' ∷ b'D' ∷ []
method_name put = b'P' ∷ b'U' ∷ b'T' ∷ []
method_name delete = b'D' ∷ b'E' ∷ b'L' ∷ b'E' ∷ b'T' ∷ b'E' ∷ []
method_name options = b'O' ∷ b'P' ∷ b'T' ∷ b'I' ∷ b'O' ∷ b'N' ∷ b'S' ∷ []
method_name patch = b'P' ∷ b'A' ∷ b'T' ∷ b'C' ∷ b'H' ∷ []
method_name connect = b'C' ∷ b'O' ∷ b'N' ∷ b'N' ∷ b'E' ∷ b'C' ∷ b'T' ∷ []
method_name trace = b'T' ∷ b'R' ∷ b'A' ∷ b'C' ∷ b'E' ∷ []

pub match_method-name :
    (m : HttpMethod) (t : Text)
    → match_method methods (method_name m ++ (32 ∷ t)) ≡ some (method_name m ++ (32 ∷ []))
unfolding match_method has_prefix text_eq method_name
match_method-name get t = ground arith
match_method-name post t = ground arith
match_method-name head t = ground arith
match_method-name put t = ground arith
match_method-name delete t = ground arith
match_method-name options t = ground arith
match_method-name patch t = ground arith
match_method-name connect t = ground arith
match_method-name trace t = ground arith

pub method_name_plain : (m : HttpMethod) → Lacks 32 (method_name m) × Lacks 10 (method_name m)
unfolding method_name
method_name_plain get = ground arith
method_name_plain post = ground arith
method_name_plain head = ground arith
method_name_plain put = ground arith
method_name_plain delete = ground arith
method_name_plain options = ground arith
method_name_plain patch = ground arith
method_name_plain connect = ground arith
method_name_plain trace = ground arith

pub method_long : (m : HttpMethod) → 3 ≤ length (method_name m)
unfolding method_name
method_long get = omega arith
method_long post = omega arith
method_long head = omega arith
method_long put = omega arith
method_long delete = omega arith
method_long options = omega arith
method_long patch = omega arith
method_long connect = omega arith
method_long trace = omega arith

pub request_parts-line :
    (name uri version : Text)
    → Lacks 32 name
    → Lacks 32 version
    → request_parts (name ++ (32 ∷ (uri ++ (32 ∷ version)))) ≡ some (uri, version)
unfolding request_parts
request_parts-line name uri version n v =
    let line = name ++ (32 ∷ (uri ++ (32 ∷ version))) in
    let again = append_assoc name (32 ∷ uri) (32 ∷ version) in
    let first = find_char-append 32 name (uri ++ (32 ∷ version)) n in
    let second : rfind_char 32 line ≡ some (length name + suc (length uri)) =
      ap (rfind_char 32) (sym again)
      ∙ rfind_char-append 32 (name ++ (32 ∷ uri)) version v
      ∙ ap some (length-append name (32 ∷ uri)) in
    let behind : drop (length name + 1) line ≡ uri ++ (32 ∷ version) =
      drop-drop line (length name) 1 ∙ ap (drop 1) (drop-append name _) in
    let gap : length name + suc (length uri) - length name - 1 ≡ length uri = omega arith in
    let taken : take (length name + suc (length uri) - length name - 1)
          (drop (length name + 1) line)
        ≡ uri =
      ap (λ k. take k (drop (length name + 1) line)) gap
      ∙ ap (take (length uri)) behind
      ∙ take-append uri (32 ∷ version) in
    let far : length name + suc (length uri) + 1 ≡ length name + 1 + (length uri + 1) =
      omega arith in
    let rest : drop (length name + suc (length uri) + 1) line ≡ version =
      ap (λ k. drop k line) far
      ∙ drop-drop line (length name + 1) (length uri + 1)
      ∙ ap (drop (length uri + 1)) behind
      ∙ drop-drop (uri ++ (32 ∷ version)) (length uri) 1
      ∙ ap (drop 1) (drop-append uri (32 ∷ version)) in
    ground (arith, first, second, taken, rest)

-- A line with its end.
abbrev pub line_of : Text → Text → Text
line_of line rest = (line ++ (13 ∷ [])) ++ (10 ∷ rest)

pub record Header : Type 0 where
  pub name : Text
  pub value : Text

abbrev pub header_text : Header → Text
header_text h = h.name ++ (58 ∷ h.value)

unfoldable pub header_lines : List Header → Text → Text
header_lines [] rest = rest
header_lines (h ∷ hs) rest = line_of (header_text h) (header_lines hs rest)

-- Headers of one line, none of which is the host.
abbrev pub AreOtherHeaders : List Header → Type 0
AreOtherHeaders [] = Unit {0}
AreOtherHeaders (h ∷ hs) =
    Lacks 58 h.name
    × Lacks 10 h.name
    × Lacks 10 h.value
    × (equals_ci h.name text_host ≡ false)
    × AreOtherHeaders hs

-- The suffix with a port, if there is one.
abbrev pub port_text : Option Text → Text
port_text none = []
port_text (some p) = 58 ∷ p

pub record HttpRequest : Type 0 where
  pub method : HttpMethod
  pub uri : Text
  pub minor_zero : Bool
  pub headers : List Header
  pub host_name : Text
  pub blanks : ℕ
  pub host : Text
  pub port : Option Text

-- The version, by whether it is 1.0.
abbrev pub version_text : Bool → Text
version_text true = http_1_0
version_text false = http_1_1

abbrev pub version_of : HttpRequest → Text
version_of r = version_text r.minor_zero

unfoldable pub request_line : HttpRequest → Text
request_line r = method_name r.method ++ (32 ∷ (r.uri ++ (32 ∷ version_of r)))

-- The header that names the host.
unfoldable pub host_header : HttpRequest → Header
host_header r = record {
  name = r.host_name;
  value = replicate r.blanks 32 ++ (r.host ++ port_text r.port);
}

-- The request up to the line of the host, and with what follows.
unfoldable pub encode_request : HttpRequest → Text → Text
encode_request r rest =
    line_of (request_line r) (header_lines r.headers (line_of (header_text (host_header r)) rest))

-- The parts of a request that can be told apart: no line end inside a line, a version without
-- blanks, one header line with a nonempty host.
pub record IsRequest (r : HttpRequest) : Type 0 where
  pub uri_line : Lacks 10 r.uri
  pub other : AreOtherHeaders r.headers
  pub host_named : equals_ci r.host_name text_host ≡ true
  pub name_colon : Lacks 58 r.host_name
  pub name_line : Lacks 10 r.host_name
  pub host_full : 0 < length r.host
  pub host_blanks : LacksBlanks r.host
  pub host_colon : Lacks 58 r.host
  pub host_line : Lacks 10 r.host
  pub port_line : Lacks 10 (port_text r.port)
