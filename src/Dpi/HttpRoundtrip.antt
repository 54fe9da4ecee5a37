-- ===== src/Dpi/HttpRoundtrip.antt =====
-- A request with a Host header is read back.
use mathlib.Core.List.{append_assoc}
use packet_dpi_engine.Base.{
  ℕ, ◌+◌, ◌-◌, ◌≤◌, ◌≡◌, refl, sym, ap, ◌∙◌, ◌⊎◌, inl, inr, Bool, true, false, List, [], ◌∷◌, ◌++◌,
  some, length, take, drop, replicate, arith, min, length-append,
}
use packet_dpi_engine.Memory.Views.{
  take-append-more, take-append-past, drop-append, take-append, drop-drop,
}
use packet_dpi_engine.Text.{Text, text_eq, text_eq_refl, split}
use packet_dpi_engine.Dpi.Types.{HttpMetadata}
use packet_dpi_engine.Dpi.Http.{
  methods, match_method, strip_cr, request_parts, http_1_1, http_1_0, scan_headers, size_t_minus,
  headers_section, finish_request, parse_lines, parse_request,
}
use packet_dpi_engine.Dpi.HttpTexts.{Lacks, Lacks-append, find_char-append, strip_cr-append}
use packet_dpi_engine.Dpi.HttpRequest.{
  method_name, match_method-name, method_name_plain, method_long, request_parts-line, line_of,
  Header, header_text, header_lines, port_text, HttpRequest, version_of, version_text, request_line,
  host_header, encode_request, IsRequest,
}
use packet_dpi_engine.Dpi.HttpHost.{
  Lacks-line, Lacks-header, split-line, scan_headers-others, scan_headers-host, Lacks-replicate,
}

-- What stands before the rest does not depend on it.
header_lines-append :
    (hs : List Header) (x rest : Text)
    → header_lines hs (line_of x rest) ≡ header_lines hs (line_of x []) ++ rest
unfolding header_lines
header_lines-append [] x rest = sym (append_assoc (x ++ (13 ∷ [])) (10 ∷ []) rest)
header_lines-append (h ∷ hs) x rest =
    let l = header_text h ++ (13 ∷ []) in
    ap (λ t. l ++ (10 ∷ t)) (header_lines-append hs x rest)
    ∙ sym (append_assoc l (10 ∷ header_lines hs (line_of x [])) rest)

-- The scanned part begins with all that lies within the first 4096 bytes.
headers_section-line :
    (l a rest : Text)
    → length (line_of l a) ≤ 4096
    → (n : ℕ) × (headers_section (line_of l (a ++ rest)) (length (l ++ (13 ∷ [])) + 1)
        ≡ a ++ take n rest)
unfolding headers_section
headers_section-line l a rest short =
    let k = l ++ (13 ∷ []) in
    let payload = k ++ (10 ∷ (a ++ rest)) in
    let n = size_t_minus (min (length payload) 4096) (length k + 1) in
    let behind : drop (length k + 1) payload ≡ a ++ rest =
      drop-drop payload (length k) 1 ∙ ap (drop 1) (drop-append k (10 ∷ (a ++ rest))) in
    let size = length-append k (10 ∷ (a ++ rest)) in
    let inner = length-append a rest in
    let outer = length-append k (10 ∷ a) in
    let enough : length a ≤ n = omega (arith, size, inner, outer, short) in
    (n - length a, ap (take n) behind ∙ take-append-past a rest n enough)

scan_request :
    (r : HttpRequest) (rest : Text)
    → IsRequest r
    → scan_headers (split 10 (header_lines r.headers (line_of (header_text (host_header r)) rest)))
      ≡ (some r.host, false)
unfolding host_header
scan_request r rest v =
    let h = host_header r in
    let value_line =
      Lacks-append 10 (replicate r.blanks 32) (r.host ++ port_text r.port)
        (Lacks-replicate r.blanks)
        (Lacks-append 10 r.host (port_text r.port) v.host_line v.port_line) in
    scan_headers-others r.headers (line_of (header_text h) rest) v.other
    ∙ ap scan_headers (split-line (header_text h) rest (Lacks-header h v.name_line value_line))
    ∙ scan_headers-host r (split 10 rest) v

version_plain : (b : Bool) → Lacks 32 (version_text b) × Lacks 10 (version_text b)
version_plain true = ground arith
version_plain false = ground arith

version_long : (b : Bool) → length (version_text b) ≡ 8
version_long true = refl
version_long false = refl

-- What is left of the request is scanned, and the host is in it.
scan_section :
    (r : HttpRequest) (rest : Text)
    → IsRequest r
    → length (encode_request r []) ≤ 4096
    → scan_headers (
        split 10
          (headers_section (encode_request r rest) (length (request_line r ++ (13 ∷ [])) + 1)))
      ≡ (some r.host, false)
unfolding encode_request
scan_section r rest v short =
    let l = request_line r in
    let x = header_text (host_header r) in
    let a = header_lines r.headers (line_of x []) in
    let (n, section) = headers_section-line l a rest short in
    let start = length (l ++ (13 ∷ [])) + 1 in
    let whole = header_lines-append r.headers x rest in
    let part = header_lines-append r.headers x (take n rest) in
    ap (λ t. scan_headers (split 10 (headers_section (line_of l t) start))) whole
    ∙ ap (λ t. scan_headers (split 10 t)) (section ∙ sym part)
    ∙ scan_request r (take n rest) v

request_line_plain : (r : HttpRequest) → IsRequest r → Lacks 10 (request_line r)
unfolding request_line
request_line_plain r v =
    Lacks-append 10 (method_name r.method) (32 ∷ (r.uri ++ (32 ∷ version_of r)))
      (method_name_plain r.method).1
      (
        ground arith,
        Lacks-append 10 r.uri (32 ∷ version_of r) v.uri_line
            (ground arith, (version_plain r.minor_zero).1),
      )

version_supported :
    (b : Bool)
    → (text_eq (version_text b) http_1_1 ≡ true) ⊎ (text_eq (version_text b) http_1_0 ≡ true)
version_supported true = inr (text_eq_refl http_1_0)
version_supported false = inl (text_eq_refl http_1_1)

request_long : (r : HttpRequest) → 13 ≤ length (request_line r)
unfolding request_line
request_long r = omega (
  arith,
  method_long r.method,
  version_long r.minor_zero,
  length-append (method_name r.method) (32 ∷ (r.uri ++ (32 ∷ version_of r))),
  length-append r.uri (32 ∷ version_of r),
)

abbrev request_metadata : HttpRequest → HttpMetadata
request_metadata r = record {
  method = method_name r.method;
  uri = r.uri;
  version = version_of r;
  host = r.host;
  has_host = true;
}

parse_lines-request :
    (r : HttpRequest) (rest : Text) (m : HttpMetadata)
    → IsRequest r
    → length (encode_request r []) ≤ 4096
    → parse_lines
        (encode_request r rest)
        (method_name r.method)
        m
        (length (request_line r ++ (13 ∷ [])))
      ≡ (true, request_metadata r)
unfolding parse_lines finish_request encode_request request_line
parse_lines-request r rest m v short =
    let l = request_line r in
    let k = l ++ (13 ∷ []) in
    let x = header_lines r.headers (line_of (header_text (host_header r)) rest) in
    let line = ap strip_cr (take-append k (10 ∷ x)) ∙ strip_cr-append l in
    let parts =
      ap request_parts line
      ∙ request_parts-line (method_name r.method) r.uri (version_of r)
          (method_name_plain r.method).0 (version_plain r.minor_zero).0 in
    ground (arith, parts, version_supported r.minor_zero, scan_section r rest v short)

-- A request on the wire - one of the nine methods, any URI without a line end, version 1.0 or 1.1,
-- header lines with other names, then a header named "Host" in any case with a nonempty host without
-- blanks and colons, after any number of spaces and before a port or none - is accepted if the line
-- of the host ends within the first 4096 bytes, whatever follows, and the parser gets back the method,
-- the URI, the version and the host without its port.
pub parse_request-encode_request :
    (r : HttpRequest) (rest : Text) (m : HttpMetadata)
    → IsRequest r
    → length (encode_request r []) ≤ 4096
    → parse_request (encode_request r rest) m ≡ (
      true,
      record {
        method = method_name r.method;
        uri = r.uri;
        version = version_of r;
        host = r.host;
        has_host = true;
      },
    )
unfolding parse_request encode_request request_line
parse_request-encode_request r rest m v short =
    let name = method_name r.method in
    let tail = r.uri ++ (32 ∷ version_of r) in
    let l = name ++ (32 ∷ tail) in
    let k = l ++ (13 ∷ []) in
    let x = header_lines r.headers (line_of (header_text (host_header r)) rest) in
    let payload = k ++ (10 ∷ x) in
    let start : payload ≡ name ++ (32 ∷ ((tail ++ (13 ∷ [])) ++ (10 ∷ x))) =
      ap (λ t. t ++ (10 ∷ x)) (append_assoc name (32 ∷ tail) (13 ∷ []))
      ∙ append_assoc name (32 ∷ (tail ++ (13 ∷ []))) (10 ∷ x) in
    let matched = ap (match_method methods) start ∙ match_method-name r.method _ in
    let ended = find_char-append 10 k x (Lacks-line l (request_line_plain r v)) in
    let size : length (name ++ (32 ∷ [])) - 1 ≡ length name =
      omega (arith, length-append name (32 ∷ [])) in
    let shortened = take-append-more name (32 ∷ []) (length (name ++ (32 ∷ [])) - 1) size in
    let long : 10 ≤ length payload =
      omega (arith, request_long r, length-append l (13 ∷ []), length-append k (10 ∷ x)) in
    let parsed = parse_lines-request r rest m v short in
    ground (arith, matched, ended, shortened, parsed, long)
