-- ===== src/Dpi/Inspections.antt =====
-- What `DpiEngine::inspect` says of payloads of the three protocols.
use mathlib.Core.List.{append_assoc}
use packet_dpi_engine.Base.{
  ℕ, ◌<◌, ◌≤◌, ◌≡◌, ◌≢◌, refl, ap, ◌∙◌, true, false, List, [], ◌∷◌, ◌++◌, some, length, arith,
}
use packet_dpi_engine.Memory.{read_u8}
use packet_dpi_engine.Text.{Text}
use packet_dpi_engine.Protocols.Types.{is_empty, ipproto_tcp}
use packet_dpi_engine.Dpi.Types.{http, TlsMetadata, DpiResult, new_tls, new_http}
use packet_dpi_engine.Dpi.Tls.{parse_client_hello}
use packet_dpi_engine.Dpi.TlsNames.{AreOthers}
use packet_dpi_engine.Dpi.TlsHello.{
  ClientHello, encode_client_hello, parse_client_hello-encode_client_hello,
}
use packet_dpi_engine.Dpi.HttpRequest.{
  HttpMethod, get, post, head, put, delete, options, patch, connect, trace, method_name,
  HttpRequest, version_of, request_line, line_of, header_text, header_lines, host_header,
  encode_request, IsRequest,
}
use packet_dpi_engine.Dpi.HttpRoundtrip.{parse_request-encode_request}
use packet_dpi_engine.Dpi.Engine.{tls_result, http_result, inspect_stream, inspect}

-- The conditions under which a ClientHello is read back.
pub record IsHello (h : ClientHello) : Type 0 where
  pub low : 0x0300 ≤ h.record_version
  pub high : h.record_version ≤ 0x0304
  pub random_bytes : length h.random ≡ 32
  pub others : AreOthers h.others
  pub named : 0 < length h.name

pub hello_not_empty : (h : ClientHello) → is_empty (encode_client_hello h) ≡ false
unfolding encode_client_hello
hello_not_empty h = refl

pub inspect-encode_client_hello :
    (h : ClientHello) (src dst : ℕ)
    → IsHello h
    → inspect (encode_client_hello h) ipproto_tcp src dst
      ≡ some (
          tls_result (record {
            legacy_version = h.record_version;
            client_version = h.client_version;
            sni = h.name;
            has_sni = true;
          }))
unfolding inspect inspect_stream
inspect-encode_client_hello h src dst v =
    let parsed =
      parse_client_hello-encode_client_hello h new_tls v.low v.high v.random_bytes v.others
        v.named in
    ground (arith, hello_not_empty h, parsed)

first_not_handshake :
    (x : ℕ) (rest : List ℕ) (m : TlsMetadata)
    → x ≢ 0x16
    → parse_client_hello (x ∷ rest) m ≡ some (false, m)
unfolding parse_client_hello read_u8
first_not_handshake x rest m other = ground (arith, other)

request_not_handshake :
    (m : HttpMethod) (t : Text) (out : TlsMetadata)
    → parse_client_hello (method_name m ++ t) out ≡ some (false, out)
unfolding method_name
request_not_handshake get t out = first_not_handshake b'G' _ out (λ e. omega (arith, e))
request_not_handshake post t out = first_not_handshake b'P' _ out (λ e. omega (arith, e))
request_not_handshake head t out = first_not_handshake b'H' _ out (λ e. omega (arith, e))
request_not_handshake put t out = first_not_handshake b'P' _ out (λ e. omega (arith, e))
request_not_handshake delete t out = first_not_handshake b'D' _ out (λ e. omega (arith, e))
request_not_handshake options t out = first_not_handshake b'O' _ out (λ e. omega (arith, e))
request_not_handshake patch t out = first_not_handshake b'P' _ out (λ e. omega (arith, e))
request_not_handshake connect t out = first_not_handshake b'C' _ out (λ e. omega (arith, e))
request_not_handshake trace t out = first_not_handshake b'T' _ out (λ e. omega (arith, e))

request_not_empty : (m : HttpMethod) (t : Text) → is_empty (method_name m ++ t) ≡ false
unfolding method_name
request_not_empty get t = refl
request_not_empty post t = refl
request_not_empty head t = refl
request_not_empty put t = refl
request_not_empty delete t = refl
request_not_empty options t = refl
request_not_empty patch t = refl
request_not_empty connect t = refl
request_not_empty trace t = refl

request_start :
    (r : HttpRequest) (rest : Text)
    → (t : Text) × (encode_request r rest ≡ method_name r.method ++ t)
unfolding encode_request request_line
request_start r rest =
    let name = method_name r.method in
    let tail = 32 ∷ (r.uri ++ (32 ∷ version_of r)) in
    let x = header_lines r.headers (line_of (header_text (host_header r)) rest) in
    (
      (tail ++ (13 ∷ [])) ++ (10 ∷ x),
      ap (λ t. t ++ (10 ∷ x)) (append_assoc name tail (13 ∷ []))
          ∙ append_assoc name (tail ++ (13 ∷ [])) (10 ∷ x),
    )

-- Over TCP, from and to any port, the inspection classifies a request on the wire as HTTP, with the
-- host as its host name and the method, the URI and the version in its details; the request has one
-- of the nine methods, a Host header with a nonempty host without blanks and colons among any other
-- headers, and the line of the host ends within the first 4096 bytes.
pub inspect-encode_request :
    (r : HttpRequest) (rest : Text) (src dst : ℕ)
    → IsRequest r
    → length (encode_request r []) ≤ 4096
    → (result : DpiResult) × (inspect (encode_request r rest) ipproto_tcp src dst ≡ some result)
      × (result.matched ≡ true)
      × (result.metadata.protocol ≡ http)
      × (result.metadata.hostname ≡ r.host)
      × (result.metadata.details ≡ method_name r.method ++ (32 ∷ (r.uri ++ (32 ∷ version_of r))))
unfolding inspect inspect_stream http_result
inspect-encode_request r rest src dst v short =
    let (t, start) = request_start r rest in
    let full = ap is_empty start ∙ request_not_empty r.method t in
    let rejected =
      ap (λ b. parse_client_hello b new_tls) start ∙ request_not_handshake r.method t new_tls in
    let parsed = parse_request-encode_request r rest new_http v short in
    (
      http_result (record {
        method = method_name r.method;
        uri = r.uri;
        version = version_of r;
        host = r.host;
        has_host = true;
      }),
      ground (arith, full, rejected, parsed),
      refl,
      refl,
      refl,
      refl,
    )
