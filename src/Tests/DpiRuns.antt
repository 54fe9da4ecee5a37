-- ===== src/Tests/DpiRuns.antt =====
-- The theorems on the parsers of layer 7, at small messages: a DNS name that points to itself, a
-- query for "www.io", a ClientHello for "a.io" and a request to it.
use packet_dpi_engine.Base.{
  ℕ, ◌≡◌, ◌≤◌, refl, List, [], ◌∷◌, ◌++◌, some, replicate, true, false, arith, length,
}
use packet_dpi_engine.Text.{to_lower}
use packet_dpi_engine.Protocols.Types.{ipproto_tcp}
use packet_dpi_engine.Dpi.Types.{new_dns, new_tls, new_http, DpiResult, http}
use packet_dpi_engine.Dpi.Tls.{parse_client_hello}
use packet_dpi_engine.Dpi.TlsHello.{
  ClientHello, encode_client_hello, parse_client_hello-encode_client_hello,
}
use packet_dpi_engine.Dpi.Http.{equals_ci, http_1_1, parse_request}
use packet_dpi_engine.Dpi.HttpRequest.{
  get, method_name, HttpRequest, request_line, header_lines, host_header, encode_request, IsRequest,
}
use packet_dpi_engine.Dpi.HttpRoundtrip.{parse_request-encode_request}
use packet_dpi_engine.Dpi.Engine.{inspect}
use packet_dpi_engine.Dpi.EngineLaws.{inspect-IsResult}
use packet_dpi_engine.Dpi.Results.{IsResult}
use packet_dpi_engine.Dpi.Inspections.{IsHello, inspect-encode_request}
use packet_dpi_engine.Dpi.Dns.{parse_query}
use packet_dpi_engine.Dpi.DnsQuery.{encode_query, parse_query-encode_query}

-- One question whose name is a pointer to offset 12, where it stands.
abbrev looping_query : List ℕ
looping_query = 0 ∷ 7 ∷ 1 ∷ 0 ∷ 0 ∷ 1 ∷ replicate 6 0 ++ (0xc0 ∷ 12 ∷ [])

parse_query-encode_query_example :
    parse_query
      (encode_query 7 256 1 ((119 ∷ 119 ∷ 119 ∷ []) ∷ (105 ∷ 111 ∷ []) ∷ []) 1 1 [])
      new_dns
    ≡ some (
      true,
      record new_dns {
        transaction_id = 7;
        flags = 256;
        qname = 119 ∷ 119 ∷ 119 ∷ 46 ∷ 105 ∷ 111 ∷ [];
        qtype = 1;
        qclass = 1;
      },
    )
parse_query-encode_query_example =
    parse_query-encode_query 7 256 1 (119 ∷ 119 ∷ 119 ∷ []) ((105 ∷ 111 ∷ []) ∷ []) 1 1 [] new_dns
      (omega arith) (omega arith, omega arith, (omega arith, omega arith, tt))

abbrev pub hello : ClientHello
hello = record {
  record_version = 0x0301;
  client_version = 0x0303;
  random = replicate 32 7;
  session_id = 1 ∷ 2 ∷ [];
  cipher_suites = 0x13 ∷ 1 ∷ [];
  compression_methods = 0 ∷ [];
  others = record { ext_type = 43; body = 2 ∷ 3 ∷ 4 ∷ [] } ∷ [];
  name = b'a' ∷ b'.' ∷ b'i' ∷ b'o' ∷ [];
  more = [];
}

pub hello-IsHello : IsHello hello
hello-IsHello = record {
  low = omega arith;
  high = omega arith;
  random_bytes = refl;
  others = (omega arith, tt);
  named = omega arith;
}

-- A record that announces more than it holds.
abbrev short_hello : List ℕ
short_hello = 0x16 ∷ 3 ∷ 1 ∷ 255 ∷ 255 ∷ 1 ∷ 0 ∷ 255 ∷ 255 ∷ replicate 34 3 ++ (200 ∷ 0 ∷ [])

parse_client_hello-encode_client_hello_example :
    parse_client_hello (encode_client_hello hello) new_tls
    ≡ some (
      true,
      record {
        legacy_version = 0x0301;
        client_version = 0x0303;
        sni = b'a' ∷ b'.' ∷ b'i' ∷ b'o' ∷ [];
        has_sni = true;
      },
    )
parse_client_hello-encode_client_hello_example =
    parse_client_hello-encode_client_hello hello new_tls (omega arith) (omega arith) refl
      (omega arith, tt) (omega arith)

-- "GET /x y HTTP/1.1" with "A: b" and "hOsT:  a.io:8080".
abbrev request : HttpRequest
request = record {
  method = get;
  uri = b'/' ∷ b'x' ∷ 32 ∷ b'y' ∷ [];
  minor_zero = false;
  headers = record { name = b'A' ∷ []; value = 32 ∷ b'b' ∷ [] } ∷ [];
  host_name = b'h' ∷ b'O' ∷ b's' ∷ b'T' ∷ [];
  blanks = 2;
  host = b'a' ∷ b'.' ∷ b'i' ∷ b'o' ∷ [];
  port = some (b'8' ∷ b'0' ∷ b'8' ∷ b'0' ∷ []);
}

request-IsRequest : IsRequest request
unfolding equals_ci to_lower
request-IsRequest = record {
  uri_line = ground arith;
  other = ground arith;
  host_named = refl;
  name_colon = ground arith;
  name_line = ground arith;
  host_full = omega arith;
  host_blanks = ground arith;
  host_colon = ground arith;
  host_line = ground arith;
  port_line = ground arith;
}

request_short : length (encode_request request []) ≤ 4096
unfolding encode_request request_line header_lines host_header method_name
request_short = omega arith

parse_request-encode_request_example :
    parse_request (encode_request request (13 ∷ 10 ∷ [])) new_http ≡ (
      true,
      record {
        method = method_name get;
        uri = b'/' ∷ b'x' ∷ 32 ∷ b'y' ∷ [];
        version = http_1_1;
        host = b'a' ∷ b'.' ∷ b'i' ∷ b'o' ∷ [];
        has_host = true;
      },
    )
parse_request-encode_request_example =
    parse_request-encode_request request (13 ∷ 10 ∷ []) new_http request-IsRequest request_short

inspect-encode_request_example :
    (result : DpiResult) × (inspect (encode_request request (13 ∷ 10 ∷ [])) ipproto_tcp 40000 80
      ≡ some result)
    × (result.matched ≡ true)
    × (result.metadata.protocol ≡ http)
    × (result.metadata.hostname ≡ request.host)
    × (result.metadata.details ≡ method_name get ++ (32 ∷ (request.uri ++ (32 ∷ http_1_1))))
inspect-encode_request_example =
    inspect-encode_request request (13 ∷ 10 ∷ []) 40000 80 request-IsRequest request_short

inspect-IsResult_example :
    (r : DpiResult) × (inspect looping_query 6 53 40000 ≡ some r)
    × IsResult looping_query 6 53 40000 r
inspect-IsResult_example = inspect-IsResult looping_query 6 53 40000
