-- ===== src/Dpi/Engine.antt =====
-- `DpiEngine::inspect` of include/dpi/dpi/dpi_engine.h and src/dpi/dpi_engine.cpp.
use packet_dpi_engine.Base.{
  ℕ, true, false, List, [], ◌∷◌, ◌++◌, Option, none, some, ◌==◌, ◌||◌, not, if◌then◌else◌,
}
use packet_dpi_engine.Memory.{Buffer, ◌>>=◌}
use packet_dpi_engine.Protocols.Types.{
  ParsedPacket, is_valid, is_tcp, is_udp, is_empty, has_payload, ipproto_tcp, ipproto_udp,
}
use packet_dpi_engine.Dpi.Types.{
  tls, http, dns, TlsMetadata, HttpMetadata, DnsMetadata, DpiResult, new_tls, new_http, new_dns,
  new_l7,
}
use packet_dpi_engine.Dpi.Dns.{parse_query}
use packet_dpi_engine.Dpi.Tls.{parse_client_hello}
use packet_dpi_engine.Dpi.Http.{parse_request}

abbrev pub no_match : DpiResult
no_match = record { matched = false; metadata = new_l7 }

-- "TLS SNI: ", "TLS ClientHello" and "DNS Query: ".
abbrev pub text_tls_sni : List ℕ
text_tls_sni = b'T' ∷ b'L' ∷ b'S' ∷ 32 ∷ b'S' ∷ b'N' ∷ b'I' ∷ b':' ∷ 32 ∷ []

abbrev pub text_client_hello : List ℕ
text_client_hello =
    b'T' ∷ b'L' ∷ b'S' ∷ 32 ∷ b'C' ∷ b'l' ∷ b'i' ∷ b'e' ∷ b'n' ∷ b't' ∷ b'H' ∷ b'e' ∷ b'l' ∷ b'l'
    ∷ b'o' ∷ []

abbrev pub text_dns_query : List ℕ
text_dns_query = b'D' ∷ b'N' ∷ b'S' ∷ 32 ∷ b'Q' ∷ b'u' ∷ b'e' ∷ b'r' ∷ b'y' ∷ b':' ∷ 32 ∷ []

unfoldable pub tls_result : TlsMetadata → DpiResult
tls_result m = record {
  matched = true;
  metadata = record new_l7 {
    protocol = tls;
    is_classified = true;
    tls = m;
    hostname = m.sni;
    details = if m.has_sni then text_tls_sni ++ m.sni else text_client_hello;
  };
}

unfoldable pub http_result : HttpMetadata → DpiResult
http_result m = record {
  matched = true;
  metadata = record new_l7 {
    protocol = http;
    is_classified = true;
    http = m;
    hostname = m.host;
    details = m.method ++ (32 ∷ (m.uri ++ (32 ∷ m.version)));
  };
}

unfoldable pub dns_result : DnsMetadata → DpiResult
dns_result m = record {
  matched = true;
  metadata = record new_l7 {
    protocol = dns;
    is_classified = true;
    dns = m;
    hostname = m.qname;
    details = text_dns_query ++ m.qname;
  };
}

-- The TCP part: a result, if a parser of TLS or HTTP accepts; the outer none is undefined behaviour.
unfoldable pub inspect_stream : Buffer → Option (Option DpiResult)
inspect_stream payload = do
  (is_tls, tls_meta) ← parse_client_hello payload new_tls
  let (is_http, http_meta) = parse_request payload new_http
  some (
      if is_tls
      then some (tls_result tls_meta)
      else if is_http
      then some (http_result http_meta)
      else none)

-- The UDP part.
unfoldable pub inspect_datagram : Buffer → Option DpiResult
inspect_datagram payload = do
  (is_dns, dns_meta) ← parse_query payload new_dns
  some (if is_dns then dns_result dns_meta else no_match)

-- `inspect(payload, protocol, src_port, dst_port)`.
unfoldable pub inspect : Buffer → ℕ → ℕ → ℕ → Option DpiResult
inspect payload protocol src_port dst_port = if is_empty payload then some no_match else do
  stream ← if protocol == ipproto_tcp then inspect_stream payload else some none
  elim stream [
    | some result ↦ some result
    | none ↦
        if protocol == ipproto_udp || src_port == 53 || dst_port == 53
        then inspect_datagram payload
        else some no_match
  ]

-- `inspect(packet)`.
unfoldable pub inspect_packet : ParsedPacket → Option DpiResult
inspect_packet p =
    if not (is_valid p) || not (has_payload p)
    then some no_match
    else if is_tcp p
    then inspect p.l7_payload ipproto_tcp p.tcp.src_port p.tcp.dst_port
    else if is_udp p
    then inspect p.l7_payload ipproto_udp p.udp.src_port p.udp.dst_port
    else inspect p.l7_payload 0 0 0
