-- ===== src/Dpi/Results.antt =====
-- What a result of the inspection says about the payload.
use packet_dpi_engine.Base.{ℕ, ◌≡◌, ◌⊎◌, refl, true, false, some, arith}
use packet_dpi_engine.Memory.{Buffer}
use packet_dpi_engine.Protocols.Types.{is_empty, ipproto_tcp, ipproto_udp}
use packet_dpi_engine.Dpi.Types.{
  tls, http, dns, TlsMetadata, HttpMetadata, DnsMetadata, L7Metadata, DpiResult, new_tls, new_http,
  new_dns, new_l7,
}
use packet_dpi_engine.Dpi.Tls.{parse_client_hello}
use packet_dpi_engine.Dpi.Http.{parse_request}
use packet_dpi_engine.Dpi.Dns.{parse_query}
use packet_dpi_engine.Dpi.Engine.{no_match, tls_result, http_result, dns_result}

-- What the parsers accept, and the metadata that they fill.
abbrev pub IsTls : Buffer → TlsMetadata → Type 0
IsTls payload m = parse_client_hello payload new_tls ≡ some (true, m)

abbrev pub IsHttp : Buffer → HttpMetadata → Type 0
IsHttp payload m = parse_request payload new_http ≡ (true, m)

abbrev pub IsDns : Buffer → DnsMetadata → Type 0
IsDns payload m = parse_query payload new_dns ≡ some (true, m)

-- Over UDP, or with the port of DNS.
abbrev pub MayBeDns : ℕ → ℕ → ℕ → Type 0
MayBeDns protocol src dst = (protocol ≡ ipproto_udp) ⊎ (src ≡ 53) ⊎ (dst ≡ 53)

abbrev pub NotTls : Buffer → Type 0
NotTls payload = (m : TlsMetadata) → ¬ IsTls payload m

abbrev pub NotHttp : Buffer → Type 0
NotHttp payload = (m : HttpMetadata) → ¬ IsHttp payload m

abbrev pub NotDns : Buffer → Type 0
NotDns payload = (m : DnsMetadata) → ¬ IsDns payload m

-- The metadata of a match, by the parser that accepted the payload.
pub data Matched (payload : Buffer) (protocol src dst : ℕ) (m : L7Metadata) : Type 0 where
  as_tls :
      protocol ≡ ipproto_tcp
      → m.protocol ≡ tls
      → IsTls payload m.tls
      → m.hostname ≡ m.tls.sni
      → Matched payload protocol src dst m
  as_http :
      protocol ≡ ipproto_tcp
      → NotTls payload
      → m.protocol ≡ http
      → IsHttp payload m.http
      → m.hostname ≡ m.http.host
      → Matched payload protocol src dst m
  as_dns :
      MayBeDns protocol src dst
      → (protocol ≡ ipproto_tcp → NotTls payload × NotHttp payload)
      → m.protocol ≡ dns
      → IsDns payload m.dns
      → m.hostname ≡ m.dns.qname
      → Matched payload protocol src dst m

-- A result says what the parsers found, and no match that none of those that were asked accepts.
pub record IsResult (payload : Buffer) (protocol src dst : ℕ) (r : DpiResult) : Type 0 where
  pub found :
      r.matched ≡ true
      → (r.metadata.is_classified ≡ true) × Matched payload protocol src dst r.metadata
  pub silent : r.matched ≡ false → r.metadata ≡ new_l7
  pub refused_stream :
      r.matched ≡ false
      → is_empty payload ≡ false
      → protocol ≡ ipproto_tcp
      → NotTls payload × NotHttp payload
  pub refused_datagram :
      r.matched ≡ false → is_empty payload ≡ false → MayBeDns protocol src dst → NotDns payload

pub tls_result-IsResult :
    (payload : Buffer) (src dst : ℕ) (m : TlsMetadata)
    → IsTls payload m
    → IsResult payload ipproto_tcp src dst (tls_result m)
unfolding tls_result
tls_result-IsResult payload src dst m is = record {
  found = λ e. (refl, as_tls refl refl is refl);
  silent = λ e. absurd (ground arith);
  refused_stream = λ e. absurd (ground arith);
  refused_datagram = λ e. absurd (ground arith);
}

pub http_result-IsResult :
    (payload : Buffer) (src dst : ℕ) (m : HttpMetadata)
    → NotTls payload
    → IsHttp payload m
    → IsResult payload ipproto_tcp src dst (http_result m)
unfolding http_result
http_result-IsResult payload src dst m other is = record {
  found = λ e. (refl, as_http refl other refl is refl);
  silent = λ e. absurd (ground arith);
  refused_stream = λ e. absurd (ground arith);
  refused_datagram = λ e. absurd (ground arith);
}

pub dns_result-IsResult :
    (payload : Buffer) (protocol src dst : ℕ) (m : DnsMetadata)
    → MayBeDns protocol src dst
    → (protocol ≡ ipproto_tcp → NotTls payload × NotHttp payload)
    → IsDns payload m
    → IsResult payload protocol src dst (dns_result m)
unfolding dns_result
dns_result-IsResult payload protocol src dst m over other is = record {
  found = λ e. (refl, as_dns over other refl is refl);
  silent = λ e. absurd (ground arith);
  refused_stream = λ e. absurd (ground arith);
  refused_datagram = λ e. absurd (ground arith);
}

pub no_match-IsResult :
    (payload : Buffer) (protocol src dst : ℕ)
    → (is_empty payload ≡ false → protocol ≡ ipproto_tcp → NotTls payload × NotHttp payload)
    → (is_empty payload ≡ false → MayBeDns protocol src dst → NotDns payload)
    → IsResult payload protocol src dst no_match
no_match-IsResult payload protocol src dst stream datagram = record {
  found = λ e. absurd (ground arith);
  silent = λ e. refl;
  refused_stream = λ e. stream;
  refused_datagram = λ e. datagram;
}
