-- ===== src/Dpi/EngineLaws.antt =====
-- The results of the inspection.
use packet_dpi_engine.Base.{
  ℕ, ◌≡◌, ◌≢◌, inl, inr, refl, Bool, true, false, Option, none, some, arith, Option-cases,
  Bool-cases, ◌==◌, ◌||◌, if◌then◌else◌,
}
use packet_dpi_engine.Memory.{Buffer}
use packet_dpi_engine.Protocols.Types.{ParsedPacket, is_empty, ipproto_tcp, ipproto_udp}
use packet_dpi_engine.Dpi.Types.{
  TlsMetadata, HttpMetadata, DnsMetadata, DpiResult, new_tls, new_http, new_dns,
}
use packet_dpi_engine.Dpi.Tls.{parse_client_hello}
use packet_dpi_engine.Dpi.Http.{parse_request}
use packet_dpi_engine.Dpi.Dns.{parse_query}
use packet_dpi_engine.Dpi.DnsLaws.{parse_query-ne-none}
use packet_dpi_engine.Dpi.TlsLaws.{parse_client_hello-ne-none}
use packet_dpi_engine.Dpi.Engine.{
  no_match, tls_result, http_result, dns_result, inspect_stream, inspect_datagram, inspect,
  inspect_packet,
}
use packet_dpi_engine.Dpi.Results.{
  NotTls, NotHttp, NotDns, MayBeDns, IsResult, tls_result-IsResult, http_result-IsResult,
  dns_result-IsResult, no_match-IsResult,
}

inspect_stream-ne-none : (payload : Buffer) → inspect_stream payload ≢ none
unfolding inspect_stream
inspect_stream-ne-none payload = ground (arith, parse_client_hello-ne-none payload new_tls)

inspect_datagram-ne-none : (payload : Buffer) → inspect_datagram payload ≢ none
unfolding inspect_datagram
inspect_datagram-ne-none payload = ground (arith, parse_query-ne-none payload new_dns)

pub inspect-ne-none :
    (payload : Buffer) (protocol src dst : ℕ) → inspect payload protocol src dst ≢ none
unfolding inspect
inspect-ne-none payload protocol src dst =
    ground (arith, inspect_stream-ne-none payload, inspect_datagram-ne-none payload)

pub inspect_packet-ne-none : (p : ParsedPacket) → inspect_packet p ≢ none
unfolding inspect_packet
inspect_packet-ne-none p = grind (arith, inspect-ne-none p.l7_payload)

-- What the TCP part says.
abbrev Stream : Buffer → ℕ → ℕ → Option DpiResult → Type 0
Stream payload src dst (some r) = IsResult payload ipproto_tcp src dst r
Stream payload src dst none = NotTls payload × NotHttp payload

refused-NotTls :
    (payload : Buffer) {m : TlsMetadata}
    → parse_client_hello payload new_tls ≡ some (false, m)
    → NotTls payload
refused-NotTls payload e m' e' = cc

refused-NotHttp :
    (payload : Buffer) {m : HttpMetadata}
    → parse_request payload new_http ≡ (false, m)
    → NotHttp payload
refused-NotHttp payload e m' e' = cc

refused-NotDns :
    (payload : Buffer) {m : DnsMetadata}
    → parse_query payload new_dns ≡ some (false, m)
    → NotDns payload
refused-NotDns payload e m' e' = cc

inspect_stream-Stream :
    (payload : Buffer) (src dst : ℕ)
    → (o : Option DpiResult) × (inspect_stream payload ≡ some o) × Stream payload src dst o
unfolding inspect_stream
inspect_stream-Stream payload src dst = elim (Option-cases (parse_client_hello payload new_tls)) [
  | inl e ↦ absurd (parse_client_hello-ne-none payload new_tls e)
  | inr ((true, m), e) ↦ (some (tls_result m), rw e refl, tls_result-IsResult payload src dst m e)
  | inr ((false, m), e) ↦
      let http : HttpMetadata = (parse_request payload new_http).1 in
      let not_tls = refused-NotTls payload e in
      elim (Bool-cases (parse_request payload new_http).0) [
        | inl h ↦ (
          some (http_result http),
          rw (e, h) refl,
          http_result-IsResult payload src dst http not_tls (cc h),
        )
        | inr h ↦ (none, rw (e, h) refl, (not_tls, refused-NotHttp payload {m = http} (cc h)))
      ]
]

inspect_datagram-IsResult :
    (payload : Buffer) (protocol src dst : ℕ)
    → MayBeDns protocol src dst
    → (protocol ≡ ipproto_tcp → NotTls payload × NotHttp payload)
    → (r : DpiResult) × (inspect_datagram payload ≡ some r) × IsResult payload protocol src dst r
unfolding inspect_datagram
inspect_datagram-IsResult payload protocol src dst over other =
    elim (Option-cases (parse_query payload new_dns)) [
      | inl e ↦ absurd (parse_query-ne-none payload new_dns e)
      | inr ((true, m), e) ↦
          (dns_result m, rw e refl, dns_result-IsResult payload protocol src dst m over other e)
      | inr ((false, m), e) ↦ (
        no_match,
        rw e refl,
        no_match-IsResult payload protocol src dst (λ full. other)
            (λ full may. refused-NotDns payload e),
      )
    ]

-- The test before the DNS parser.
abbrev may_be_dns : ℕ → ℕ → ℕ → Bool
may_be_dns protocol src dst = protocol == ipproto_udp || src == 53 || dst == 53

may_be_dns-MayBeDns :
    (protocol src dst : ℕ) → may_be_dns protocol src dst ≡ true → MayBeDns protocol src dst
may_be_dns-MayBeDns protocol src dst h = ground (arith, h)

not_may_be_dns :
    (protocol src dst : ℕ) → may_be_dns protocol src dst ≡ false → ¬ MayBeDns protocol src dst
not_may_be_dns protocol src dst h may = ground (arith, h, may)

-- From the test of the ports on, when the TCP part has nothing to say.
last_part-IsResult :
    (payload : Buffer) (protocol src dst : ℕ)
    → (protocol ≡ ipproto_tcp → NotTls payload × NotHttp payload)
    → (r : DpiResult) × ((if may_be_dns protocol src dst
          then inspect_datagram payload
          else some no_match)
        ≡ some r)
      × IsResult payload protocol src dst r
last_part-IsResult payload protocol src dst other =
    elim (Bool-cases (may_be_dns protocol src dst)) [
      | inl h ↦
          let may = may_be_dns-MayBeDns protocol src dst h in
          let (r, said, is) = inspect_datagram-IsResult payload protocol src dst may other in
          (r, rw h said, is)
      | inr h ↦ (
        no_match,
        rw h refl,
        no_match-IsResult payload protocol src dst (λ full. other)
            (λ full may. absurd (not_may_be_dns protocol src dst h may)),
      )
    ]

inspect_tcp-IsResult :
    (payload : Buffer) (protocol src dst : ℕ) (o : Option DpiResult)
    → is_empty payload ≡ false
    → protocol ≡ ipproto_tcp
    → (protocol == ipproto_tcp) ≡ true
    → inspect_stream payload ≡ some o
    → Stream payload src dst o
    → (r : DpiResult) × (inspect payload protocol src dst ≡ some r)
      × IsResult payload protocol src dst r
unfolding inspect
inspect_tcp-IsResult payload protocol src dst (some r) full over h said is =
    (r, rw (full, h, said) refl, rw over is)
inspect_tcp-IsResult payload protocol src dst none full over h said refused =
    let (r, rest, is) = last_part-IsResult payload protocol src dst (λ e. refused) in
    (r, rw (full, h, said) rest, is)

inspect-full :
    (payload : Buffer) (protocol src dst : ℕ)
    → is_empty payload ≡ false
    → (r : DpiResult) × (inspect payload protocol src dst ≡ some r)
      × IsResult payload protocol src dst r
unfolding inspect
inspect-full payload protocol src dst full = elim (Bool-cases (protocol == ipproto_tcp)) [
  | inl h ↦
      let over : protocol ≡ ipproto_tcp = ground (arith, h) in
      let (o, said, is) = inspect_stream-Stream payload src dst in
      inspect_tcp-IsResult payload protocol src dst o full over h said is
  | inr h ↦
      let (r, rest, is) =
        last_part-IsResult payload protocol src dst (λ e. absurd (ground (arith, h, e))) in
      (r, rw (full, h) rest, is)
]

-- On any payload, for any protocol and ports, the inspection ends, reads nothing outside the payload
-- and returns a result. A match is classified: over TCP as TLS if that parser accepts the payload,
-- else over TCP as HTTP if that parser does, else over UDP or with port 53 as DNS if that parser
-- does; it carries the metadata that this parser filled, and its host name is the server name, the
-- host or the name in them. Without a match the metadata is empty, and the payload is empty or none
-- of the parsers that are asked for its protocol and ports accepts it.
pub inspect-IsResult :
    (payload : Buffer) (protocol src dst : ℕ)
    → (r : DpiResult) × (inspect payload protocol src dst ≡ some r)
      × IsResult payload protocol src dst r
unfolding inspect
inspect-IsResult payload protocol src dst = elim (Bool-cases (is_empty payload)) [
  | inl h ↦ (
    no_match,
    rw h refl,
    no_match-IsResult payload protocol src dst (λ full. absurd (ground (arith, h, full)))
        (λ full. absurd (ground (arith, h, full))),
  )
  | inr full ↦ inspect-full payload protocol src dst full
]
