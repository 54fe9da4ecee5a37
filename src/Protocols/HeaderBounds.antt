-- ===== src/Protocols/HeaderBounds.antt =====
-- The header parsers read inside the buffer that they are given, and what they accept is consistent.
use packet_dpi_engine.Base.{ℕ, ◌+◌, ◌-◌, ◌*◌, ◌≤◌, ◌<◌, ◌≡◌, ◌≢◌, none, some, length, arith}
use packet_dpi_engine.Memory.{Buffer, read_u8-some, read_u16_be-some, read_u32_be-some, copy-some}
use packet_dpi_engine.Protocols.Types.{
  ProtocolErrorCode, success, EthernetHeader, Ipv4Header, Ipv6Header, TcpHeader, UdpHeader,
}
use packet_dpi_engine.Protocols.Headers.{
  parse_ethernet, ipv4_rest, parse_ipv4, parse_ipv6, tcp_rest, parse_tcp, parse_udp,
}

pub parse_ethernet-some :
    (buf : Buffer) (at len : ℕ) (h : EthernetHeader)
    → at + len ≤ length buf
    → parse_ethernet buf at len h ≢ none
unfolding parse_ethernet
parse_ethernet-some buf at len h fits =
    ground (arith, copy-some buf at 6, copy-some buf (at + 6) 6, read_u16_be-some buf (at + 12))

pub parse_ethernet-fits :
    (buf : Buffer) (at len : ℕ) (h0 : EthernetHeader) {r : ProtocolErrorCode × EthernetHeader × ℕ}
    → parse_ethernet buf at len h0 ≡ some r
    → r.0 ≡ success
    → (r.2 ≡ 14) × (14 ≤ len)
unfolding parse_ethernet
parse_ethernet-fits buf at len h0 eq good = ground arith

ipv4_rest-some :
    (buf : Buffer) (at : ℕ) (h : Ipv4Header)
    → at + 20 ≤ length buf
    → at + h.header_length ≤ length buf
    → 20 ≤ h.header_length
    → ipv4_rest buf at h ≢ none
unfolding ipv4_rest
ipv4_rest-some buf at h fits whole least = ground (
  arith,
  read_u16_be-some buf (at + 4),
  read_u16_be-some buf (at + 6),
  read_u8-some buf (at + 8),
  read_u8-some buf (at + 9),
  read_u16_be-some buf (at + 10),
  read_u32_be-some buf (at + 12),
  read_u32_be-some buf (at + 16),
  copy-some buf (at + 20) (h.header_length - 20),
)

pub parse_ipv4-some :
    (buf : Buffer) (at len : ℕ) (h : Ipv4Header)
    → at + len ≤ length buf
    → parse_ipv4 buf at len h ≢ none
unfolding parse_ipv4
parse_ipv4-some buf at len h fits = grind (arith, read_u8-some, read_u16_be-some, ipv4_rest-some)

-- What `parse_ipv4` guarantees of a header that it accepts from `len` bytes.
pub record Ipv4Fits (len : ℕ) (h : Ipv4Header) (n : ℕ) : Type 0 where
  pub version : h.version ≡ 4
  pub header : h.header_length ≡ h.ihl * 4
  pub ihl_least : 5 ≤ h.ihl
  pub ihl_most : h.ihl < 16
  pub consumed : n ≡ h.header_length
  pub total_least : h.header_length ≤ h.total_length
  pub total_most : h.total_length ≤ len

ipv4_rest-keeps :
    (buf : Buffer) (at : ℕ) (h : Ipv4Header) {r : ProtocolErrorCode × Ipv4Header × ℕ}
    → ipv4_rest buf at h ≡ some r
    → (r.1.version ≡ h.version)
      × (r.1.ihl ≡ h.ihl)
      × (r.1.header_length ≡ h.header_length)
      × (r.1.total_length ≡ h.total_length)
      × (r.2 ≡ h.header_length)
unfolding ipv4_rest
ipv4_rest-keeps buf at h eq = ground arith

pub parse_ipv4-Ipv4Fits :
    (buf : Buffer) (at len : ℕ) (h0 : Ipv4Header) {r : ProtocolErrorCode × Ipv4Header × ℕ}
    → parse_ipv4 buf at len h0 ≡ some r
    → r.0 ≡ success
    → Ipv4Fits len r.1 r.2
unfolding parse_ipv4
parse_ipv4-Ipv4Fits buf at len h0 eq good = grind (arith, ipv4_rest-keeps)

pub parse_ipv6-some :
    (buf : Buffer) (at len : ℕ) (h : Ipv6Header)
    → at + len ≤ length buf
    → parse_ipv6 buf at len h ≢ none
unfolding parse_ipv6
parse_ipv6-some buf at len h fits = ground (
  arith,
  read_u32_be-some buf at,
  read_u16_be-some buf (at + 4),
  read_u8-some buf (at + 6),
  read_u8-some buf (at + 7),
  copy-some buf (at + 8) 16,
  copy-some buf (at + 24) 16,
)

pub parse_ipv6-fits :
    (buf : Buffer) (at len : ℕ) (h0 : Ipv6Header) {r : ProtocolErrorCode × Ipv6Header × ℕ}
    → parse_ipv6 buf at len h0 ≡ some r
    → r.0 ≡ success
    → (r.1.version ≡ 6) × (r.2 ≡ 40) × (40 + r.1.payload_length ≤ len)
unfolding parse_ipv6
parse_ipv6-fits buf at len h0 eq good = ground arith

tcp_rest-some :
    (buf : Buffer) (at : ℕ) (h : TcpHeader)
    → at + 20 ≤ length buf
    → at + h.header_length ≤ length buf
    → 20 ≤ h.header_length
    → tcp_rest buf at h ≢ none
unfolding tcp_rest
tcp_rest-some buf at h fits whole least = ground (
  arith,
  read_u16_be-some buf (at + 12),
  read_u16_be-some buf (at + 14),
  read_u16_be-some buf (at + 16),
  read_u16_be-some buf (at + 18),
  copy-some buf (at + 20) (h.header_length - 20),
)

pub parse_tcp-some :
    (buf : Buffer) (at len : ℕ) (h : TcpHeader)
    → at + len ≤ length buf
    → parse_tcp buf at len h ≢ none
unfolding parse_tcp
parse_tcp-some buf at len h fits =
    grind (arith, read_u8-some, read_u16_be-some, read_u32_be-some, tcp_rest-some)

-- What `parse_tcp` guarantees of a header that it accepts from `len` bytes.
pub record TcpFits (len : ℕ) (h : TcpHeader) (n : ℕ) : Type 0 where
  pub header : h.header_length ≡ h.data_offset * 4
  pub offset_least : 5 ≤ h.data_offset
  pub offset_most : h.data_offset < 16
  pub consumed : n ≡ h.header_length
  pub within : h.header_length ≤ len

tcp_rest-keeps :
    (buf : Buffer) (at : ℕ) (h : TcpHeader) {r : ProtocolErrorCode × TcpHeader × ℕ}
    → tcp_rest buf at h ≡ some r
    → (r.1.data_offset ≡ h.data_offset)
      × (r.1.header_length ≡ h.header_length)
      × (r.2 ≡ h.header_length)
unfolding tcp_rest
tcp_rest-keeps buf at h eq = ground arith

pub parse_tcp-TcpFits :
    (buf : Buffer) (at len : ℕ) (h0 : TcpHeader) {r : ProtocolErrorCode × TcpHeader × ℕ}
    → parse_tcp buf at len h0 ≡ some r
    → r.0 ≡ success
    → TcpFits len r.1 r.2
unfolding parse_tcp
parse_tcp-TcpFits buf at len h0 eq good = grind (arith, tcp_rest-keeps)

pub parse_udp-some :
    (buf : Buffer) (at len : ℕ) (h : UdpHeader)
    → at + len ≤ length buf
    → parse_udp buf at len h ≢ none
unfolding parse_udp
parse_udp-some buf at len h fits = ground (
  arith,
  read_u16_be-some buf at,
  read_u16_be-some buf (at + 2),
  read_u16_be-some buf (at + 4),
  read_u16_be-some buf (at + 6),
)

pub parse_udp-fits :
    (buf : Buffer) (at len : ℕ) (h0 : UdpHeader) {r : ProtocolErrorCode × UdpHeader × ℕ}
    → parse_udp buf at len h0 ≡ some r
    → r.0 ≡ success
    → (r.2 ≡ 8) × (8 ≤ r.1.length) × (r.1.length ≤ len)
unfolding parse_udp
parse_udp-fits buf at len h0 eq good = ground arith
