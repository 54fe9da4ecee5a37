-- ===== src/Protocols/Reads.antt =====
-- Which bytes of the buffer the fields of an accepted header are.
use packet_dpi_engine.Base.{ℕ, ◌+◌, ◌*◌, ◌/◌, ◌%◌, ◌≤◌, ◌≡◌, some, arith}
use packet_dpi_engine.Memory.{Buffer, ◌>>=◌, read_u8, read_u16_be, read_u32_be, copy}
use packet_dpi_engine.Protocols.Types.{
  ProtocolErrorCode, success, EthernetHeader, Ipv4Header, Ipv6Header, TcpHeader, UdpHeader,
  ipv4_of_u32,
}
use packet_dpi_engine.Protocols.Headers.{
  parse_ethernet, ipv4_rest, parse_ipv4, parse_ipv6, tcp_rest, parse_tcp, parse_udp,
}

pub parse_ethernet_reads :
    (buf : Buffer) (at len : ℕ) (h0 : EthernetHeader) {r : ProtocolErrorCode × EthernetHeader × ℕ}
    → parse_ethernet buf at len h0 ≡ some r
    → r.0 ≡ success
    → read_u16_be buf (at + 12) ≡ some r.1.ethertype
unfolding parse_ethernet
parse_ethernet_reads buf at len h0 eq good = ground arith

-- The fields that a flow key is made of.
pub record Ipv4Reads (buf : Buffer) (at : ℕ) (h : Ipv4Header) : Type 0 where
  pub version : read_u8 buf at >>= (λ b. some (b / 16 % 16)) ≡ some 4
  pub ihl : read_u8 buf at >>= (λ b. some (b % 16 * 4)) ≡ some h.header_length
  pub offset : read_u16_be buf (at + 6) >>= (λ w. some (w % 8192)) ≡ some h.fragment_offset
  pub protocol : read_u8 buf (at + 9) ≡ some h.protocol
  pub src : read_u32_be buf (at + 12) >>= (λ w. some (ipv4_of_u32 w)) ≡ some h.src_ip
  pub dst : read_u32_be buf (at + 16) >>= (λ w. some (ipv4_of_u32 w)) ≡ some h.dst_ip

ipv4_rest_reads :
    (buf : Buffer) (at : ℕ) (h : Ipv4Header) {r : ProtocolErrorCode × Ipv4Header × ℕ}
    → ipv4_rest buf at h ≡ some r
    → (read_u16_be buf (at + 6) >>= (λ w. some (w % 8192)) ≡ some r.1.fragment_offset)
      × (read_u8 buf (at + 9) ≡ some r.1.protocol)
      × (read_u32_be buf (at + 12) >>= (λ w. some (ipv4_of_u32 w)) ≡ some r.1.src_ip)
      × (read_u32_be buf (at + 16) >>= (λ w. some (ipv4_of_u32 w)) ≡ some r.1.dst_ip)
      × (r.1.header_length ≡ h.header_length)
unfolding ipv4_rest
ipv4_rest_reads buf at h eq = ground arith

pub parse_ipv4-Ipv4Reads :
    (buf : Buffer) (at len : ℕ) (h0 : Ipv4Header) {r : ProtocolErrorCode × Ipv4Header × ℕ}
    → parse_ipv4 buf at len h0 ≡ some r
    → r.0 ≡ success
    → Ipv4Reads buf at r.1
unfolding parse_ipv4
parse_ipv4-Ipv4Reads buf at len h0 eq good = grind (arith, ipv4_rest_reads)

pub parse_ipv6_reads :
    (buf : Buffer) (at len : ℕ) (h0 : Ipv6Header) {r : ProtocolErrorCode × Ipv6Header × ℕ}
    → parse_ipv6 buf at len h0 ≡ some r
    → r.0 ≡ success
    → (read_u32_be buf at >>= (λ w. some (w / 268435456 % 16)) ≡ some 6)
      × (read_u8 buf (at + 6) ≡ some r.1.next_header)
      × (copy buf (at + 8) 16 ≡ some r.1.src_ip)
      × (copy buf (at + 24) 16 ≡ some r.1.dst_ip)
unfolding parse_ipv6
parse_ipv6_reads buf at len h0 eq good = ground arith

pub parse_tcp_reads :
    (buf : Buffer) (at len : ℕ) (h0 : TcpHeader) {r : ProtocolErrorCode × TcpHeader × ℕ}
    → parse_tcp buf at len h0 ≡ some r
    → r.0 ≡ success
    → (read_u16_be buf at ≡ some r.1.src_port)
      × (read_u16_be buf (at + 2) ≡ some r.1.dst_port)
      × (20 ≤ len)
unfolding parse_tcp tcp_rest
parse_tcp_reads buf at len h0 eq good = ground arith

pub parse_udp_reads :
    (buf : Buffer) (at len : ℕ) (h0 : UdpHeader) {r : ProtocolErrorCode × UdpHeader × ℕ}
    → parse_udp buf at len h0 ≡ some r
    → r.0 ≡ success
    → (read_u16_be buf at ≡ some r.1.src_port)
      × (read_u16_be buf (at + 2) ≡ some r.1.dst_port)
      × (8 ≤ len)
unfolding parse_udp
parse_udp_reads buf at len h0 eq good = ground arith
