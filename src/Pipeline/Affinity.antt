-- ===== src/Pipeline/Affinity.antt =====
-- The producer routes every flow packet by the key under which the worker files it.
use packet_dpi_engine.Base.{
  ℕ, ◌+◌, ◌-◌, ◌≤◌, ◌≡◌, inl, inr, refl, Bool, true, ◌||◌, [], ◌∷◌, some, length, arith,
}
use packet_dpi_engine.Memory.{Buffer, read_u16_be, AllBytes, read_u8-nibble, read_u32_be-nibble}
use packet_dpi_engine.Protocols.Types.{
  ParsedPacket, is_valid, is_tcp, is_udp, tcp_l4, udp_l4, new_ethernet,
}
use packet_dpi_engine.Protocols.HeaderBounds.{parse_ipv4-Ipv4Fits, parse_ipv6-fits}
use packet_dpi_engine.Protocols.Inversion.{parse_l3_ipv4_inv, parse_l3_ipv6_inv, parse_bytes_inv}
use packet_dpi_engine.Protocols.Payload.{parse_l4-Segment}
use packet_dpi_engine.Protocols.Reads.{
  parse_ethernet_reads, parse_ipv4-Ipv4Reads, parse_ipv6_reads, parse_tcp_reads, parse_udp_reads,
}
use packet_dpi_engine.Protocols.Parser.{
  parse_l4_tcp, parse_l4_udp, parse_l4_other, parse_l4, parse_l3_ipv4, parse_l3_ipv6, parse_bytes,
  parse,
}
use packet_dpi_engine.Flow.Address.{IpAddress, v4, v6}
use packet_dpi_engine.Flow.Key.{from_packet, from_ports}
use packet_dpi_engine.Pipeline.Router.{
  extract_ports, extract_ipv4, extract_ipv6, extract_l3, extract_flow_key,
}

-- A packet that the flow table tracks.
abbrev pub is_flow_packet : ParsedPacket → Bool
is_flow_packet p = is_tcp p || is_udp p

module _ (buf : Buffer) (l4 n : ℕ) (p : ParsedPacket) where
  tcp_ports :
      {q : ParsedPacket}
      → parse_l4_tcp buf l4 n p ≡ some q
      → is_valid q ≡ true
      → (q.l4_type ≡ tcp_l4)
        × (read_u16_be buf l4 ≡ some q.tcp.src_port)
        × (read_u16_be buf (l4 + 2) ≡ some q.tcp.dst_port)
        × (20 ≤ n)
  unfolding parse_l4_tcp
  tcp_ports eq ok = grind (arith, parse_tcp_reads)

  udp_ports :
      {q : ParsedPacket}
      → parse_l4_udp buf l4 n p ≡ some q
      → is_valid q ≡ true
      → (q.l4_type ≡ udp_l4)
        × (read_u16_be buf l4 ≡ some q.udp.src_port)
        × (read_u16_be buf (l4 + 2) ≡ some q.udp.dst_port)
        × (8 ≤ n)
  unfolding parse_l4_udp
  udp_ports eq ok = grind (arith, parse_udp_reads)

  extract_ports-from_ports :
      (len proto : ℕ) (src dst : IpAddress) {q : ParsedPacket}
      → l4 + n ≤ len
      → parse_l4 proto buf l4 n p ≡ some q
      → is_valid q ≡ true
      → is_flow_packet q ≡ true
      → extract_ports buf len l4 src dst proto ≡ some (some (from_ports q src dst proto).0)
  unfolding parse_l4 parse_l4_other extract_ports from_ports
  extract_ports-from_ports len proto src dst {q} fits eq ok tracked =
      ground (arith, tcp_ports {q = q}, udp_ports {q = q})

module _ (buf : Buffer) (len : ℕ) (bytes : AllBytes buf) (p : ParsedPacket) where
  extract_ipv4-from_packet :
      {q : ParsedPacket}
      → 14 ≤ len
      → parse_l3_ipv4 buf 14 (len - 14) p ≡ some q
      → is_valid q ≡ true
      → is_flow_packet q ≡ true
      → extract_ipv4 buf len 14 ≡ some (some (from_packet q).0)
  unfolding extract_ipv4 from_packet
  extract_ipv4-from_packet {q} least eq ok tracked =
      let (h, e, first, rest) = parse_l3_ipv4_inv buf 14 (len - 14) p eq ok in
      let fits = parse_ipv4-Ipv4Fits buf 14 (len - 14) p.ipv4 e refl in
      let reads = parse_ipv4-Ipv4Reads buf 14 (len - 14) p.ipv4 e refl in
      let keeps = (parse_l4-Segment _ _ _ _ _ rest ok).1 in
      let ports =
        extract_ports-from_ports buf _ _ _ len _ (v4 h.src_ip) (v4 h.dst_ip) (omega arith) rest ok
          tracked in
      ground (arith, fits, reads, keeps, ports, read_u8-nibble buf 14 bytes reads.version)

  extract_ipv6-from_packet :
      {q : ParsedPacket}
      → 14 ≤ len
      → parse_l3_ipv6 buf 14 (len - 14) p ≡ some q
      → is_valid q ≡ true
      → is_flow_packet q ≡ true
      → extract_ipv6 buf len 14 ≡ some (some (from_packet q).0)
  unfolding extract_ipv6 from_packet
  extract_ipv6-from_packet {q} least eq ok tracked =
      let (h, e, rest) = parse_l3_ipv6_inv buf 14 (len - 14) p eq ok in
      let fits = parse_ipv6-fits buf 14 (len - 14) p.ipv6 e refl in
      let reads = parse_ipv6_reads buf 14 (len - 14) p.ipv6 e refl in
      let keeps = (parse_l4-Segment _ _ _ _ _ rest ok).1 in
      let ports =
        extract_ports-from_ports buf _ _ _ len _ (v6 h.src_ip) (v6 h.dst_ip) (omega arith) rest ok
          tracked in
      ground (arith, fits, reads, keeps, ports, read_u32_be-nibble buf 14 bytes reads.0)

extract_flow_key-parse_bytes :
    (buf : Buffer) (len : ℕ) {q : ParsedPacket}
    → AllBytes buf
    → parse_bytes buf len ≡ some q
    → is_valid q ≡ true
    → is_flow_packet q ≡ true
    → extract_flow_key buf len ≡ some (some (from_packet q).0)
unfolding extract_flow_key extract_l3
extract_flow_key-parse_bytes buf len {q} bytes eq ok tracked =
    let (h, e, least, l3) = parse_bytes_inv buf len eq ok in
    let ethertype = parse_ethernet_reads buf 0 len new_ethernet e refl in
    elim l3 [
      | inl (kind, rest) ↦
          ground (arith, ethertype, extract_ipv4-from_packet buf len bytes _ least rest ok tracked)
      | inr (kind, rest) ↦
          ground (arith, ethertype, extract_ipv6-from_packet buf len bytes _ least rest ok tracked)
    ]

-- For every record of bytes whose packet the worker's parser accepts as TCP or UDP, the producer's
-- router extracts exactly the key under which the worker's flow table files the packet.
pub extract_flow_key-parse :
    (buf : Buffer) (p : ParsedPacket)
    → AllBytes buf
    → parse buf ≡ some p
    → is_valid p ≡ true
    → is_flow_packet p ≡ true
    → extract_flow_key buf (length buf) ≡ some (some (from_packet p).0)
unfolding parse
extract_flow_key-parse [] p bytes eq ok tracked = ground arith
extract_flow_key-parse (b ∷ bs) p bytes eq ok tracked =
    extract_flow_key-parse_bytes (b ∷ bs) (length (b ∷ bs)) bytes eq ok tracked
