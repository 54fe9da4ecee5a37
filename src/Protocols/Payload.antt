-- ===== src/Protocols/Payload.antt =====
-- What a packet that `parse` accepts is made of: its layers, and the bytes that each layer takes.
use packet_dpi_engine.Base.{
  ℕ, ◌+◌, ◌-◌, ◌*◌, ◌≤◌, ◌≡◌, ◌⊎◌, inl, inr, refl, true, [], ◌∷◌, some, length, arith, subst,
}
use packet_dpi_engine.Memory.{Buffer, copy-length}
use packet_dpi_engine.Protocols.Types.{
  ParsedPacket, is_valid, tcp_l4, udp_l4, other_l4, ipv4_l3, ipv6_l3,
}
use packet_dpi_engine.Protocols.HeaderBounds.{
  parse_ipv4-Ipv4Fits, parse_ipv6-fits, parse_tcp-TcpFits, parse_udp-fits,
}
use packet_dpi_engine.Protocols.Inversion.{parse_l3_ipv4_inv, parse_l3_ipv6_inv, parse_bytes_inv}
use packet_dpi_engine.Protocols.Parser.{
  parse_l4_tcp, parse_l4_udp, parse_l4_other, parse_l4, parse_l3_ipv4, parse_l3_ipv6, parse_bytes,
  parse,
}

-- How the bytes of a layer 4 segment of `n` bytes are used: header and payload take all of them,
-- except that a UDP datagram may be shorter than the segment.
pub record Segment (p : ParsedPacket) (n : ℕ) : Type 0 where
  pub kind : (p.l4_type ≡ tcp_l4) ⊎ (p.l4_type ≡ udp_l4) ⊎ (p.l4_type ≡ other_l4)
  pub tcp_header : p.l4_type ≡ tcp_l4 → p.tcp.header_length ≡ p.tcp.data_offset * 4
  pub tcp_least : p.l4_type ≡ tcp_l4 → 20 ≤ p.tcp.header_length
  pub tcp_bytes : p.l4_type ≡ tcp_l4 → p.tcp.header_length + length p.l7_payload ≡ n
  pub udp_bytes : p.l4_type ≡ udp_l4 → 8 + length p.l7_payload ≡ p.udp.length
  pub udp_within : p.l4_type ≡ udp_l4 → p.udp.length ≤ n
  pub other_bytes : p.l4_type ≡ other_l4 → length p.l7_payload ≡ n

-- What the layer 4 branches leave of the packet that they are given.
pub record KeepsL3 (p q : ParsedPacket) : Type 0 where
  pub l3_type : q.l3_type ≡ p.l3_type
  pub ipv4 : q.ipv4 ≡ p.ipv4
  pub ipv6 : q.ipv6 ≡ p.ipv6

module _ (buf : Buffer) (l4 n : ℕ) (p : ParsedPacket) where
  parse_l4_tcp-Segment :
      {q : ParsedPacket}
      → parse_l4_tcp buf l4 n p ≡ some q
      → is_valid q ≡ true
      → Segment q n × KeepsL3 p q
  unfolding parse_l4_tcp
  parse_l4_tcp-Segment eq ok = grind (arith, parse_tcp-TcpFits, copy-length)

  parse_l4_udp-Segment :
      {q : ParsedPacket}
      → parse_l4_udp buf l4 n p ≡ some q
      → is_valid q ≡ true
      → Segment q n × KeepsL3 p q
  unfolding parse_l4_udp
  parse_l4_udp-Segment eq ok = grind (arith, parse_udp-fits, copy-length)

  pub parse_l4-Segment :
      (proto : ℕ) {q : ParsedPacket}
      → parse_l4 proto buf l4 n p ≡ some q
      → is_valid q ≡ true
      → Segment q n × KeepsL3 p q
  unfolding parse_l4 parse_l4_other
  parse_l4-Segment proto {q} eq ok = ground (
    arith,
    parse_l4_tcp-Segment {q = q},
    parse_l4_udp-Segment {q = q},
    copy-length buf l4 n {xs = q.l7_payload},
  )

-- The layers of a packet that was accepted out of `len` captured bytes.
pub record Layers (len : ℕ) (p : ParsedPacket) : Type 0 where
  pub kind : (p.l3_type ≡ ipv4_l3) ⊎ (p.l3_type ≡ ipv6_l3)
  pub ipv4_version : p.l3_type ≡ ipv4_l3 → p.ipv4.version ≡ 4
  pub ipv4_first : p.l3_type ≡ ipv4_l3 → p.ipv4.fragment_offset ≡ 0
  pub ipv4_header : p.l3_type ≡ ipv4_l3 → p.ipv4.header_length ≡ p.ipv4.ihl * 4
  pub ipv4_least : p.l3_type ≡ ipv4_l3 → 20 ≤ p.ipv4.header_length
  pub ipv4_total : p.l3_type ≡ ipv4_l3 → p.ipv4.header_length ≤ p.ipv4.total_length
  pub ipv4_within : p.l3_type ≡ ipv4_l3 → 14 + p.ipv4.total_length ≤ len
  pub ipv4_segment : p.l3_type ≡ ipv4_l3 → Segment p (p.ipv4.total_length - p.ipv4.header_length)
  pub ipv6_version : p.l3_type ≡ ipv6_l3 → p.ipv6.version ≡ 6
  pub ipv6_within : p.l3_type ≡ ipv6_l3 → 54 + p.ipv6.payload_length ≤ len
  pub ipv6_segment : p.l3_type ≡ ipv6_l3 → Segment p p.ipv6.payload_length

module _ (buf : Buffer) (l3 n : ℕ) (p : ParsedPacket) where
  parse_l3_ipv4-Layers :
      {q : ParsedPacket} → parse_l3_ipv4 buf l3 n p ≡ some q → is_valid q ≡ true → Layers (14 + n) q
  parse_l3_ipv4-Layers {q} eq ok =
      let (h, e, first, rest) = parse_l3_ipv4_inv buf l3 n p eq ok in
      ground (arith, parse_ipv4-Ipv4Fits buf l3 n p.ipv4 e refl, parse_l4-Segment _ _ _ _ _ rest ok)

  parse_l3_ipv6-Layers :
      {q : ParsedPacket} → parse_l3_ipv6 buf l3 n p ≡ some q → is_valid q ≡ true → Layers (14 + n) q
  parse_l3_ipv6-Layers {q} eq ok =
      let (h, e, rest) = parse_l3_ipv6_inv buf l3 n p eq ok in
      ground (arith, parse_ipv6-fits buf l3 n p.ipv6 e refl, parse_l4-Segment _ _ _ _ _ rest ok)

parse_bytes-Layers :
    (buf : Buffer) (len : ℕ) {q : ParsedPacket}
    → parse_bytes buf len ≡ some q
    → is_valid q ≡ true
    → Layers len q
parse_bytes-Layers buf len {q} eq ok =
    let (h, _, least, l3) = parse_bytes_inv buf len eq ok in
    let whole : 14 + (len - 14) ≡ len = omega arith in
    subst (λ n. Layers n q) whole
      (elim l3 [
        | inl (_, e) ↦ parse_l3_ipv4-Layers buf 14 (len - 14) _ e ok
        | inr (_, e) ↦ parse_l3_ipv6-Layers buf 14 (len - 14) _ e ok
      ])

-- A packet that `parse` accepts lies, with all its headers and its payload, in the captured bytes:
-- an IPv4 packet is version 4, no later fragment, with a header of `ihl` words of 4 bytes inside
-- its total length; an IPv6 packet is version 6; and header and payload of layer 4 fill what the
-- IP header announces (a UDP datagram at most fills it), so padding of the frame is not payload.
pub parse-Layers :
    (buf : Buffer) (p : ParsedPacket)
    → parse buf ≡ some p
    → is_valid p ≡ true
    → Layers (length buf) p
unfolding parse
parse-Layers [] p eq ok = ground arith
parse-Layers (b ∷ bs) p eq ok = parse_bytes-Layers (b ∷ bs) (length (b ∷ bs)) eq ok
