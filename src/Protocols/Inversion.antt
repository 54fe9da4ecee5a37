-- ===== src/Protocols/Inversion.antt =====
-- How a packet that `parse` accepts came about: the header parser that succeeded on each layer.
use packet_dpi_engine.Base.{ℕ, ◌+◌, ◌-◌, ◌≤◌, ◌≡◌, ◌⊎◌, inl, inr, true, some, arith, Option-cases}
use packet_dpi_engine.Memory.{Buffer}
use packet_dpi_engine.Protocols.Types.{
  ParsedPacket, EthernetHeader, Ipv4Header, Ipv6Header, new_packet, new_ethernet, is_valid, success,
  ipv4_l3, ipv6_l3, ethertype_ipv4, ethertype_ipv6,
}
use packet_dpi_engine.Protocols.HeaderBounds.{
  parse_ethernet-fits, parse_ipv4-Ipv4Fits, parse_ipv6-fits,
}
use packet_dpi_engine.Protocols.Headers.{parse_ethernet, parse_ipv4, parse_ipv6}
use packet_dpi_engine.Protocols.Parser.{
  parse_l4, parse_fragment, parse_l3_ipv4, parse_l3_ipv6, parse_bytes,
}

module _ (buf : Buffer) (l3 n : ℕ) (p : ParsedPacket) where
  pub parse_l3_ipv4_inv :
      {q : ParsedPacket}
      → parse_l3_ipv4 buf l3 n p ≡ some q
      → is_valid q ≡ true
      → (h : Ipv4Header) × (parse_ipv4 buf l3 n p.ipv4 ≡ some (success, h, h.header_length))
        × (h.fragment_offset ≡ 0)
        × (parse_l4 h.protocol buf
              (l3 + h.header_length)
              (h.total_length - h.header_length)
              (record p { l3_type = ipv4_l3; ipv4 = h })
            ≡ some q)
  unfolding parse_l3_ipv4 parse_fragment
  parse_l3_ipv4_inv {q} eq ok = elim (Option-cases (parse_ipv4 buf l3 n p.ipv4)) [
    | inl e ↦ absurd (ground arith)
    | inr (r, e) ↦ (
      r.1,
      ground (arith, parse_ipv4-Ipv4Fits buf l3 n p.ipv4 e),
      ground arith,
      ground (arith, parse_ipv4-Ipv4Fits buf l3 n p.ipv4 e),
    )
  ]

  pub parse_l3_ipv6_inv :
      {q : ParsedPacket}
      → parse_l3_ipv6 buf l3 n p ≡ some q
      → is_valid q ≡ true
      → (h : Ipv6Header) × (parse_ipv6 buf l3 n p.ipv6 ≡ some (success, h, 40))
        × (parse_l4 h.next_header buf
              (l3 + 40)
              h.payload_length
              (record p { l3_type = ipv6_l3; ipv6 = h })
            ≡ some q)
  unfolding parse_l3_ipv6
  parse_l3_ipv6_inv {q} eq ok = elim (Option-cases (parse_ipv6 buf l3 n p.ipv6)) [
    | inl e ↦ absurd (ground arith)
    | inr (r, e) ↦ (
      r.1,
      ground (arith, parse_ipv6-fits buf l3 n p.ipv6 e),
      ground (arith, parse_ipv6-fits buf l3 n p.ipv6 e),
    )
  ]

pub parse_bytes_inv :
    (buf : Buffer) (len : ℕ) {q : ParsedPacket}
    → parse_bytes buf len ≡ some q
    → is_valid q ≡ true
    → (h : EthernetHeader) × (parse_ethernet buf 0 len new_ethernet ≡ some (success, h, 14))
      × (14 ≤ len)
      × ((h.ethertype ≡ ethertype_ipv4)
            × (parse_l3_ipv4 buf 14 (len - 14) (record new_packet { ethernet = h }) ≡ some q)
          ⊎ (h.ethertype ≡ ethertype_ipv6)
            × (parse_l3_ipv6 buf 14 (len - 14) (record new_packet { ethernet = h }) ≡ some q))
unfolding parse_bytes
parse_bytes_inv buf len {q} eq ok = elim (Option-cases (parse_ethernet buf 0 len new_ethernet)) [
  | inl e ↦ absurd (ground arith)
  | inr (r, e) ↦ (
    r.1,
    ground (arith, parse_ethernet-fits buf 0 len new_ethernet e),
    ground (arith, parse_ethernet-fits buf 0 len new_ethernet e),
    ground (arith, parse_ethernet-fits buf 0 len new_ethernet e),
  )
]
