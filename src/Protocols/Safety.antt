-- ===== src/Protocols/Safety.antt =====
-- `ProtocolParser::parse` never reads outside the captured bytes.
use packet_dpi_engine.Base.{ℕ, ◌+◌, ◌≤◌, ◌≢◌, [], ◌∷◌, none, length, arith}
use packet_dpi_engine.Memory.{Buffer, copy-some}
use packet_dpi_engine.Protocols.Types.{ParsedPacket, new_ethernet}
use packet_dpi_engine.Protocols.HeaderBounds.{
  parse_ethernet-some, parse_ethernet-fits, parse_ipv4-some, parse_ipv6-some, parse_tcp-some,
  parse_udp-some, parse_ipv4-Ipv4Fits, parse_ipv6-fits, parse_tcp-TcpFits, parse_udp-fits,
}
use packet_dpi_engine.Protocols.Parser.{
  parse_l4_tcp, parse_l4_udp, parse_l4_other, parse_l4, parse_fragment, parse_l3_ipv4,
  parse_l3_ipv6, parse_bytes, parse,
}

module _ (buf : Buffer) (l4 l4_length : ℕ) (p : ParsedPacket)
    (fits : l4 + l4_length ≤ length buf) where
  parse_l4_tcp-some : parse_l4_tcp buf l4 l4_length p ≢ none
  unfolding parse_l4_tcp
  parse_l4_tcp-some = grind (
    arith,
    parse_tcp-some buf l4 l4_length p.tcp,
    parse_tcp-TcpFits buf l4 l4_length p.tcp,
    copy-some,
  )

  parse_l4_udp-some : parse_l4_udp buf l4 l4_length p ≢ none
  unfolding parse_l4_udp
  parse_l4_udp-some = grind (
    arith,
    parse_udp-some buf l4 l4_length p.udp,
    parse_udp-fits buf l4 l4_length p.udp,
    copy-some,
  )

  parse_l4-some : (proto : ℕ) → parse_l4 proto buf l4 l4_length p ≢ none
  unfolding parse_l4 parse_l4_other
  parse_l4-some proto =
      ground (arith, parse_l4_tcp-some, parse_l4_udp-some, copy-some buf l4 l4_length)

  parse_fragment-some : parse_fragment buf l4 l4_length p ≢ none
  unfolding parse_fragment
  parse_fragment-some = ground (arith, copy-some buf l4 l4_length)

module _ (buf : Buffer) (l3 len : ℕ) (p : ParsedPacket) (fits : l3 + len ≤ length buf) where
  parse_l3_ipv4-some : parse_l3_ipv4 buf l3 len p ≢ none
  unfolding parse_l3_ipv4
  parse_l3_ipv4-some = grind (
    arith,
    parse_ipv4-some buf l3 len p.ipv4,
    parse_ipv4-Ipv4Fits buf l3 len p.ipv4,
    parse_fragment-some,
    parse_l4-some,
  )

  parse_l3_ipv6-some : parse_l3_ipv6 buf l3 len p ≢ none
  unfolding parse_l3_ipv6
  parse_l3_ipv6-some =
      grind
        (arith, parse_ipv6-some buf l3 len p.ipv6, parse_ipv6-fits buf l3 len p.ipv6, parse_l4-some)

-- For any bytes, and any length that does not exceed them, every read and every view that the parser
-- makes lies inside the buffer.
pub parse_bytes-ne-none : (buf : Buffer) (len : ℕ) → len ≤ length buf → parse_bytes buf len ≢ none
unfolding parse_bytes
parse_bytes-ne-none buf len h = grind (
  arith,
  parse_ethernet-some buf 0 len new_ethernet,
  parse_ethernet-fits buf 0 len new_ethernet,
  parse_l3_ipv4-some,
  parse_l3_ipv6-some,
)

-- So parsing a captured record never leaves its payload.
pub parse-ne-none : (buf : Buffer) → parse buf ≢ none
unfolding parse
parse-ne-none [] = λ e. cc
parse-ne-none (b ∷ bs) = parse_bytes-ne-none (b ∷ bs) (length (b ∷ bs)) (omega arith)
