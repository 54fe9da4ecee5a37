-- ===== src/Protocols/Parser.antt =====
-- `ProtocolParser::parse` of src/protocols/protocol_parser.cpp: layer 2 up to layer 4.
use packet_dpi_engine.Base.{ℕ, ◌+◌, ◌-◌, [], ◌∷◌, Option, some, ◌==◌, if◌then◌else◌, length, not}
use packet_dpi_engine.Memory.{Buffer, ◌>>=◌, copy}
use packet_dpi_engine.Protocols.Types.{
  success, empty_packet, unsupported_ether_type, ipv4_fragmented_non_initial, ParsedPacket, ipv4_l3,
  ipv6_l3, unsupported_l3, tcp_l4, udp_l4, ipv4_fragment, other_l4, new_packet, is_success,
  is_subsequent_fragment, ethertype_ipv4, ethertype_ipv6, ipproto_tcp, ipproto_udp,
}
use packet_dpi_engine.Protocols.Headers.{
  parse_ethernet, parse_ipv4, parse_ipv6, parse_tcp, parse_udp,
}

-- The layer 4 branches are the same text under IPv4 and IPv6.
unfoldable pub parse_l4_tcp : Buffer → ℕ → ℕ → ParsedPacket → Option ParsedPacket
parse_l4_tcp buf l4 l4_length p = do
  (err, tcp, consumed) ← parse_tcp buf l4 l4_length p.tcp
  let p' = record p { l4_type = tcp_l4; tcp = tcp }
  if not (is_success err) then some (record p' { error_code = err }) else do
    payload ← copy buf (l4 + consumed) (l4_length - consumed)
    some (record p' { l7_payload = payload; error_code = success })

unfoldable pub parse_l4_udp : Buffer → ℕ → ℕ → ParsedPacket → Option ParsedPacket
parse_l4_udp buf l4 l4_length p = do
  (err, udp, consumed) ← parse_udp buf l4 l4_length p.udp
  let p' = record p { l4_type = udp_l4; udp = udp }
  if not (is_success err) then some (record p' { error_code = err }) else do
    payload ← copy buf (l4 + consumed) (udp.length - consumed)
    some (record p' { l7_payload = payload; error_code = success })

unfoldable pub parse_l4_other : Buffer → ℕ → ℕ → ParsedPacket → Option ParsedPacket
parse_l4_other buf l4 l4_length p = do
  payload ← copy buf l4 l4_length
  some (record p { l4_type = other_l4; l7_payload = payload; error_code = success })

unfoldable pub parse_l4 : ℕ → Buffer → ℕ → ℕ → ParsedPacket → Option ParsedPacket
parse_l4 proto buf l4 l4_length p =
    if proto == ipproto_tcp
    then parse_l4_tcp buf l4 l4_length p
    else if proto == ipproto_udp
    then parse_l4_udp buf l4 l4_length p
    else parse_l4_other buf l4 l4_length p

-- A fragment with a positive offset has no layer 4 header: its bytes are the payload.
unfoldable pub parse_fragment : Buffer → ℕ → ℕ → ParsedPacket → Option ParsedPacket
parse_fragment buf l4 l4_length p = do
  payload ← copy buf l4 l4_length
  some (record p {
    l4_type = ipv4_fragment;
    l7_payload = payload;
    error_code = ipv4_fragmented_non_initial;
  })

unfoldable pub parse_l3_ipv4 : Buffer → ℕ → ℕ → ParsedPacket → Option ParsedPacket
parse_l3_ipv4 buf l3 l3_length p = do
  (err, ipv4, consumed) ← parse_ipv4 buf l3 l3_length p.ipv4
  let p' = record p { l3_type = ipv4_l3; ipv4 = ipv4 }
  if not (is_success err)
      then some (record p' { error_code = err })
      else if is_subsequent_fragment ipv4
      then parse_fragment buf (l3 + consumed) (ipv4.total_length - consumed) p'
      else parse_l4 ipv4.protocol buf (l3 + consumed) (ipv4.total_length - consumed) p'

unfoldable pub parse_l3_ipv6 : Buffer → ℕ → ℕ → ParsedPacket → Option ParsedPacket
parse_l3_ipv6 buf l3 l3_length p = do
  (err, ipv6, consumed) ← parse_ipv6 buf l3 l3_length p.ipv6
  let p' = record p { l3_type = ipv6_l3; ipv6 = ipv6 }
  if not (is_success err)
      then some (record p' { error_code = err })
      else parse_l4 ipv6.next_header buf (l3 + consumed) ipv6.payload_length p'

-- `parse(data, length)`. The buffer may be longer than the `length` that is passed.
unfoldable pub parse_bytes : Buffer → ℕ → Option ParsedPacket
parse_bytes buf len =
    if len == 0 then some (record new_packet { error_code = empty_packet }) else do
      (err, eth, consumed) ← parse_ethernet buf 0 len new_packet.ethernet
      let p = record new_packet { ethernet = eth }
      if not (is_success err)
          then some (record p { error_code = err })
          else if eth.ethertype == ethertype_ipv4
          then parse_l3_ipv4 buf consumed (len - consumed) p
          else if eth.ethertype == ethertype_ipv6
          then parse_l3_ipv6 buf consumed (len - consumed) p
          else some (record p { l3_type = unsupported_l3; error_code = unsupported_ether_type })

-- `parse(record)`, on the payload of the record.
unfoldable pub parse : Buffer → Option ParsedPacket
parse [] = some (record new_packet { error_code = empty_packet })
parse (b ∷ bs) = parse_bytes (b ∷ bs) (length (b ∷ bs))
