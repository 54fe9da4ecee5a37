-- ===== src/Protocols/Headers.antt =====
-- The header parsers of src/protocols/protocol_parser.cpp. A parser takes the buffer with the offset
-- of its `data` pointer, the `length` that it was told, and the header that it fills; it returns the
-- error code, the header as far as it was filled, and `consumed`, which callers set to 0.
-- The outer `Option` is `none` where the C++ would read outside the buffer.
use packet_dpi_engine.Base.{
  ℕ, ◌+◌, ◌-◌, ◌*◌, ◌/◌, ◌%◌, [], Option, some, ltb, ◌==◌, if◌then◌else◌, not,
}
use packet_dpi_engine.Memory.{Buffer, ◌>>=◌, read_u8, read_u16_be, read_u32_be, copy, bit}
use packet_dpi_engine.Protocols.Types.{
  ProtocolErrorCode, success, truncated_ethernet, truncated_ipv4, invalid_ipv4_version,
  invalid_ipv4_ihl, ipv4_total_length_too_small, ipv4_packet_too_short_for_total_length,
  truncated_ipv6, invalid_ipv6_version, ipv6_packet_too_short_for_payload, truncated_tcp,
  invalid_tcp_data_offset, tcp_segment_too_short_for_data_offset, truncated_udp, invalid_udp_length,
  udp_packet_too_short_for_length, EthernetHeader, Ipv4Header, Ipv6Header, TcpHeader, UdpHeader,
  TcpFlags, ipv4_of_u32,
}

unfoldable pub parse_ethernet :
    Buffer → ℕ → ℕ → EthernetHeader → Option (ProtocolErrorCode × EthernetHeader × ℕ)
parse_ethernet buf at len h = if ltb len 14 then some (truncated_ethernet, h, 0) else do
  dst ← copy buf at 6
  src ← copy buf (at + 6) 6
  ethertype ← read_u16_be buf (at + 12)
  some (success, record { dst_mac = dst; src_mac = src; ethertype = ethertype }, 14)

-- From `identification` to the end of `parse_ipv4`, once the lengths have been checked.
unfoldable pub ipv4_rest : Buffer → ℕ → Ipv4Header → Option (ProtocolErrorCode × Ipv4Header × ℕ)
ipv4_rest buf at h = do
  identification ← read_u16_be buf (at + 4)
  flags_frag ← read_u16_be buf (at + 6)
  ttl ← read_u8 buf (at + 8)
  protocol ← read_u8 buf (at + 9)
  checksum ← read_u16_be buf (at + 10)
  src ← read_u32_be buf (at + 12)
  dst ← read_u32_be buf (at + 16)
  options ← if ltb 5 h.ihl then copy buf (at + 20) (h.header_length - 20) else some []
  some (
    success,
    record h {
      identification = identification;
      flags = record {
        reserved = bit flags_frag 15;
        dont_fragment = bit flags_frag 14;
        more_fragments = bit flags_frag 13;
      };
      fragment_offset = flags_frag % 8192;
      fragment_offset_bytes = flags_frag % 8192 * 8 % 65536;
      ttl = ttl;
      protocol = protocol;
      checksum = checksum;
      src_ip = ipv4_of_u32 src;
      dst_ip = ipv4_of_u32 dst;
      options = options;
    },
    h.header_length,
  )

unfoldable pub parse_ipv4 :
    Buffer → ℕ → ℕ → Ipv4Header → Option (ProtocolErrorCode × Ipv4Header × ℕ)
parse_ipv4 buf at len h0 = if ltb len 20 then some (truncated_ipv4, h0, 0) else do
  ver_ihl ← read_u8 buf at
  let h1 = record h0 { version = ver_ihl / 16 % 16 }
  if not (h1.version == 4) then some (invalid_ipv4_version, h1, 0) else do
    let h2 = record h1 { ihl = ver_ihl % 16 }
    if ltb h2.ihl 5 then some (invalid_ipv4_ihl, h2, 0) else do
      let h3 = record h2 { header_length = h2.ihl * 4 }
      if ltb len h3.header_length then some (truncated_ipv4, h3, 0) else do
        tos ← read_u8 buf (at + 1)
        total_length ← read_u16_be buf (at + 2)
        let h4 = record h3 { dscp = tos / 4 % 64; ecn = tos % 4; total_length = total_length }
        if ltb total_length h4.header_length
            then some (ipv4_total_length_too_small, h4, 0)
            else if ltb len total_length
            then some (ipv4_packet_too_short_for_total_length, h4, 0)
            else ipv4_rest buf at h4

unfoldable pub parse_ipv6 :
    Buffer → ℕ → ℕ → Ipv6Header → Option (ProtocolErrorCode × Ipv6Header × ℕ)
parse_ipv6 buf at len h0 = if ltb len 40 then some (truncated_ipv6, h0, 0) else do
  v_tc_fl ← read_u32_be buf at
  let h1 = record h0 { version = v_tc_fl / 268435456 % 16 }
  if not (h1.version == 6) then some (invalid_ipv6_version, h1, 0) else do
    payload_length ← read_u16_be buf (at + 4)
    next_header ← read_u8 buf (at + 6)
    hop_limit ← read_u8 buf (at + 7)
    src ← copy buf (at + 8) 16
    dst ← copy buf (at + 24) 16
    let h2 = record h1 {
      traffic_class = v_tc_fl / 1048576 % 256;
      flow_label = v_tc_fl % 1048576;
      payload_length = payload_length;
      next_header = next_header;
      hop_limit = hop_limit;
      src_ip = src;
      dst_ip = dst;
    }
    if ltb (len - 40) payload_length
        then some (ipv6_packet_too_short_for_payload, h2, 0)
        else some (success, h2, 40)

unfoldable pub flags_of : ℕ → TcpFlags
flags_of w = record {
  fin = bit w 0;
  syn = bit w 1;
  rst = bit w 2;
  psh = bit w 3;
  ack = bit w 4;
  urg = bit w 5;
  ece = bit w 6;
  cwr = bit w 7;
  raw = w % 256;
}

-- From the flags to the end of `parse_tcp`, once the lengths have been checked.
unfoldable pub tcp_rest : Buffer → ℕ → TcpHeader → Option (ProtocolErrorCode × TcpHeader × ℕ)
tcp_rest buf at h = do
  flags_word ← read_u16_be buf (at + 12)
  window ← read_u16_be buf (at + 14)
  checksum ← read_u16_be buf (at + 16)
  urgent ← read_u16_be buf (at + 18)
  options ← if ltb 5 h.data_offset then copy buf (at + 20) (h.header_length - 20) else some []
  some (
    success,
    record h {
      flags = flags_of flags_word;
      window_size = window;
      checksum = checksum;
      urgent_pointer = urgent;
      options = options;
    },
    h.header_length,
  )

unfoldable pub parse_tcp : Buffer → ℕ → ℕ → TcpHeader → Option (ProtocolErrorCode × TcpHeader × ℕ)
parse_tcp buf at len h0 = if ltb len 20 then some (truncated_tcp, h0, 0) else do
  src_port ← read_u16_be buf at
  dst_port ← read_u16_be buf (at + 2)
  seq_num ← read_u32_be buf (at + 4)
  ack_num ← read_u32_be buf (at + 8)
  offset_byte ← read_u8 buf (at + 12)
  let h1 = record h0 {
    src_port = src_port;
    dst_port = dst_port;
    seq_num = seq_num;
    ack_num = ack_num;
    data_offset = offset_byte / 16 % 16;
  }
  if ltb h1.data_offset 5 then some (invalid_tcp_data_offset, h1, 0) else do
    let h2 = record h1 { header_length = h1.data_offset * 4 }
    if ltb len h2.header_length
        then some (tcp_segment_too_short_for_data_offset, h2, 0)
        else tcp_rest buf at h2

unfoldable pub parse_udp : Buffer → ℕ → ℕ → UdpHeader → Option (ProtocolErrorCode × UdpHeader × ℕ)
parse_udp buf at len h0 = if ltb len 8 then some (truncated_udp, h0, 0) else do
  src_port ← read_u16_be buf at
  dst_port ← read_u16_be buf (at + 2)
  length ← read_u16_be buf (at + 4)
  checksum ← read_u16_be buf (at + 6)
  let h1 = record h0 {
    src_port = src_port;
    dst_port = dst_port;
    length = length;
    checksum = checksum;
  }
  if ltb length 8
      then some (invalid_udp_length, h1, 0)
      else if ltb len length
      then some (udp_packet_too_short_for_length, h1, 0)
      else some (success, h1, 8)
