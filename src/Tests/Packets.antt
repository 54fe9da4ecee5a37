-- ===== src/Tests/Packets.antt =====
-- Frames that the tests share.
use packet_dpi_engine.Base.{◌≡◌, refl, [], ◌∷◌, ◌++◌, some, replicate, true, false}
use packet_dpi_engine.Memory.{Buffer, read_u8, read_u16_be, read_u32_be, copy}
use packet_dpi_engine.Protocols.Types.{
  ParsedPacket, EthernetHeader, Ipv4Address, Ipv4Header, TcpFlags, ipv4_l3, tcp_l4, new_packet,
  new_ipv4, new_tcp, new_tcp_flags, ipv4_of_u32,
}
use packet_dpi_engine.Protocols.Headers.{
  parse_ethernet, parse_ipv4, ipv4_rest, parse_tcp, tcp_rest, flags_of,
}
use packet_dpi_engine.Protocols.Parser.{parse, parse_bytes, parse_l3_ipv4, parse_l4, parse_l4_tcp}

-- 10.0.0.1 to 10.0.0.2 by TCP, ports 4660 and 80, a SYN, with one byte of padding in the frame.
abbrev pub syn_frame : Buffer
syn_frame =
    replicate 12 2
    ++ (0x08 ∷ 0x00 ∷ [])
    ++ (0x45 ∷ 0 ∷ 0 ∷ 40 ∷ 0 ∷ 1 ∷ 0x40 ∷ 0 ∷ 64 ∷ 6 ∷ 0 ∷ 0 ∷ [])
    ++ (10 ∷ 0 ∷ 0 ∷ 1 ∷ 10 ∷ 0 ∷ 0 ∷ 2 ∷ [])
    ++ (0x12 ∷ 0x34 ∷ 0 ∷ 80 ∷ 0 ∷ 0 ∷ 0 ∷ 7 ∷ 0 ∷ 0 ∷ 0 ∷ 0 ∷ [])
    ++ (0x50 ∷ 2 ∷ 0x20 ∷ 0 ∷ 0 ∷ 0 ∷ 0 ∷ 0 ∷ 9 ∷ [])

-- The answer of 10.0.0.2: SYN and ACK.
abbrev pub syn_ack_frame : Buffer
syn_ack_frame =
    replicate 12 2
    ++ (0x08 ∷ 0x00 ∷ [])
    ++ (0x45 ∷ 0 ∷ 0 ∷ 40 ∷ 0 ∷ 1 ∷ 0x40 ∷ 0 ∷ 64 ∷ 6 ∷ 0 ∷ 0 ∷ [])
    ++ (10 ∷ 0 ∷ 0 ∷ 2 ∷ 10 ∷ 0 ∷ 0 ∷ 1 ∷ [])
    ++ (0 ∷ 80 ∷ 0x12 ∷ 0x34 ∷ 0 ∷ 0 ∷ 0 ∷ 7 ∷ 0 ∷ 0 ∷ 0 ∷ 0 ∷ [])
    ++ (0x50 ∷ 0x12 ∷ 0x20 ∷ 0 ∷ 0 ∷ 0 ∷ 0 ∷ 0 ∷ 9 ∷ [])

abbrev pub syn_flags : TcpFlags
syn_flags = record new_tcp_flags { syn = true; raw = 2 }

abbrev pub syn_ack_flags : TcpFlags
syn_ack_flags = record new_tcp_flags { syn = true; ack = true; raw = 0x12 }

abbrev pub ack_flags : TcpFlags
ack_flags = record new_tcp_flags { ack = true; raw = 0x10 }

abbrev pub fin_flags : TcpFlags
fin_flags = record new_tcp_flags { fin = true; raw = 1 }

abbrev pub host_a : Ipv4Address
host_a = record { byte0 = 10; byte1 = 0; byte2 = 0; byte3 = 1 }

abbrev pub host_b : Ipv4Address
host_b = record { byte0 = 10; byte1 = 0; byte2 = 0; byte3 = 2 }

abbrev frame_ethernet : EthernetHeader
frame_ethernet = record { dst_mac = replicate 6 2; src_mac = replicate 6 2; ethertype = 0x0800 }

abbrev frame_ipv4 : Ipv4Address → Ipv4Address → Ipv4Header
frame_ipv4 src dst = record new_ipv4 {
  total_length = 40;
  identification = 1;
  flags = record { reserved = false; dont_fragment = true; more_fragments = false };
  ttl = 64;
  protocol = 6;
  src_ip = src;
  dst_ip = dst;
}

-- What the parser makes of the two frames.
abbrev pub syn_packet : ParsedPacket
syn_packet = record new_packet {
  l3_type = ipv4_l3;
  l4_type = tcp_l4;
  ethernet = frame_ethernet;
  ipv4 = frame_ipv4 host_a host_b;
  tcp = record new_tcp {
    src_port = 0x1234;
    dst_port = 80;
    seq_num = 7;
    flags = syn_flags;
    window_size = 0x2000;
  };
}

abbrev pub syn_ack_packet : ParsedPacket
syn_ack_packet = record new_packet {
  l3_type = ipv4_l3;
  l4_type = tcp_l4;
  ethernet = frame_ethernet;
  ipv4 = frame_ipv4 host_b host_a;
  tcp = record new_tcp {
    src_port = 80;
    dst_port = 0x1234;
    seq_num = 7;
    flags = syn_ack_flags;
    window_size = 0x2000;
  };
}

pub parse-syn_frame : parse syn_frame ≡ some syn_packet
unfolding parse parse_bytes parse_l3_ipv4 parse_l4 parse_l4_tcp parse_ethernet parse_ipv4 ipv4_rest
    parse_tcp tcp_rest flags_of read_u8 read_u16_be read_u32_be copy ipv4_of_u32
parse-syn_frame = refl

pub parse-syn_ack_frame : parse syn_ack_frame ≡ some syn_ack_packet
unfolding parse parse_bytes parse_l3_ipv4 parse_l4 parse_l4_tcp parse_ethernet parse_ipv4 ipv4_rest
    parse_tcp tcp_rest flags_of read_u8 read_u16_be read_u32_be copy ipv4_of_u32
parse-syn_ack_frame = refl
