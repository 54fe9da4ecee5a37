-- ===== src/Protocols/Types.antt =====
-- The data of include/dpi/protocols: error codes, layer tags, headers and the parsed packet.
use packet_dpi_engine.Base.{
  ℕ, ◌+◌, ◌*◌, ◌/◌, ◌%◌, ◌<◌, ◌≡◌, Bool, true, false, List, [], not, replicate, ltb, arith,
}

-- enum class ProtocolErrorCode.
pub data ProtocolErrorCode : Type 0 where
  success empty_packet truncated_ethernet unsupported_ether_type : ProtocolErrorCode
  truncated_ipv4 invalid_ipv4_version invalid_ipv4_ihl : ProtocolErrorCode
  ipv4_total_length_too_small ipv4_packet_too_short_for_total_length : ProtocolErrorCode
  ipv4_fragmented_non_initial truncated_ipv6 invalid_ipv6_version : ProtocolErrorCode
  ipv6_packet_too_short_for_payload unsupported_ipv6_extension_header : ProtocolErrorCode
  unsupported_l3_protocol truncated_tcp invalid_tcp_data_offset : ProtocolErrorCode
  tcp_segment_too_short_for_data_offset truncated_udp invalid_udp_length : ProtocolErrorCode
  udp_packet_too_short_for_length unsupported_l4_protocol : ProtocolErrorCode

-- namespace ethertype.
abbrev pub ethertype_ipv4 : ℕ
ethertype_ipv4 = 0x0800

abbrev pub ethertype_vlan : ℕ
ethertype_vlan = 0x8100

abbrev pub ethertype_ipv6 : ℕ
ethertype_ipv6 = 0x86dd

-- namespace ipproto.
abbrev pub ipproto_tcp : ℕ
ipproto_tcp = 6

abbrev pub ipproto_udp : ℕ
ipproto_udp = 17

pub data L3Type : Type 0 where
  no_l3 ipv4_l3 ipv6_l3 unsupported_l3 : L3Type

pub data L4Type : Type 0 where
  no_l4 tcp_l4 udp_l4 ipv4_fragment other_l4 unsupported_l4 : L4Type

-- `std::array<uint8_t, 4>`.
pub record Ipv4Address : Type 0 where
  pub byte0 : ℕ
  pub byte1 : ℕ
  pub byte2 : ℕ
  pub byte3 : ℕ

-- The constructor from an integer in host order.
unfoldable pub ipv4_of_u32 : ℕ → Ipv4Address
ipv4_of_u32 n = record {
  byte0 = n / 16777216 % 256;
  byte1 = n / 65536 % 256;
  byte2 = n / 256 % 256;
  byte3 = n % 256;
}

unfoldable pub to_u32 : Ipv4Address → ℕ
to_u32 a = a.byte0 * 16777216 + a.byte1 * 65536 + a.byte2 * 256 + a.byte3

-- `std::array<uint8_t, 16>`.
abbrev pub Ipv6Address : Type 0
Ipv6Address = List ℕ

pub record EthernetHeader : Type 0 where
  pub dst_mac : List ℕ
  pub src_mac : List ℕ
  pub ethertype : ℕ

pub record Ipv4Flags : Type 0 where
  pub reserved : Bool
  pub dont_fragment : Bool
  pub more_fragments : Bool

pub record Ipv4Header : Type 0 where
  pub version : ℕ
  pub ihl : ℕ
  pub dscp : ℕ
  pub ecn : ℕ
  pub total_length : ℕ
  pub identification : ℕ
  pub flags : Ipv4Flags
  pub fragment_offset : ℕ
  pub fragment_offset_bytes : ℕ
  pub ttl : ℕ
  pub protocol : ℕ
  pub checksum : ℕ
  pub src_ip : Ipv4Address
  pub dst_ip : Ipv4Address
  pub options : List ℕ
  pub header_length : ℕ

pub record Ipv6Header : Type 0 where
  pub version : ℕ
  pub traffic_class : ℕ
  pub flow_label : ℕ
  pub payload_length : ℕ
  pub next_header : ℕ
  pub hop_limit : ℕ
  pub src_ip : Ipv6Address
  pub dst_ip : Ipv6Address

pub record TcpFlags : Type 0 where
  pub fin : Bool
  pub syn : Bool
  pub rst : Bool
  pub psh : Bool
  pub ack : Bool
  pub urg : Bool
  pub ece : Bool
  pub cwr : Bool
  pub raw : ℕ

pub record TcpHeader : Type 0 where
  pub src_port : ℕ
  pub dst_port : ℕ
  pub seq_num : ℕ
  pub ack_num : ℕ
  pub data_offset : ℕ
  pub flags : TcpFlags
  pub window_size : ℕ
  pub checksum : ℕ
  pub urgent_pointer : ℕ
  pub options : List ℕ
  pub header_length : ℕ

pub record UdpHeader : Type 0 where
  pub src_port : ℕ
  pub dst_port : ℕ
  pub length : ℕ
  pub checksum : ℕ

pub record ParsedPacket : Type 0 where
  pub error_code : ProtocolErrorCode
  pub l3_type : L3Type
  pub l4_type : L4Type
  pub ethernet : EthernetHeader
  pub ipv4 : Ipv4Header
  pub ipv6 : Ipv6Header
  pub tcp : TcpHeader
  pub udp : UdpHeader
  pub l7_payload : List ℕ

-- The default member initialisers.
abbrev pub zero_ipv4 : Ipv4Address
zero_ipv4 = record { byte0 = 0; byte1 = 0; byte2 = 0; byte3 = 0 }

abbrev pub new_ethernet : EthernetHeader
new_ethernet = record { dst_mac = replicate 6 0; src_mac = replicate 6 0; ethertype = 0 }

abbrev pub new_ipv4 : Ipv4Header
new_ipv4 = record {
  version = 4;
  ihl = 5;
  dscp = 0;
  ecn = 0;
  total_length = 0;
  identification = 0;
  flags = record { reserved = false; dont_fragment = false; more_fragments = false };
  fragment_offset = 0;
  fragment_offset_bytes = 0;
  ttl = 0;
  protocol = 0;
  checksum = 0;
  src_ip = zero_ipv4;
  dst_ip = zero_ipv4;
  options = [];
  header_length = 20;
}

abbrev pub new_ipv6 : Ipv6Header
new_ipv6 = record {
  version = 6;
  traffic_class = 0;
  flow_label = 0;
  payload_length = 0;
  next_header = 0;
  hop_limit = 0;
  src_ip = replicate 16 0;
  dst_ip = replicate 16 0;
}

abbrev pub new_tcp_flags : TcpFlags
new_tcp_flags = record {
  fin = false;
  syn = false;
  rst = false;
  psh = false;
  ack = false;
  urg = false;
  ece = false;
  cwr = false;
  raw = 0;
}

abbrev pub new_tcp : TcpHeader
new_tcp = record {
  src_port = 0;
  dst_port = 0;
  seq_num = 0;
  ack_num = 0;
  data_offset = 5;
  flags = new_tcp_flags;
  window_size = 0;
  checksum = 0;
  urgent_pointer = 0;
  options = [];
  header_length = 20;
}

abbrev pub new_udp : UdpHeader
new_udp = record { src_port = 0; dst_port = 0; length = 0; checksum = 0 }

abbrev pub new_packet : ParsedPacket
new_packet = record {
  error_code = success;
  l3_type = no_l3;
  l4_type = no_l4;
  ethernet = new_ethernet;
  ipv4 = new_ipv4;
  ipv6 = new_ipv6;
  tcp = new_tcp;
  udp = new_udp;
  l7_payload = [];
}

-- Methods of the headers and the packet.
abbrev pub is_success : ProtocolErrorCode → Bool
is_success success = true
is_success _ = false

abbrev pub is_ipv4_type : L3Type → Bool
is_ipv4_type ipv4_l3 = true
is_ipv4_type _ = false

abbrev pub is_ipv6_type : L3Type → Bool
is_ipv6_type ipv6_l3 = true
is_ipv6_type _ = false

abbrev pub is_tcp_type : L4Type → Bool
is_tcp_type tcp_l4 = true
is_tcp_type _ = false

abbrev pub is_udp_type : L4Type → Bool
is_udp_type udp_l4 = true
is_udp_type _ = false

abbrev pub is_valid : ParsedPacket → Bool
is_valid p = is_success p.error_code

abbrev pub is_ipv4 : ParsedPacket → Bool
is_ipv4 p = is_ipv4_type p.l3_type

abbrev pub is_ipv6 : ParsedPacket → Bool
is_ipv6 p = is_ipv6_type p.l3_type

abbrev pub is_tcp : ParsedPacket → Bool
is_tcp p = is_tcp_type p.l4_type

abbrev pub is_udp : ParsedPacket → Bool
is_udp p = is_udp_type p.l4_type

abbrev pub is_empty {ℓ} : {A : Type ℓ} → List A → Bool
is_empty [] = true
is_empty _ = false

abbrev pub has_payload : ParsedPacket → Bool
has_payload p = not (is_empty p.l7_payload)

abbrev pub is_subsequent_fragment : Ipv4Header → Bool
is_subsequent_fragment h = ltb 0 h.fragment_offset

-- An address is made of bytes.
pub record IsBytes (a : Ipv4Address) : Type 0 where
  pub byte0 : a.byte0 < 256
  pub byte1 : a.byte1 < 256
  pub byte2 : a.byte2 < 256
  pub byte3 : a.byte3 < 256

-- What the constructor from an integer makes consists of bytes.
pub ipv4_of_u32-IsBytes : (n : ℕ) → IsBytes (ipv4_of_u32 n)
unfolding ipv4_of_u32
ipv4_of_u32-IsBytes n = omega arith

pub to_u32-ipv4_of_u32 : (n : ℕ) → n < 4294967296 → to_u32 (ipv4_of_u32 n) ≡ n
unfolding to_u32 ipv4_of_u32
to_u32-ipv4_of_u32 n h = omega arith

-- Addresses of bytes with the same integer are equal.
pub to_u32-injective : (a b : Ipv4Address) → IsBytes a → IsBytes b → to_u32 a ≡ to_u32 b → a ≡ b
unfolding to_u32
to_u32-injective a b p q h = ground arith
