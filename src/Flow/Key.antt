-- ===== src/Flow/Key.antt =====
-- `FlowKey` of include/dpi/flow/flow_key.h and src/flow/flow_key.cpp.
use Prim.Native.Nat.{bit_xor}
use packet_dpi_engine.Base.{
  ℕ, ◌+◌, ◌*◌, ◌/◌, ◌%◌, ◌^◌, Bool, List, [], ◌∷◌, ◌==◌, ◌&&◌, not, if◌then◌else◌, take, drop,
}
use packet_dpi_engine.Protocols.Types.{
  ParsedPacket, is_valid, is_ipv4, is_ipv6, is_tcp, is_udp, to_u32,
}
use packet_dpi_engine.Flow.Address.{IpAddress, no_ip, v4, v6, Endpoint, endpoint_lt, endpoint_eq}

pub data FlowDirection : Type 0 where
  forward reverse : FlowDirection

pub record FlowKey : Type 0 where
  pub src : Endpoint
  pub dst : Endpoint
  pub protocol : ℕ

abbrev pub empty_key : FlowKey
empty_key = record {
  src = record { ip = no_ip; port = 0 };
  dst = record { ip = no_ip; port = 0 };
  protocol = 0;
}

-- `FlowKey::operator==`.
unfoldable pub key_eq : FlowKey → FlowKey → Bool
key_eq a b = a.protocol == b.protocol && endpoint_eq a.src b.src && endpoint_eq a.dst b.dst

-- `FlowKey::create`: the lower endpoint comes first.
unfoldable pub create : IpAddress → ℕ → IpAddress → ℕ → ℕ → FlowKey × FlowDirection
create src_ip src_port dst_ip dst_port proto =
    let ep_src : Endpoint = record { ip = src_ip; port = src_port } in
    let ep_dst : Endpoint = record { ip = dst_ip; port = dst_port } in
    if endpoint_lt ep_src ep_dst
    then (record { src = ep_src; dst = ep_dst; protocol = proto }, forward)
    else (record { src = ep_dst; dst = ep_src; protocol = proto }, reverse)

-- The layer 4 half of `from_packet`.
unfoldable pub from_ports : ParsedPacket → IpAddress → IpAddress → ℕ → FlowKey × FlowDirection
from_ports p src_ip dst_ip proto =
    if is_tcp p
    then create src_ip p.tcp.src_port dst_ip p.tcp.dst_port proto
    else if is_udp p
    then create src_ip p.udp.src_port dst_ip p.udp.dst_port proto
    else (empty_key, forward)

unfoldable pub from_packet : ParsedPacket → FlowKey × FlowDirection
from_packet p =
    if not (is_valid p)
    then (empty_key, forward)
    else if is_ipv4 p
    then from_ports p (v4 p.ipv4.src_ip) (v4 p.ipv4.dst_ip) p.ipv4.protocol
    else if is_ipv6 p
    then from_ports p (v6 p.ipv6.src_ip) (v6 p.ipv6.dst_ip) p.ipv6.next_header
    else (empty_key, forward)

-- `combine` of `FlowKeyHasher`: exclusive or, then a product modulo 2 ^ 64.
unfoldable pub combine : ℕ → ℕ → ℕ
combine h val = bit_xor h val * 0x100000001b3 % 2 ^ 64

-- `memcpy` of 8 bytes into a `uint64_t`, on a little-endian host.
unfoldable pub word64 : List ℕ → ℕ
word64 [] = 0
word64 (b ∷ bs) = b + 256 * word64 bs

unfoldable pub combine_ips : ℕ → IpAddress → IpAddress → ℕ
unfolding combine word64
combine_ips h (v4 a) (v4 b) = combine (combine h (to_u32 a)) (to_u32 b)
combine_ips h (v4 a) dst = combine (combine h (to_u32 a)) 0
combine_ips h (v6 a) (v6 b) =
    combine
      (combine (combine (combine h (word64 (take 8 a))) (word64 (take 8 (drop 8 a))))
        (word64 (take 8 b)))
      (word64 (take 8 (drop 8 b)))
combine_ips h (v6 a) dst =
    combine (combine (combine (combine h (word64 (take 8 a))) (word64 (take 8 (drop 8 a)))) 0) 0
combine_ips h no_ip dst = h

-- The mixer at the end of the hash.
unfoldable pub avalanche : ℕ → ℕ
avalanche h0 =
    let h1 = bit_xor h0 (h0 / 2 ^ 33) in
    let h2 = h1 * 0xff51afd7ed558ccd % 2 ^ 64 in
    let h3 = bit_xor h2 (h2 / 2 ^ 33) in
    let h4 = h3 * 0xc4ceb9fe1a85ec53 % 2 ^ 64 in bit_xor h4 (h4 / 2 ^ 33)

-- `FlowKeyHasher::operator()`. The port of 16 bits is shifted past the other one.
unfoldable pub hash_key : FlowKey → ℕ
unfolding combine combine_ips avalanche
hash_key k =
    let h1 = combine 0xcbf29ce484222325 k.protocol in
    let h2 = combine h1 (k.src.port + k.dst.port * 65536) in
    avalanche (combine_ips h2 k.src.ip k.dst.ip)
