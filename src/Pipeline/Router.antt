-- ===== src/Pipeline/Router.antt =====
-- `FlowRouter::extract_flow_key` of src/pipeline/flow_router.cpp. The outer `Option` is `none` where
-- the C++ would read outside the buffer; the inner one is `none` where it returns false.
use packet_dpi_engine.Base.{
  ℕ, ◌+◌, ◌*◌, ◌/◌, ◌%◌, ◌≤◌, ◌≢◌, Option, none, some, ◌==◌, ltb, not, ◌||◌, if◌then◌else◌, length,
  arith,
}
use packet_dpi_engine.Memory.{
  Buffer, ◌>>=◌, read_u8, read_u16_be, read_u32_be, copy, read_u8-some, read_u16_be-some,
  read_u32_be-some, copy-some,
}
use packet_dpi_engine.Protocols.Types.{
  ipv4_of_u32, ethertype_ipv4, ethertype_ipv6, ethertype_vlan, ipproto_tcp, ipproto_udp,
}
use packet_dpi_engine.Flow.Address.{IpAddress, v4, v6}
use packet_dpi_engine.Flow.Key.{FlowKey, create}

-- The ports, where the protocol has them, and the key; the same text under IPv4 and IPv6.
unfoldable pub extract_ports : Buffer → ℕ → ℕ → IpAddress → IpAddress → ℕ → Option (Option FlowKey)
extract_ports buf len offset src dst proto =
    if not (proto == ipproto_tcp || proto == ipproto_udp)
    then some (some (create src 0 dst 0 proto).0)
    else if ltb len (offset + 4)
    then some none
    else do
      src_port ← read_u16_be buf offset
      dst_port ← read_u16_be buf (offset + 2)
      some (some (create src src_port dst dst_port proto).0)

unfoldable pub extract_ipv4 : Buffer → ℕ → ℕ → Option (Option FlowKey)
extract_ipv4 buf len offset = if ltb len (offset + 20) then some none else do
  ver_ihl ← read_u8 buf offset
  if not (ver_ihl / 16 == 4) then some none else do
    let ihl_bytes = ver_ihl % 16 * 4
    if ltb ihl_bytes 20 || ltb len (offset + ihl_bytes) then some none else do
      flags_frag ← read_u16_be buf (offset + 6)
      if not (flags_frag % 8192 == 0) then some none else do
        proto ← read_u8 buf (offset + 9)
        src ← read_u32_be buf (offset + 12)
        dst ← read_u32_be buf (offset + 16)
        extract_ports buf len (offset + ihl_bytes) (v4 (ipv4_of_u32 src)) (v4 (ipv4_of_u32 dst))
            proto

unfoldable pub extract_ipv6 : Buffer → ℕ → ℕ → Option (Option FlowKey)
extract_ipv6 buf len offset = if ltb len (offset + 40) then some none else do
  first ← read_u8 buf offset
  if not (first / 16 == 6) then some none else do
    next_header ← read_u8 buf (offset + 6)
    src ← copy buf (offset + 8) 16
    dst ← copy buf (offset + 24) 16
    extract_ports buf len (offset + 40) (v6 src) (v6 dst) next_header

unfoldable pub extract_l3 : Buffer → ℕ → ℕ → ℕ → Option (Option FlowKey)
extract_l3 buf len ethertype offset =
    if ethertype == ethertype_ipv4
    then extract_ipv4 buf len offset
    else if ethertype == ethertype_ipv6
    then extract_ipv6 buf len offset
    else some none

unfoldable pub extract_flow_key : Buffer → ℕ → Option (Option FlowKey)
extract_flow_key buf len = if ltb len 14 then some none else do
  ethertype ← read_u16_be buf 12
  if not (ethertype == ethertype_vlan)
      then extract_l3 buf len ethertype 14
      else if ltb len 18
      then some none
      else do inner ← read_u16_be buf 16; extract_l3 buf len inner 18

module _ (buf : Buffer) (len : ℕ) (within : len ≤ length buf) where
  extract_ports-some :
      (offset : ℕ) (src dst : IpAddress) (proto : ℕ)
      → extract_ports buf len offset src dst proto ≢ none
  unfolding extract_ports
  extract_ports-some offset src dst proto =
      ground (arith, read_u16_be-some buf offset, read_u16_be-some buf (offset + 2))

  extract_ipv4-some : (offset : ℕ) → extract_ipv4 buf len offset ≢ none
  unfolding extract_ipv4
  extract_ipv4-some offset =
      grind (arith, read_u8-some, read_u16_be-some, read_u32_be-some, extract_ports-some)

  extract_ipv6-some : (offset : ℕ) → extract_ipv6 buf len offset ≢ none
  unfolding extract_ipv6
  extract_ipv6-some offset = grind (arith, read_u8-some, copy-some, extract_ports-some)

  -- The router never reads outside the packet, for any bytes and any length within them.
  pub extract_flow_key-ne-none : extract_flow_key buf len ≢ none
  unfolding extract_flow_key extract_l3
  extract_flow_key-ne-none = ground (
    arith,
    read_u16_be-some buf 12,
    read_u16_be-some buf 16,
    extract_ipv4-some 14,
    extract_ipv6-some 14,
    extract_ipv4-some 18,
    extract_ipv6-some 18,
  )
