-- ===== src/Rules/Ip.antt =====
-- `IpMatcher` of include/dpi/rules/ip_matcher.h and src/rules/ip_matcher.cpp.
use Prim.Native.Nat.{bit_and}
use packet_dpi_engine.Base.{
  ℕ, zero, suc, ◌-◌, ◌*◌, ◌%◌, ◌^◌, Bool, true, false, List, [], ◌∷◌, Option, none, some, ◌==◌, ltb,
  leb, ◌&&◌, not, if◌then◌else◌, replicate,
}
use packet_dpi_engine.Text.{Text, cut, contains, from_chars, is_wildcard}
use packet_dpi_engine.Protocols.Types.{Ipv4Address, Ipv6Address, to_u32}
use packet_dpi_engine.Protocols.AddressText.{ipv4_of_text, ipv6_of_text}
use packet_dpi_engine.Flow.Address.{IpAddress, no_ip, v4, v6}

pub record IpMatcher : Type 0 where
  pub is_any : Bool
  pub is_valid : Bool
  pub is_ipv4 : Bool
  pub prefix_len : ℕ
  pub ipv4_net : ℕ
  pub ipv4_mask : ℕ
  pub ipv6_net : List ℕ
  pub ipv6_mask : List ℕ

abbrev pub any_ip : IpMatcher
any_ip = record {
  is_any = true;
  is_valid = true;
  is_ipv4 = true;
  prefix_len = 0;
  ipv4_net = 0;
  ipv4_mask = 0;
  ipv6_net = replicate 16 0;
  ipv6_mask = replicate 16 0;
}

-- The 32-bit netmask: `0xFFFFFFFFu << (32 - prefix)`, or 0 for no prefix.
unfoldable pub mask_of_prefix : ℕ → ℕ
mask_of_prefix p = if p == 0 then 0 else (2 ^ 32 - 1) * 2 ^ (32 - p) % 2 ^ 32

-- The byte of the 128-bit netmask that starts `rem` bits before the end of the prefix.
unfoldable pub mask_byte : ℕ → ℕ
mask_byte rem = if leb 8 rem then 255 else if rem == 0 then 0 else 255 * 2 ^ (8 - rem) % 256

-- The `n` bytes of the netmask for the bits that are left of the prefix.
unfoldable pub mask6_of_prefix : ℕ → ℕ → List ℕ
unfolding mask_byte
mask6_of_prefix zero p = []
mask6_of_prefix (suc n) p = mask_byte p ∷ mask6_of_prefix n (p - 8)

-- The prefix: the longest if the text is empty, and none if it is no number or too large.
unfoldable pub prefix_of_text : ℕ → Text → Option ℕ
prefix_of_text longest [] = some longest
prefix_of_text longest (c ∷ cs) = elim (from_chars (c ∷ cs)) [
  | none ↦ none
  | some p ↦ if ltb longest p then none else some p
]

-- `&=` of two arrays of bytes.
unfoldable pub and_bytes : List ℕ → List ℕ → List ℕ
and_bytes [] ms = []
and_bytes (b ∷ bs) [] = []
and_bytes (b ∷ bs) (m ∷ ms) = bit_and b m ∷ and_bytes bs ms

unfoldable pub ipv4_matcher : Option Ipv4Address → Option ℕ → IpMatcher
unfolding mask_of_prefix
ipv4_matcher (some a) (some prefix) =
    let mask = mask_of_prefix prefix in
    record any_ip {
      is_any = false;
      prefix_len = prefix;
      ipv4_mask = mask;
      ipv4_net = bit_and (to_u32 a) mask;
    }
ipv4_matcher a prefix = record any_ip { is_any = false; is_valid = false }

unfoldable pub ipv6_matcher : Option Ipv6Address → Option ℕ → IpMatcher
unfolding mask6_of_prefix and_bytes
ipv6_matcher (some a) (some prefix) =
    let mask = mask6_of_prefix 16 prefix in
    record any_ip {
      is_any = false;
      is_ipv4 = false;
      prefix_len = prefix;
      ipv6_mask = mask;
      ipv6_net = and_bytes a mask;
    }
ipv6_matcher a prefix = record any_ip { is_any = false; is_ipv4 = false; is_valid = false }

abbrev or_empty : Option Text → Text
or_empty none = []
or_empty (some t) = t

unfoldable pub parse_ip : Text → IpMatcher
unfolding is_wildcard cut contains prefix_of_text ipv4_matcher ipv6_matcher
parse_ip cidr =
    if is_wildcard cidr
    then any_ip
    else (let (ip_part, after) = cut 47 cidr in
        let prefix_part = or_empty after in
        if contains 58 ip_part
        then ipv6_matcher (ipv6_of_text ip_part) (prefix_of_text 128 prefix_part)
        else ipv4_matcher (ipv4_of_text ip_part) (prefix_of_text 32 prefix_part))

-- The loop over the 16 bytes of an address.
unfoldable pub masked_eq : List ℕ → List ℕ → List ℕ → Bool
masked_eq (b ∷ bs) (m ∷ ms) (n ∷ ns) = bit_and b m == n && masked_eq bs ms ns
masked_eq _ _ _ = true

unfoldable pub matches_address : IpMatcher → IpAddress → Bool
unfolding masked_eq
matches_address m no_ip = false
matches_address m (v4 a) = m.is_ipv4 && bit_and (to_u32 a) m.ipv4_mask == m.ipv4_net
matches_address m (v6 a) = not m.is_ipv4 && masked_eq a m.ipv6_mask m.ipv6_net

unfoldable pub matches_ip : IpMatcher → IpAddress → Bool
unfolding matches_address
matches_ip m ip = if not m.is_valid then false else if m.is_any then true else matches_address m ip
