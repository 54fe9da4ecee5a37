-- ===== src/Flow/Address.antt =====
-- include/dpi/flow/ip_address.h, src/flow/ip_address.cpp and the `Endpoint` of flow_key.h.
use packet_dpi_engine.Base.{
  ℕ, Bool, true, false, List, [], ◌∷◌, ltb, ◌==◌, ◌&&◌, ◌||◌, not, if◌then◌else◌,
}
use packet_dpi_engine.Protocols.Types.{Ipv4Address, Ipv6Address, to_u32, IsBytes}

-- `version_` with the address that the constructor sets; the other one keeps its default.
pub data IpAddress : Type 0 where
  no_ip : IpAddress
  v4 : Ipv4Address → IpAddress
  v6 : Ipv6Address → IpAddress

-- The values of `enum class Version`.
abbrev pub version : IpAddress → ℕ
version no_ip = 0
version (v4 a) = 4
version (v6 a) = 6

abbrev pub is_valid_ip : IpAddress → Bool
is_valid_ip no_ip = false
is_valid_ip _ = true

-- `operator==` and `operator<` of `std::array<uint8_t, n>`.
unfoldable pub bytes_eq : List ℕ → List ℕ → Bool
bytes_eq [] [] = true
bytes_eq [] (y ∷ ys) = false
bytes_eq (x ∷ xs) [] = false
bytes_eq (x ∷ xs) (y ∷ ys) = x == y && bytes_eq xs ys

unfoldable pub bytes_lt : List ℕ → List ℕ → Bool
bytes_lt [] [] = false
bytes_lt [] (y ∷ ys) = true
bytes_lt (x ∷ xs) [] = false
bytes_lt (x ∷ xs) (y ∷ ys) = ltb x y || (not (ltb y x) && bytes_lt xs ys)

unfoldable pub ipv4_eq : Ipv4Address → Ipv4Address → Bool
ipv4_eq a b = a.byte0 == b.byte0 && a.byte1 == b.byte1 && a.byte2 == b.byte2 && a.byte3 == b.byte3

-- `IPAddress::operator==`.
unfoldable pub ip_eq : IpAddress → IpAddress → Bool
unfolding ipv4_eq
ip_eq (v4 a) (v4 b) = ipv4_eq a b
ip_eq (v6 a) (v6 b) = bytes_eq a b
ip_eq no_ip no_ip = true
ip_eq a b = false

-- `IPAddress::operator<`: by version, then by value.
unfoldable pub ip_lt : IpAddress → IpAddress → Bool
ip_lt (v4 a) (v4 b) = ltb (to_u32 a) (to_u32 b)
ip_lt (v6 a) (v6 b) = bytes_lt a b
ip_lt a b = ltb (version a) (version b)

pub record Endpoint : Type 0 where
  pub ip : IpAddress
  pub port : ℕ

unfoldable pub endpoint_eq : Endpoint → Endpoint → Bool
endpoint_eq a b = a.port == b.port && ip_eq a.ip b.ip

-- `Endpoint::operator<`.
unfoldable pub endpoint_lt : Endpoint → Endpoint → Bool
endpoint_lt a b =
    if ip_lt a.ip b.ip then true else if ip_lt b.ip a.ip then false else ltb a.port b.port

-- Every IPv4 address that the program makes consists of bytes.
abbrev pub IsWire : IpAddress → Type 0
IsWire (v4 a) = IsBytes a
IsWire _ = Unit {0}
