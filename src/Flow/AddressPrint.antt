-- ===== src/Flow/AddressPrint.antt =====
-- `to_string` of the addresses: src/protocols/protocol_types.cpp and src/flow/ip_address.cpp.
use packet_dpi_engine.Base.{ℕ, ◌+◌, ◌*◌, List, [], ◌∷◌, ◌++◌}
use packet_dpi_engine.Text.{Text, codes, to_string, to_hex}
use packet_dpi_engine.Protocols.Types.{Ipv4Address}
use packet_dpi_engine.Flow.Address.{IpAddress, no_ip, v4, v6}

unfoldable pub ipv4_to_string : Ipv4Address → Text
ipv4_to_string a =
    to_string a.byte0
    ++ codes "."
    ++ to_string a.byte1
    ++ codes "."
    ++ to_string a.byte2
    ++ codes "."
    ++ to_string a.byte3

-- The groups of two bytes, with a colon between them.
unfoldable pub hex_words : List ℕ → Text
hex_words [] = []
hex_words (hi ∷ []) = []
hex_words (hi ∷ lo ∷ []) = to_hex (hi * 256 + lo)
hex_words (hi ∷ lo ∷ more ∷ rest) = to_hex (hi * 256 + lo) ++ codes ":" ++ hex_words (more ∷ rest)

unfoldable pub ip_to_string : IpAddress → Text
ip_to_string no_ip = codes "0.0.0.0"
ip_to_string (v4 a) = ipv4_to_string a
ip_to_string (v6 a) = hex_words a
