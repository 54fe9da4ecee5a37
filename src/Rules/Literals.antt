-- ===== src/Rules/Literals.antt =====
-- The text literals of src/rules/rule_engine.cpp.
use packet_dpi_engine.Base.{[], ◌∷◌}
use packet_dpi_engine.Text.{Text}

-- "TCP"
abbrev pub text_tcp : Text
text_tcp = 84 ∷ 67 ∷ 80 ∷ []

-- "UDP"
abbrev pub text_udp : Text
text_udp = 85 ∷ 68 ∷ 80 ∷ []

-- "6"
abbrev pub text_6 : Text
text_6 = 54 ∷ []

-- "17"
abbrev pub text_17 : Text
text_17 = 49 ∷ 55 ∷ []

-- "TLS"
abbrev pub text_tls : Text
text_tls = 84 ∷ 76 ∷ 83 ∷ []

-- "HTTP"
abbrev pub text_http : Text
text_http = 72 ∷ 84 ∷ 84 ∷ 80 ∷ []

-- "DNS"
abbrev pub text_dns : Text
text_dns = 68 ∷ 78 ∷ 83 ∷ []

-- "L3/L4 Rule Match: "
abbrev pub reason_l3_l4 : Text
reason_l3_l4 =
    76 ∷ 51 ∷ 47 ∷ 76 ∷ 52 ∷ 32 ∷ 82 ∷ 117 ∷ 108 ∷ 101 ∷ 32 ∷ 77 ∷ 97 ∷ 116 ∷ 99 ∷ 104 ∷ 58 ∷ 32
    ∷ []

-- "L7 Rule Match: "
abbrev pub reason_l7 : Text
reason_l7 = 76 ∷ 55 ∷ 32 ∷ 82 ∷ 117 ∷ 108 ∷ 101 ∷ 32 ∷ 77 ∷ 97 ∷ 116 ∷ 99 ∷ 104 ∷ 58 ∷ 32 ∷ []

-- "Provisional L3/L4 Default Action"
abbrev pub reason_provisional : Text
reason_provisional =
    80 ∷ 114 ∷ 111 ∷ 118 ∷ 105 ∷ 115 ∷ 105 ∷ 111 ∷ 110 ∷ 97 ∷ 108 ∷ 32 ∷ 76 ∷ 51 ∷ 47 ∷ 76 ∷ 52 ∷ 32
    ∷ 68 ∷ 101 ∷ 102 ∷ 97 ∷ 117 ∷ 108 ∷ 116 ∷ 32 ∷ 65 ∷ 99 ∷ 116 ∷ 105 ∷ 111 ∷ 110 ∷ []

-- "Default Policy Action"
abbrev pub reason_default : Text
reason_default =
    68 ∷ 101 ∷ 102 ∷ 97 ∷ 117 ∷ 108 ∷ 116 ∷ 32 ∷ 80 ∷ 111 ∷ 108 ∷ 105 ∷ 99 ∷ 121 ∷ 32 ∷ 65 ∷ 99
    ∷ 116 ∷ 105 ∷ 111 ∷ 110 ∷ []

-- "Invalid packet key"
abbrev pub reason_invalid : Text
reason_invalid =
    73 ∷ 110 ∷ 118 ∷ 97 ∷ 108 ∷ 105 ∷ 100 ∷ 32 ∷ 112 ∷ 97 ∷ 99 ∷ 107 ∷ 101 ∷ 116 ∷ 32 ∷ 107 ∷ 101
    ∷ 121 ∷ []
