-- ===== src/Protocols/AddressText.antt =====
-- `IPv4Address::from_string` and `IPv6Address::from_string` of src/protocols/protocol_types.cpp.
use packet_dpi_engine.Base.{
  ℕ, ◌+◌, ◌-◌, ◌*◌, ◌/◌, ◌%◌, List, [], ◌∷◌, ◌++◌, Option, none, some, ◌==◌, ltb, leb, ◌&&◌, ◌||◌,
  if◌then◌else◌, length, replicate,
}
use packet_dpi_engine.Memory.{◌>>=◌}
use packet_dpi_engine.Text.{Text, split, is_digit}
use packet_dpi_engine.Protocols.Types.{Ipv4Address, Ipv6Address}

-- The value of a text of decimal digits.
unfoldable pub digits : ℕ → Text → Option ℕ
unfolding is_digit
digits acc [] = some acc
digits acc (c ∷ cs) =
    let rest = digits (acc * 10 + (c - 48)) cs in if is_digit c then rest else none

-- A part between two dots: one to three digits, at most 255.
unfoldable pub octet : Text → Option ℕ
unfolding digits
octet part =
    if length part == 0 || ltb 3 (length part)
    then none
    else do val ← digits 0 part; if ltb 255 val then none else some val

-- `IPv4Address::from_string`: the loop reads four octets, and nothing may be left.
unfoldable pub ipv4_of_text : Text → Option Ipv4Address
unfolding octet split
ipv4_of_text str = four (split 46 str)
  where
    four : List Text → Option Ipv4Address
    four (a ∷ b ∷ c ∷ d ∷ []) = do
      byte0 ← octet a
      byte1 ← octet b
      byte2 ← octet c
      byte3 ← octet d
      some (record { byte0 = byte0; byte1 = byte1; byte2 = byte2; byte3 = byte3 })
    four _ = none

unfoldable pub hex_digit : ℕ → Option ℕ
hex_digit c =
    if leb 48 c && leb c 57
    then some (c - 48)
    else if leb 97 c && leb c 102
    then some (c - 97 + 10)
    else if leb 65 c && leb c 70
    then some (c - 65 + 10)
    else none

unfoldable pub hex_value : ℕ → Text → Option ℕ
unfolding hex_digit
hex_value acc [] = some acc
hex_value acc (c ∷ cs) = hex_digit c >>= (λ d. hex_value (acc * 16 + d) cs)

-- A group between two colons: one to four digits.
unfoldable pub hex_group : Text → Option ℕ
unfolding hex_value
hex_group token = if length token == 0 || ltb 4 (length token) then none else hex_value 0 token

unfoldable pub hex_groups : List Text → Option (List ℕ)
hex_groups [] = some []
hex_groups (t ∷ ts) = do w ← hex_group t; ws ← hex_groups ts; some (w ∷ ws)

-- `find("::")`: the text before it and the text after it.
unfoldable pub cut_double_colon : Text → Option (Text × Text)
cut_double_colon (a ∷ b ∷ rest) =
    let later = cut_double_colon (b ∷ rest) in
    if a == 58 && b == 58
    then some ([], rest)
    else later >>= (λ (left, right). some (a ∷ left, right))
cut_double_colon _ = none

-- The words of "left::right", with zeros between.
unfoldable pub expand : Text → Text → Option (List ℕ)
unfolding hex_groups split
expand left right = do
  left_words ← hex_groups (split 58 left)
  right_words ← hex_groups (split 58 right)
  let n = length left_words + length right_words
  if ltb 7 n then none else some (left_words ++ replicate (8 - n) 0 ++ right_words)

-- Without "::" there are exactly eight groups.
unfoldable pub eight_groups : Text → Option (List ℕ)
unfolding hex_groups split
eight_groups str = if length (split 58 str) == 8 then hex_groups (split 58 str) else none

unfoldable pub bytes_of_words : List ℕ → List ℕ
bytes_of_words [] = []
bytes_of_words (w ∷ ws) = w / 256 % 256 ∷ w % 256 ∷ bytes_of_words ws

-- `IPv6Address::from_string`.
unfoldable pub ipv6_of_text : Text → Option Ipv6Address
unfolding expand eight_groups cut_double_colon bytes_of_words
ipv6_of_text str = if length str == 0 then none else do
  ws ← elim (cut_double_colon str) [
    | none ↦ eight_groups str
    | some (left, right) ↦ expand left right
  ]
  some (bytes_of_words ws)
