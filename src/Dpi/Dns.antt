-- ===== src/Dpi/Dns.antt =====
-- `DnsParser::parse_query` of src/dpi/dns_parser.cpp.
use packet_dpi_engine.Base.{
  ℕ, zero, suc, ◌+◌, ◌*◌, ◌/◌, ◌%◌, Bool, true, false, List, [], ◌∷◌, ◌++◌, Option, none, some,
  ◌==◌, ltb, leb, ◌&&◌, not, if◌then◌else◌, length, get_elem?, set, replicate,
}
use packet_dpi_engine.Memory.{Buffer, ◌>>=◌, read_u8, read_u16_be, copy}
use packet_dpi_engine.Protocols.Types.{is_empty}
use packet_dpi_engine.Dpi.Types.{DnsMetadata}

-- The variables of the loop over the labels.
pub record DnsWalk : Type 0 where
  pub curr : ℕ
  pub jumped : Bool
  pub next_field_offset : ℕ
  pub jump_count : ℕ
  pub visited : List Bool
  pub qname : List ℕ

-- How a turn of the loop ends: with `return false`, with `break`, or with the next turn.
pub data Turn : Type 0 where
  rejected : Turn
  ended : DnsWalk → Turn
  goes_on : DnsWalk → Turn

abbrev pub max_jumps : ℕ
max_jumps = 5

-- A compression pointer; `visited` is set already.
unfoldable pub dns_pointer : Buffer → DnsWalk → ℕ → Option Turn
dns_pointer buf w len_byte =
    if leb (length buf) (w.curr + 1)
    then some rejected
    else if ltb max_jumps (w.jump_count + 1)
    then some rejected
    else do
      low ← read_u8 buf (w.curr + 1)
      let ptr_offset = len_byte % 64 * 256 + low
      if leb (length buf) ptr_offset
          then some rejected
          else some (
              goes_on (record w {
                jump_count = w.jump_count + 1;
                next_field_offset = if w.jumped then w.next_field_offset else w.curr + 2;
                jumped = true;
                curr = ptr_offset;
              }))

-- A direct label, after a dot unless it is the first one.
unfoldable pub dns_label : Buffer → DnsWalk → ℕ → Option Turn
dns_label buf w label_len = if ltb (length buf) (w.curr + 1 + label_len) then some rejected else do
  label ← copy buf (w.curr + 1) label_len
  some (
      goes_on (record w {
        qname = (if is_empty w.qname then [] else w.qname ++ (46 ∷ [])) ++ label;
        curr = w.curr + 1 + label_len;
      }))

-- One turn of the loop; none is an access outside the payload or outside `visited`.
unfoldable pub dns_turn : Buffer → DnsWalk → Option Turn
dns_turn buf s = if leb (length buf) s.curr then some rejected else do
  seen ← get_elem? s.visited s.curr
  if seen then some rejected else do
    len_byte ← read_u8 buf s.curr
    let w = record s { visited = set s.visited s.curr true }
    if len_byte == 0
        then some (
            ended (record w {
              next_field_offset = if w.jumped then w.next_field_offset else w.curr + 1;
            }))
        else if len_byte / 64 % 4 == 3
        then dns_pointer buf w len_byte
        else if ltb 63 len_byte
        then some rejected
        else dns_label buf w len_byte

-- What follows a turn, with the next turns given.
abbrev pub after_turn : (DnsWalk → Option (Option DnsWalk)) → Option Turn → Option (Option DnsWalk)
after_turn walk none = none
after_turn walk (some rejected) = some none
after_turn walk (some (ended w)) = some (some w)
after_turn walk (some (goes_on w)) = walk w

-- The loop on fuel: none is an access outside, or fuel that ran out; `some none` is `return false`.
unfoldable pub dns_walk : ℕ → Buffer → DnsWalk → Option (Option DnsWalk)
dns_walk zero buf s = none
dns_walk (suc n) buf s = after_turn (λ w. dns_walk n buf w) (dns_turn buf s)

abbrev pub dns_start : Buffer → DnsWalk
dns_start buf = record {
  curr = 12;
  jumped = false;
  next_field_offset = 0;
  jump_count = 0;
  visited = replicate (length buf) false;
  qname = [];
}

-- The fields after the name.
unfoldable pub dns_fields : Buffer → ℕ → DnsMetadata → Option DnsMetadata
dns_fields buf next m =
    if not (ltb 0 next && leb (next + 4) (length buf))
    then some (record m { qtype = 0; qclass = 0 })
    else do
      qtype ← read_u16_be buf next
      qclass ← read_u16_be buf (next + 2)
      some (record m { qtype = qtype; qclass = qclass })

unfoldable pub dns_finish : Buffer → DnsMetadata → Option DnsWalk → Option (Bool × DnsMetadata)
dns_finish buf m none = some (false, m)
dns_finish buf m (some w) = do
  m' ← dns_fields buf w.next_field_offset (record m { qname = w.qname })
  some (not (is_empty w.qname), m')

-- `parse_query`, with what it leaves in `out_meta`.
unfoldable pub parse_query : Buffer → DnsMetadata → Option (Bool × DnsMetadata)
parse_query buf m0 = if ltb (length buf) 12 then some (false, m0) else do
  transaction_id ← read_u16_be buf 0
  flags ← read_u16_be buf 2
  qdcount ← read_u16_be buf 4
  let m = record m0 { transaction_id = transaction_id; flags = flags }
  if qdcount == 0
      then some (false, m)
      else do result ← dns_walk (length buf + 1) buf (dns_start buf); dns_finish buf m result
