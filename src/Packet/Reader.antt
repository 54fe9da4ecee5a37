-- ===== src/Packet/Reader.antt =====
-- `PcapReader` of include/dpi/packet/pcap_reader.h and src/packet/pcap_reader.cpp. The byte order of
-- the machine is little-endian. A stream is what is left of its bytes and its state, and belongs to
-- the reader once it is opened.
use packet_dpi_engine.Base.{
  ℕ, ◌+◌, ◌-◌, ◌*◌, Bool, true, false, List, [], ◌∷◌, ◌++◌, Option, none, some, ◌==◌, ltb, leb,
  ◌||◌, not, if◌then◌else◌, length, get_or, take, drop, replicate,
}
use packet_dpi_engine.Packet.Types.{
  PcapErrorCode, success, file_not_found, stream_error, truncated_global_header,
  invalid_magic_number, unsupported_version, invalid_snaplen, truncated_packet_header,
  truncated_packet_data, corrupt_packet_length, packet_exceeds_max_limit, end_of_file, GlobalHeader,
  new_global_header, PacketRecord, microsec_native, microsec_swapped, nanosec_native,
  nanosec_swapped, bswap16, bswap32,
}

-- `std::istream`: `good` is that none of its error bits is set.
pub record Stream : Type 0 where
  pub rest : List ℕ
  pub good : Bool

-- `read(buffer, n)`: the bytes that it delivers, as many as `gcount()` says.
unfoldable pub read_stream : ℕ → Stream → List ℕ × Stream
read_stream n s =
    if not s.good
    then ([], s)
    else if leb n (length s.rest)
    then (take n s.rest, record s { rest = drop n s.rest })
    else (s.rest, record { rest = []; good = false })

-- `peek() == eof()`, which sets a bit at the end.
unfoldable pub at_end : Stream → Bool × Stream
at_end s =
    if not s.good
    then (true, s)
    else elim s.rest [ [] ↦ (true, record s { good = false }) | _ ∷ _ ↦ (false, s) ]

pub record PcapReader : Type 0 where
  pub stream : Option Stream
  pub global_header : GlobalHeader
  pub is_open : Bool
  pub max_packet_size : ℕ

abbrev pub default_max_packet_size : ℕ
default_max_packet_size = 65535

abbrev pub new_reader : PcapReader
new_reader = record {
  stream = none;
  global_header = new_global_header;
  is_open = false;
  max_packet_size = default_max_packet_size;
}

unfoldable pub close : PcapReader → PcapReader
close r = record r { stream = none; is_open = false; global_header = new_global_header }

unfoldable pub set_max_packet_size : PcapReader → ℕ → PcapReader
set_max_packet_size r max_bytes = record r { max_packet_size = max_bytes }

-- `memcpy` into an integer of the machine.
unfoldable pub u16_at : List ℕ → ℕ → ℕ
u16_at raw i = get_or raw i 0 + get_or raw (i + 1) 0 * 256

unfoldable pub u32_at : List ℕ → ℕ → ℕ
u32_at raw i =
    get_or raw i 0
    + get_or raw (i + 1) 0 * 256
    + get_or raw (i + 2) 0 * 65536
    + get_or raw (i + 3) 0 * 16777216

-- `read_u16` and `read_u32`, the lambdas that swap on demand.
unfoldable pub read_u16 : Bool → List ℕ → ℕ → ℕ
read_u16 swapped raw i = if swapped then bswap16 (u16_at raw i) else u16_at raw i

unfoldable pub read_u32 : Bool → List ℕ → ℕ → ℕ
read_u32 swapped raw i = if swapped then bswap32 (u32_at raw i) else u32_at raw i

-- `swapped` and `nanosec` of a magic number that is known.
unfoldable pub magic_flags : ℕ → Option (Bool × Bool)
magic_flags magic =
    if magic == microsec_native
    then some (false, false)
    else if magic == microsec_swapped
    then some (true, false)
    else if magic == nanosec_native
    then some (false, true)
    else if magic == nanosec_swapped
    then some (true, true)
    else none

pub data HeaderResult : Type 0 where
  refused : PcapErrorCode → HeaderResult
  accepted : GlobalHeader → HeaderResult

-- The global header in its 24 bytes.
unfoldable pub header_of : List ℕ → HeaderResult
header_of raw = elim (magic_flags (u32_at raw 0)) [
  | none ↦ refused invalid_magic_number
  | some (swapped, nanosec) ↦
      if not (read_u16 swapped raw 4 == 2) || not (read_u16 swapped raw 6 == 4)
      then refused unsupported_version
      else if read_u32 swapped raw 16 == 0
      then refused invalid_snaplen
      else accepted (record {
        magic_number = u32_at raw 0;
        version_major = read_u16 swapped raw 4;
        version_minor = read_u16 swapped raw 6;
        thiszone = read_u32 swapped raw 8;
        sigfigs = read_u32 swapped raw 12;
        snaplen = read_u32 swapped raw 16;
        network = read_u32 swapped raw 20;
        is_byte_swapped = swapped;
        is_nanosecond_resolution = nanosec;
      })
]

-- `parse_global_header`, with the stream after it.
unfoldable pub parse_global_header : Stream → Stream × HeaderResult
parse_global_header s =
    let (raw, s') = read_stream 24 s in
    (s', if ltb (length raw) 24 then refused truncated_global_header else header_of raw)

abbrev pub opened : PcapReader → Stream × HeaderResult → PcapReader × PcapErrorCode
opened r (s, refused err) = (close r, err)
opened r (s, accepted header) =
    (record r { stream = some s; global_header = header; is_open = true }, success)

-- `open(stream)`.
unfoldable pub open_stream : PcapReader → Stream → PcapReader × PcapErrorCode
open_stream r s =
    if not s.good
    then (record (close r) { stream = some s }, stream_error)
    else opened (close r) (parse_global_header s)

-- `open(filepath)`, with the bytes of the file if it can be opened.
unfoldable pub open_file : PcapReader → Option (List ℕ) → PcapReader × PcapErrorCode
open_file r none = (close r, file_not_found)
open_file r (some bytes) = open_stream (close r) (record { rest = bytes; good = true })

-- `payload.resize(n)`, and the bytes that are read over it.
unfoldable pub resize : ℕ → List ℕ → List ℕ
resize n xs = take n xs ++ replicate (n - length xs) 0

unfoldable pub overwrite : List ℕ → List ℕ → List ℕ
overwrite bytes xs = bytes ++ drop (length bytes) xs

-- The stream of the reader, the record and the code after `read_next_packet`.
pub record ReadResult : Type 0 where
  pub stream : Stream
  pub rec : PacketRecord
  pub code : PcapErrorCode

-- The payload, once the header of the record is stored.
unfoldable pub read_payload : Stream → PacketRecord → ℕ → ReadResult
read_payload s record0 incl_len =
    if ltb 0 incl_len
    then (let (bytes, s') = read_stream incl_len s in
        record {
          stream = s';
          rec = record record0 { payload = overwrite bytes record0.payload };
          code = if ltb (length bytes) incl_len then truncated_packet_data else success;
        })
    else record { stream = s; rec = record0; code = success }

-- From the 16 bytes of the record header on.
unfoldable pub read_record : GlobalHeader → ℕ → List ℕ → Stream → PacketRecord → ReadResult
read_record g max_size raw s record0 =
    let swapped = g.is_byte_swapped in
    let incl_len = read_u32 swapped raw 8 in
    if ltb g.snaplen incl_len
    then record { stream = s; rec = record0; code = corrupt_packet_length }
    else if ltb max_size incl_len
    then record { stream = s; rec = record0; code = packet_exceeds_max_limit }
    else read_payload s
        (record {
          header = record {
            ts_sec = read_u32 swapped raw 0;
            ts_usec = read_u32 swapped raw 4;
            incl_len = incl_len;
            orig_len = read_u32 swapped raw 12;
          };
          payload = resize incl_len record0.payload;
        })
        incl_len

-- From the record header on, at a stream that is not at its end.
unfoldable pub read_header : GlobalHeader → ℕ → Stream → PacketRecord → ReadResult
read_header g max_size s record0 =
    let (raw, s') = read_stream 16 s in
    if length raw == 0
    then record { stream = s'; rec = record0; code = end_of_file }
    else if ltb (length raw) 16
    then record { stream = s'; rec = record0; code = truncated_packet_header }
    else read_record g max_size raw s' record0

unfoldable pub read_open : GlobalHeader → ℕ → Stream → PacketRecord → ReadResult
read_open g max_size s record0 =
    let (ended, s') = at_end s in
    if ended
    then record { stream = s'; rec = record0; code = end_of_file }
    else read_header g max_size s' record0

-- `read_next_packet(record)`.
unfoldable pub read_next_packet :
    PcapReader → PacketRecord → PcapReader × PacketRecord × PcapErrorCode
read_next_packet r record0 = if not r.is_open then (r, record0, stream_error) else elim r.stream [
  | none ↦ (r, record0, stream_error)
  | some s ↦
      let result = read_open r.global_header r.max_packet_size s record0 in
      (record r { stream = some result.stream }, result.rec, result.code)
]
