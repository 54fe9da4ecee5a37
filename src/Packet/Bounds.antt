-- ===== src/Packet/Bounds.antt =====
-- `PcapReader` on any stream: what it accepts is within its limits, and reading ends.
use packet_dpi_engine.Base.{
  ℕ, zero, suc, ◌+◌, ◌<◌, ◌≤◌, ◌≡◌, ◌≢◌, refl, ap, Bool, true, false, List, [], ◌∷◌, Option, none,
  some, length, take, drop, length-take, length-drop, arith, ◌⊎◌, subst,
}
use packet_dpi_engine.Packet.Types.{
  PcapErrorCode, success, stream_error, GlobalHeader, new_global_header, PacketRecord,
}
use packet_dpi_engine.Packet.Reader.{
  Stream, read_stream, at_end, PcapReader, close, read_u32, resize, ReadResult, read_payload,
  read_record, read_header, read_open, read_next_packet, open_stream, refused, parse_global_header,
  header_of, accepted, magic_flags, u32_at,
}
use packet_dpi_engine.Packet.ReaderLaws.{length-resize, overwrite-resize}
use packet_dpi_engine.Packet.Roundtrip.{after_read, read_packets}

-- `n` bytes were delivered, and so many are gone.
read_stream-length :
    (n : ℕ) (s : Stream)
    → let (bytes, s') = read_stream n s in
      (length s.rest ≡ length bytes + length s'.rest) × (length bytes ≤ n)
unfolding read_stream
read_stream-length n s = ground (arith, length-take n s.rest, length-drop n s.rest)

at_end-rest : (s : Stream) → (at_end s).1.rest ≡ s.rest
unfolding at_end
at_end-rest s = ground arith

-- A successful read of a record: its payload is as long as its header says, within both limits, and
-- the stream has moved past it.
pub record Accepted (g : GlobalHeader) (max_size before : ℕ) (o : ReadResult) : Type 0 where
  pub counted : length o.rec.payload ≡ o.rec.header.incl_len
  pub within_snaplen : o.rec.header.incl_len ≤ g.snaplen
  pub within_limit : o.rec.header.incl_len ≤ max_size
  pub moved : before ≡ 16 + length o.rec.payload + length o.stream.rest

read_payload-Accepted :
    (g : GlobalHeader) (max_size : ℕ) (s : Stream) (r : PacketRecord) (n : ℕ) (old : List ℕ)
    → r.header.incl_len ≡ n
    → r.payload ≡ resize n old
    → n ≤ g.snaplen
    → n ≤ max_size
    → (read_payload s r n).code ≡ success
    → Accepted g max_size (16 + length s.rest) (read_payload s r n)
unfolding read_payload
read_payload-Accepted g max_size s r n old same sized snap limit h =
    let bytes = (read_stream n s).0 in
    grind (
      arith,
      same,
      sized,
      snap,
      limit,
      h,
      read_stream-length n s,
      length-resize n old,
      overwrite-resize bytes old n,
    )

read_record-Accepted :
    (g : GlobalHeader) (max_size : ℕ) (raw : List ℕ) (s : Stream) (r0 : PacketRecord)
    → (read_record g max_size raw s r0).code ≡ success
    → Accepted g max_size (16 + length s.rest) (read_record g max_size raw s r0)
unfolding read_record
read_record-Accepted g max_size raw s r0 h =
    let swapped = g.is_byte_swapped in
    let n = read_u32 swapped raw 8 in
    let r : PacketRecord = record {
      header = record {
        ts_sec = read_u32 swapped raw 0;
        ts_usec = read_u32 swapped raw 4;
        incl_len = n;
        orig_len = read_u32 swapped raw 12;
      };
      payload = resize n r0.payload;
    } in
    let payload = read_payload-Accepted g max_size s r n r0.payload refl refl in
    grind (arith, h, payload)

read_open-Accepted :
    (g : GlobalHeader) (max_size : ℕ) (s : Stream) (r0 : PacketRecord)
    → (read_open g max_size s r0).code ≡ success
    → Accepted g max_size (length s.rest) (read_open g max_size s r0)
unfolding read_open read_header
read_open-Accepted g max_size s r0 h =
    let s' = (at_end s).1 in
    let (raw, s'') = read_stream 16 s' in
    grind (
      arith,
      h,
      ap length (at_end-rest s),
      read_stream-length 16 s',
      read_record-Accepted g max_size raw s'' r0,
    )

-- The bytes that a reader has left.
abbrev pub left_of : Option Stream → ℕ
left_of none = 0
left_of (some s) = length s.rest

-- Records of the length that they say, within the limits of the reader.
abbrev pub AllWithin : GlobalHeader → ℕ → List PacketRecord → Type 0
AllWithin g max_size [] = Unit {0}
AllWithin g max_size (r ∷ rs) =
    (length r.payload ≡ r.header.incl_len)
    × (r.header.incl_len ≤ g.snaplen)
    × (r.header.incl_len ≤ max_size)
    × AllWithin g max_size rs

-- What a call does to the reader.
record Step (r : PcapReader) (o : PcapReader × PacketRecord × PcapErrorCode) : Type 0 where
  pub same_header : o.0.global_header ≡ r.global_header
  pub same_limit : o.0.max_packet_size ≡ r.max_packet_size
  pub fewer : o.2 ≡ success → left_of o.0.stream < left_of r.stream
  pub within : o.2 ≡ success → AllWithin r.global_header r.max_packet_size (o.1 ∷ [])

read_next_packet-Step : (r : PcapReader) (r0 : PacketRecord) → Step r (read_next_packet r r0)
unfolding read_next_packet
read_next_packet-Step r r0 = grind (arith, read_open-Accepted r.global_header r.max_packet_size)

-- A result of a loop of reads: it stopped at some code other than success, and the records are within
-- the limits of the reader.
abbrev pub Stopped : GlobalHeader → ℕ → Option (List PacketRecord × PcapErrorCode) → Type 0
Stopped g max_size o =
    (rs : List PacketRecord) × (code : PcapErrorCode) × (o ≡ some (rs, code))
    × (code ≢ success)
    × AllWithin g max_size rs

after_read-Stopped :
    (g : GlobalHeader) (max_size : ℕ) (x : PacketRecord) (code : PcapErrorCode)
    (o : Option (List PacketRecord × PcapErrorCode))
    → (code ≡ success → AllWithin g max_size (x ∷ []))
    → (code ≡ success → Stopped g max_size o)
    → Stopped g max_size (after_read (x, code) o)
after_read-Stopped g max_size x success o one more =
    let (rs, code, said, other, within) = more refl in
    let (counted, snap, limit, _) = one refl in
    (x ∷ rs, code, ap (after_read (x, success)) said, other, (counted, snap, limit, within))
after_read-Stopped g max_size x code o one more = ([], code, refl, (λ q. ground arith), tt)

read_packets-Stopped :
    (n : ℕ) (r : PcapReader) (r0 : PacketRecord)
    → left_of r.stream < n
    → Stopped r.global_header r.max_packet_size (read_packets n r r0)
unfolding read_packets
read_packets-Stopped zero r r0 h = absurd (omega (arith, h))
read_packets-Stopped (suc n) r r0 h =
    let o = read_next_packet r r0 in
    let step = read_next_packet-Step r r0 in
    let again = read_packets n o.0 o.1 in
    after_read-Stopped r.global_header r.max_packet_size o.1 o.2 again step.within (λ went_on.
      let later = read_packets-Stopped n o.0 o.1 (omega (arith, h, step.fewer went_on)) in
      subst (λ g. Stopped g r.max_packet_size again) step.same_header
        (subst (λ m. Stopped o.0.global_header m again) step.same_limit later))

-- From any reader and any stream, whatever its bytes, reading ends at a code other than success after
-- at most one call for each byte left and one more, and every record it returned before that has as
-- many bytes as its header says and no more than the snaplen and than the limit of the reader.
pub read_packets_within :
    (r : PcapReader) (r0 : PacketRecord)
    → (rs : List PacketRecord) × (code : PcapErrorCode) × (read_packets (left_of r.stream + 1) r r0
        ≡ some (rs, code))
      × (code ≢ success)
      × AllWithin r.global_header r.max_packet_size rs
read_packets_within r r0 = read_packets-Stopped (left_of r.stream + 1) r r0 (omega arith)

-- Reading from a reader that is not open is an error, and changes nothing.
abbrev pub RefusesReads : PcapReader → Type 0
RefusesReads r = (r0 : PacketRecord) → read_next_packet r r0 ≡ (r, r0, stream_error)

-- A header is refused by a code other than success.
header_of-refused :
    (raw : List ℕ) (code : PcapErrorCode) → header_of raw ≡ refused code → code ≢ success
unfolding header_of
header_of-refused raw code h = ground arith

-- The four magic numbers of the format, read by a little-endian machine: microseconds or nanoseconds,
-- written by a little-endian machine or by a big-endian one.
abbrev pub Magic : ℕ → Bool → Bool → Type 0
Magic magic big nanos =
    ((magic ≡ 0xa1b2c3d4) × (big ≡ false) × (nanos ≡ false))
    ⊎ ((magic ≡ 0xd4c3b2a1) × (big ≡ true) × (nanos ≡ false))
    ⊎ ((magic ≡ 0xa1b23c4d) × (big ≡ false) × (nanos ≡ true))
    ⊎ ((magic ≡ 0x4d3cb2a1) × (big ≡ true) × (nanos ≡ true))

-- A header that the format allows.
pub record IsHeader (g : GlobalHeader) : Type 0 where
  pub magic : Magic g.magic_number g.is_byte_swapped g.is_nanosecond_resolution
  pub major : g.version_major ≡ 2
  pub minor : g.version_minor ≡ 4
  pub captures : 0 < g.snaplen

magic_flags-Magic :
    (magic : ℕ) {flags : Bool × Bool} → magic_flags magic ≡ some flags → Magic magic flags.0 flags.1
unfolding magic_flags
magic_flags-Magic magic h = ground (arith, h)

header_of-IsHeader : (raw : List ℕ) {g : GlobalHeader} → header_of raw ≡ accepted g → IsHeader g
unfolding header_of
header_of-IsHeader raw h = grind (arith, h, magic_flags-Magic (u32_at raw 0))

-- Whatever was open before and whatever the bytes of the stream: opening either succeeds, and then
-- the reader is open behind the 24 bytes of a header of the format (one of the four magic numbers,
-- with the byte order and the resolution that it stands for, version 2.4 and a positive snaplen), or
-- it returns an error and leaves the reader closed with an empty header, so that every read fails
-- with a stream error and changes nothing.
pub open_stream_outcome :
    (r : PcapReader) (s : Stream)
    → let (r', code) = open_stream r s in
      ((code ≡ success)
        × (r'.is_open ≡ true)
        × IsHeader r'.global_header
        × (24 ≤ length s.rest)
        × (r'.stream ≡ some (record s { rest = drop 24 s.rest })))
      ⊎ ((code ≢ success)
          × (r'.is_open ≡ false)
          × (r'.global_header ≡ new_global_header)
          × RefusesReads r')
unfolding open_stream parse_global_header read_next_packet close read_stream
open_stream_outcome r s = grind (
  arith,
  header_of-IsHeader (take 24 s.rest),
  header_of-refused (take 24 s.rest),
  length-take 24 s.rest,
)
