-- ===== src/Packet/Truncation.antt =====
-- A capture that ends inside a record.
use mathlib.Core.List.{append-nil}
use packet_dpi_engine.Base.{
  ℕ, ◌+◌, ◌-◌, ◌<◌, ◌≤◌, ◌≡◌, refl, ap, ◌∙◌, true, List, [], ◌++◌, Option, some, ltb, if◌then◌else◌,
  inl, inr, Bool-cases, ltb→lt, length, take, length-append, length-take, arith,
}
use packet_dpi_engine.Memory.Views.{take-append-past}
use packet_dpi_engine.Packet.Types.{
  PcapErrorCode, success, truncated_packet_header, truncated_packet_data, GlobalHeader,
  PacketRecord,
}
use packet_dpi_engine.Packet.Reader.{
  Stream, PcapReader, read_record, read_header, read_open, read_next_packet, open_stream,
}
use packet_dpi_engine.Packet.Encoding.{
  Preamble, IsPreamble, encode_preamble, header_read, encode_header, read_u32-encode_header,
  length-encode_header,
}
use packet_dpi_engine.Packet.ReaderLaws.{
  read_stream-short, Fits, encode_record, read_header-sixteen, read_payload-cut, at_end-good,
}
use packet_dpi_engine.Packet.Roundtrip.{
  after_read, read_packets, encode_records, AllFit, reader_at, last_of, prepend,
  read_packets-append, open_stream-encode_preamble,
}

-- The code for a record of which `k` bytes are there.
abbrev pub cut_code : ℕ → PcapErrorCode
cut_code k = if ltb k 16 then truncated_packet_header else truncated_packet_data

read_open-short :
    (g : GlobalHeader) (max_size : ℕ) (bytes : List ℕ) (r0 : PacketRecord)
    → 0 < length bytes
    → length bytes < 16
    → (read_open g max_size (record { rest = bytes; good = true }) r0).code
      ≡ truncated_packet_header
unfolding read_open read_header
read_open-short g max_size bytes r0 full short =
    let s : Stream = record { rest = bytes; good = true } in
    ground (arith, full, short, at_end-good s refl full, read_stream-short bytes 16 short)

read_open-partial :
    (g : GlobalHeader) (max_size : ℕ) (r r0 : PacketRecord) (bytes : List ℕ)
    → Fits g max_size r
    → length bytes < length r.payload
    → (read_open g max_size
        (record { rest = encode_header g.is_byte_swapped r.header ++ bytes; good = true })
        r0).code
      ≡ truncated_packet_data
unfolding read_record
read_open-partial g max_size r r0 bytes v short =
    let raw = encode_header g.is_byte_swapped r.header in
    let words = read_u32-encode_header g.is_byte_swapped r.header v.words in
    let header =
      read_header-sixteen g max_size raw bytes r0
        (length-encode_header g.is_byte_swapped r.header) in
    grind (arith, header, words, v, short, read_payload-cut bytes r.header.incl_len)

read_open-cut :
    (g : GlobalHeader) (max_size : ℕ) (r r0 : PacketRecord) (k : ℕ)
    → Fits g max_size r
    → 0 < k
    → k < length (encode_record g.is_byte_swapped r)
    → (read_open g max_size
        (record { rest = take k (encode_record g.is_byte_swapped r); good = true })
        r0).code
      ≡ cut_code k
unfolding encode_record
read_open-cut g max_size r r0 k v some_left short =
    let raw = encode_header g.is_byte_swapped r.header in
    let size = length-take k (raw ++ r.payload) in
    let sixteen = length-encode_header g.is_byte_swapped r.header in
    let whole = length-append raw r.payload in
    elim (Bool-cases (ltb k 16)) [
      | inl h ↦
          let few = ltb→lt k 16 h in
          rw h (
            read_open-short g max_size (take k (raw ++ r.payload)) r0
              (omega (arith, size, short, some_left)) (omega (arith, size, short, few)))
      | inr h ↦
          let many : 16 ≤ k = ground (arith, h) in
          let kept = take-append-past raw r.payload k (omega (arith, sixteen, many)) in
          let rest = length-take (k - length raw) r.payload in
          rw h (
            ap (λ t. (read_open g max_size (record { rest = t; good = true }) r0).code) kept
            ∙ read_open-partial g max_size r r0 (take (k - length raw) r.payload) v
                (omega (arith, rest, sixteen, whole, short, many)))
    ]

cut_code_error :
    (k : ℕ) (r : PacketRecord) (o : Option (List PacketRecord × PcapErrorCode))
    → after_read (r, cut_code k) o ≡ some ([], cut_code k)
cut_code_error k r o = elim (Bool-cases (ltb k 16)) [ inl h ↦ rw h refl | inr h ↦ rw h refl ]

read_packets-cut :
    (r : PcapReader) (x r0 : PacketRecord) (k : ℕ)
    → r.is_open ≡ true
    → Fits r.global_header r.max_packet_size x
    → 0 < k
    → k < length (encode_record r.global_header.is_byte_swapped x)
    → read_packets 1 (reader_at r (take k (encode_record r.global_header.is_byte_swapped x))) r0
      ≡ some ([], cut_code k)
unfolding read_packets read_next_packet
read_packets-cut r x r0 k is_open v some_left short =
    let bytes = take k (encode_record r.global_header.is_byte_swapped x) in
    let result =
      read_open r.global_header r.max_packet_size (record { rest = bytes; good = true }) r0 in
    let code = read_open-cut r.global_header r.max_packet_size x r0 k v some_left short in
    rw (is_open, code) (cut_code_error k result.rec _)

-- A capture that was cut inside its last record - as above, but with only the first `k` bytes of one
-- more record, at least one and not all - still opens and gives all the whole records in their order,
-- and then a code that tells where it was cut: a truncated packet header if fewer than 16 bytes are
-- left of the record, else truncated packet data.
pub read_packets-take :
    (r : PcapReader) (p : Preamble) (rs : List PacketRecord) (x r0 : PacketRecord) (k : ℕ)
    → IsPreamble p
    → AllFit (header_read p) r.max_packet_size rs
    → Fits (header_read p) r.max_packet_size x
    → 0 < k
    → k < length (encode_record p.big x)
    → let (r', code) = open_stream r (record {
      rest = encode_preamble p ++ (encode_records p.big rs ++ take k (encode_record p.big x));
      good = true;
    }) in
      (code ≡ success)
      × (read_packets (length rs + 1) r' r0
          ≡ some (rs, if ltb k 16 then truncated_packet_header else truncated_packet_data))
read_packets-take r p rs x r0 k v fit last some_left short =
    let r' : PcapReader = record r { global_header = header_read p; is_open = true } in
    let bytes = take k (encode_record p.big x) in
    let start = open_stream-encode_preamble r p (encode_records p.big rs ++ bytes) v in
    let read =
      read_packets-append 1 r' rs r0 bytes refl fit
      ∙ ap (prepend rs) (read_packets-cut r' x (last_of r0 rs) k refl last some_left short)
      ∙ ap (λ t. some (t, cut_code k)) (append-nil rs) in
    rw start (refl, read)
