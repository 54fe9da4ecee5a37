-- ===== src/Packet/Roundtrip.antt =====
-- A capture is read back, whole or cut short.
use mathlib.Core.List.{append-nil, append_assoc}
use packet_dpi_engine.Base.{
  ℕ, zero, suc, ◌+◌, ◌≡◌, refl, sym, ap, ◌∙◌, Bool, true, List, [], ◌∷◌, ◌++◌, Option, none, some,
  length, arith,
}
use packet_dpi_engine.Memory.{◌>>=◌}
use packet_dpi_engine.Packet.Types.{PcapErrorCode, success, end_of_file, GlobalHeader, PacketRecord}
use packet_dpi_engine.Packet.Reader.{
  PcapReader, read_open, read_next_packet, parse_global_header, open_stream, close, at_end,
}
use packet_dpi_engine.Packet.Encoding.{
  Preamble, IsPreamble, encode_preamble, header_read, header_of-encode_preamble,
  length-encode_preamble,
}
use packet_dpi_engine.Packet.ReaderLaws.{
  read_stream-append, Fits, encode_record, read_open-encode_record,
}

-- A loop that reads until a code other than `Success`, as `WorkerPool::process_pcap` does: the
-- records, and that code.
abbrev pub after_read :
    PacketRecord × PcapErrorCode
    → Option (List PacketRecord × PcapErrorCode)
    → Option (List PacketRecord × PcapErrorCode)
after_read (r, success) more = do (rs, code) ← more; some (r ∷ rs, code)
after_read (r, code) more = some ([], code)

unfoldable pub read_packets :
    ℕ → PcapReader → PacketRecord → Option (List PacketRecord × PcapErrorCode)
read_packets zero r record0 = none
read_packets (suc n) r record0 =
    let (r', next, code) = read_next_packet r record0 in
    after_read (next, code) (read_packets n r' next)

unfoldable pub encode_records : Bool → List PacketRecord → List ℕ
encode_records big [] = []
encode_records big (r ∷ rs) = encode_record big r ++ encode_records big rs

abbrev pub AllFit : GlobalHeader → ℕ → List PacketRecord → Type 0
AllFit g max_size [] = Unit {0}
AllFit g max_size (r ∷ rs) = Fits g max_size r × AllFit g max_size rs

-- A reader with an open stream.
abbrev pub reader_at : PcapReader → List ℕ → PcapReader
reader_at r rest = record r { stream = some (record { rest = rest; good = true }) }

-- The record that is handed to the call after these.
abbrev pub last_of : PacketRecord → List PacketRecord → PacketRecord
last_of r0 [] = r0
last_of r0 (r ∷ rs) = last_of r rs

abbrev pub prepend :
    List PacketRecord
    → Option (List PacketRecord × PcapErrorCode)
    → Option (List PacketRecord × PcapErrorCode)
prepend rs o = do (more, code) ← o; some (rs ++ more, code)

prepend-nil : (o : Option (List PacketRecord × PcapErrorCode)) → prepend [] o ≡ o
prepend-nil none = refl
prepend-nil (some (rs, code)) = refl

prepend-cons :
    (r : PacketRecord) (rs : List PacketRecord) (o : Option (List PacketRecord × PcapErrorCode))
    → after_read (r, success) (prepend rs o) ≡ prepend (r ∷ rs) o
prepend-cons r rs none = refl
prepend-cons r rs (some (more, code)) = refl

read_next_packet-encode_record :
    (r : PcapReader) (x r0 : PacketRecord) (tail : List ℕ)
    → r.is_open ≡ true
    → Fits r.global_header r.max_packet_size x
    → read_next_packet (reader_at r (encode_record r.global_header.is_byte_swapped x ++ tail)) r0
      ≡ (reader_at r tail, x, success)
unfolding read_next_packet
read_next_packet-encode_record r x r0 tail is_open v =
    rw (is_open, read_open-encode_record r.global_header r.max_packet_size x r0 tail v) refl

pub read_packets-step :
    (n : ℕ) (r : PcapReader) (r0 : PacketRecord) {r' : PcapReader} {x : PacketRecord}
    {code : PcapErrorCode}
    → read_next_packet r r0 ≡ (r', x, code)
    → read_packets (suc n) r r0 ≡ after_read (x, code) (read_packets n r' x)
unfolding read_packets
read_packets-step n r r0 h = rw h refl

pub read_packets-append :
    (n : ℕ) (r : PcapReader) (rs : List PacketRecord) (r0 : PacketRecord) (tail : List ℕ)
    → r.is_open ≡ true
    → AllFit r.global_header r.max_packet_size rs
    → read_packets
        (length rs + n)
        (reader_at r (encode_records r.global_header.is_byte_swapped rs ++ tail))
        r0
      ≡ prepend rs (read_packets n (reader_at r tail) (last_of r0 rs))
unfolding read_packets encode_records
read_packets-append n r [] r0 tail is_open v =
    let bare : 0 + n ≡ n = omega arith in
    ap (λ k. read_packets k (reader_at r tail) r0) bare
    ∙ sym (prepend-nil (read_packets n (reader_at r tail) r0))
read_packets-append n r (x ∷ xs) r0 tail is_open v =
    let big = r.global_header.is_byte_swapped in
    let more : suc (length xs) + n ≡ suc (length xs + n) = omega arith in
    let rest = encode_records big xs ++ tail in
    let bytes = append_assoc (encode_record big x) (encode_records big xs) tail in
    let next = read_next_packet-encode_record r x r0 rest is_open v.0 in
    let later = read_packets-append n r xs x tail is_open v.1 in
    ap
      (λ k.
        read_packets k (reader_at r ((encode_record big x ++ encode_records big xs) ++ tail)) r0)
      more
    ∙ ap (λ t. read_packets (suc (length xs + n)) (reader_at r t) r0) bytes
    ∙ read_packets-step (length xs + n) _ r0 next
    ∙ ap (after_read (x, success)) later
    ∙ prepend-cons x xs (read_packets n (reader_at r tail) (last_of x xs))

read_packets-ended :
    (r : PcapReader) (r0 : PacketRecord)
    → r.is_open ≡ true
    → read_packets 1 (reader_at r []) r0 ≡ some ([], end_of_file)
unfolding read_packets read_next_packet read_open at_end
read_packets-ended r r0 is_open = rw is_open refl

-- A file is opened at its records.
pub open_stream-encode_preamble :
    (r : PcapReader) (p : Preamble) (rest : List ℕ)
    → IsPreamble p
    → open_stream r (record { rest = encode_preamble p ++ rest; good = true }) ≡ (
      record r {
        stream = some (record { rest = rest; good = true });
        global_header = header_read p;
        is_open = true;
      },
      success,
    )
unfolding open_stream parse_global_header close
open_stream-encode_preamble r p rest v =
    rw
      (
        read_stream-append (encode_preamble p) rest 24 (sym (length-encode_preamble p)),
        length-encode_preamble p,
        header_of-encode_preamble p v,
      )
      refl

-- A reader that opens a capture in either byte order and either resolution - a global header of
-- version 2.4 with a positive snaplen, then records whose captured length counts their bytes and is
-- within the snaplen and the limit of the reader - succeeds, knows the byte order, the resolution and
-- the fields of the header, and reading until the first code other than success returns exactly the
-- records in their order and then the end of the file.
pub read_packets-encode_records :
    (r : PcapReader) (p : Preamble) (rs : List PacketRecord) (r0 : PacketRecord)
    → IsPreamble p
    → AllFit (header_read p) r.max_packet_size rs
    → let (r', code) =
        open_stream r
          (record { rest = encode_preamble p ++ encode_records p.big rs; good = true }) in
      (code ≡ success)
      × (r'.global_header ≡ header_read p)
      × (read_packets (length rs + 1) r' r0 ≡ some (rs, end_of_file))
read_packets-encode_records r p rs r0 v fit =
    let r' : PcapReader = record r { global_header = header_read p; is_open = true } in
    let start = open_stream-encode_preamble r p (encode_records p.big rs) v in
    let bytes = append-nil (encode_records p.big rs) in
    let read =
      ap (λ t. read_packets (length rs + 1) (reader_at r' t) r0) (sym bytes)
      ∙ read_packets-append 1 r' rs r0 [] refl fit
      ∙ ap (prepend rs) (read_packets-ended r' (last_of r0 rs) refl)
      ∙ ap (λ t. some (t, end_of_file)) (append-nil rs) in
    rw start (refl, refl, read)
