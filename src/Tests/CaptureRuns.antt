-- ===== src/Tests/CaptureRuns.antt =====
-- The theorems on the PCAP reader, at a big-endian capture with nanoseconds and two packets.
use packet_dpi_engine.Base.{
  ℕ, ◌+◌, ◌≡◌, ◌≢◌, ◌<◌, ◌≤◌, ◌⊎◌, refl, true, false, List, [], ◌∷◌, ◌++◌, some, length, take,
  replicate, arith,
}
use packet_dpi_engine.Packet.Types.{
  PcapErrorCode, success, end_of_file, truncated_packet_data, new_global_header, PacketRecord,
}
use packet_dpi_engine.Packet.Reader.{PcapReader, Stream, new_reader, open_stream}
use packet_dpi_engine.Packet.Encoding.{
  Preamble, IsPreamble, encode_preamble, header_read, encode_header,
}
use packet_dpi_engine.Packet.ReaderLaws.{Fits, encode_record}
use packet_dpi_engine.Packet.Roundtrip.{
  read_packets, encode_records, reader_at, read_packets-encode_records,
}
use packet_dpi_engine.Packet.Truncation.{read_packets-take}
use packet_dpi_engine.Packet.Bounds.{
  AllWithin, left_of, IsHeader, RefusesReads, read_packets_within, open_stream_outcome,
}

abbrev preamble : Preamble
preamble = record {
  big = true;
  nanos = true;
  thiszone = 0;
  sigfigs = 0;
  snaplen = 65535;
  network = 1;
}

preamble-IsPreamble : IsPreamble preamble
preamble-IsPreamble = record {
  thiszone = omega arith;
  sigfigs = omega arith;
  snaplen = omega arith;
  network = omega arith;
  positive = omega arith;
}

abbrev packet_of : ℕ → List ℕ → PacketRecord
packet_of ts payload = record {
  header = record { ts_sec = ts; ts_usec = 250; incl_len = length payload; orig_len = 90 };
  payload = payload;
}

abbrev first_packet : PacketRecord
first_packet = packet_of 1700000000 (1 ∷ 2 ∷ 3 ∷ [])

abbrev second_packet : PacketRecord
second_packet = packet_of 1700000001 []

first_packet-Fits : Fits (header_read preamble) 65535 first_packet
first_packet-Fits = record {
  words = record {
    ts_sec = omega arith;
    ts_usec = omega arith;
    incl_len = omega arith;
    orig_len = omega arith;
  };
  counted = refl;
  within_snaplen = omega arith;
  within_limit = omega arith;
}

second_packet-Fits : Fits (header_read preamble) 65535 second_packet
second_packet-Fits = record {
  words = record {
    ts_sec = omega arith;
    ts_usec = omega arith;
    incl_len = omega arith;
    orig_len = omega arith;
  };
  counted = refl;
  within_snaplen = omega arith;
  within_limit = omega arith;
}

abbrev capture : Stream
capture = record {
  rest = encode_preamble preamble ++ encode_records true (first_packet ∷ second_packet ∷ []);
  good = true;
}

read_packets-encode_records_example :
    let (r', code) = open_stream new_reader capture in
    (code ≡ success)
    × (r'.global_header ≡ header_read preamble)
    × (read_packets 3 r' first_packet ≡ some (first_packet ∷ second_packet ∷ [], end_of_file))
read_packets-encode_records_example =
    read_packets-encode_records new_reader preamble (first_packet ∷ second_packet ∷ []) first_packet
      preamble-IsPreamble (first_packet-Fits, (second_packet-Fits, tt))

length-first : 18 < length (encode_record true first_packet)
unfolding encode_record encode_header
length-first = omega arith

-- The last byte of the last record is missing.
read_packets-take_example :
    let (r', code) = open_stream new_reader (record {
      rest =
          encode_preamble preamble
          ++ (encode_records true (second_packet ∷ [])
              ++ take 18 (encode_record true first_packet));
      good = true;
    }) in
    (code ≡ success)
    × (read_packets 2 r' first_packet ≡ some (second_packet ∷ [], truncated_packet_data))
read_packets-take_example =
    read_packets-take new_reader preamble (second_packet ∷ []) first_packet first_packet 18
      preamble-IsPreamble (second_packet-Fits, tt) first_packet-Fits (omega arith) length-first

abbrev garbage_reader : PcapReader
garbage_reader = record (reader_at new_reader (replicate 40 255)) {
  global_header = header_read preamble;
  is_open = true;
}

read_packets_within_example :
    (rs : List PacketRecord) × (code : PcapErrorCode) × (read_packets
        (left_of garbage_reader.stream + 1)
        garbage_reader
        first_packet
      ≡ some (rs, code))
    × (code ≢ success)
    × AllWithin garbage_reader.global_header garbage_reader.max_packet_size rs
read_packets_within_example = read_packets_within garbage_reader first_packet

-- The header of a big-endian machine, with microseconds and a snaplen of 96 bytes, and one byte more.
abbrev big_header : Stream
big_header = record {
  rest =
      (0xa1 ∷ 0xb2 ∷ 0xc3 ∷ 0xd4 ∷ 0 ∷ 2 ∷ 0 ∷ 4 ∷ [])
      ++ replicate 8 0
      ++ (0 ∷ 0 ∷ 0 ∷ 96 ∷ 0 ∷ 0 ∷ 0 ∷ 1 ∷ 7 ∷ []);
  good = true;
}

open_stream_outcome_example :
    let (r', code) = open_stream garbage_reader big_header in
    ((code ≡ success)
      × (r'.is_open ≡ true)
      × IsHeader r'.global_header
      × (24 ≤ 25)
      × (r'.stream ≡ some (record { rest = 7 ∷ []; good = true })))
    ⊎ ((code ≢ success)
        × (r'.is_open ≡ false)
        × (r'.global_header ≡ new_global_header)
        × RefusesReads r')
open_stream_outcome_example = open_stream_outcome garbage_reader big_header
