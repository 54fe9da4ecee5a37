-- ===== src/Packet/Types.antt =====
-- include/dpi/packet/pcap_types.h, and `normalize_timestamp_us` of include/dpi/flow/flow_types.h.
use packet_dpi_engine.Base.{
  ℕ, ◌+◌, ◌*◌, ◌/◌, ◌%◌, ◌^◌, ◌<◌, ◌≡◌, Bool, true, false, List, ltb, if◌then◌else◌, arith, length,
}

pub data PcapErrorCode : Type 0 where
  success file_not_found stream_error truncated_global_header invalid_magic_number : PcapErrorCode
  unsupported_version invalid_snaplen truncated_packet_header truncated_packet_data : PcapErrorCode
  corrupt_packet_length packet_exceeds_max_limit end_of_file : PcapErrorCode

-- `thiszone`, an `int32_t`, is kept as its bit pattern.
pub record GlobalHeader : Type 0 where
  pub magic_number : ℕ
  pub version_major : ℕ
  pub version_minor : ℕ
  pub thiszone : ℕ
  pub sigfigs : ℕ
  pub snaplen : ℕ
  pub network : ℕ
  pub is_byte_swapped : Bool
  pub is_nanosecond_resolution : Bool

abbrev pub new_global_header : GlobalHeader
new_global_header = record {
  magic_number = 0;
  version_major = 0;
  version_minor = 0;
  thiszone = 0;
  sigfigs = 0;
  snaplen = 0;
  network = 0;
  is_byte_swapped = false;
  is_nanosecond_resolution = false;
}

pub record PacketHeader : Type 0 where
  pub ts_sec : ℕ
  pub ts_usec : ℕ
  pub incl_len : ℕ
  pub orig_len : ℕ

pub record PacketRecord : Type 0 where
  pub header : PacketHeader
  pub payload : List ℕ

abbrev pub microsec_native : ℕ
microsec_native = 0xa1b2c3d4

abbrev pub microsec_swapped : ℕ
microsec_swapped = 0xd4c3b2a1

abbrev pub nanosec_native : ℕ
nanosec_native = 0xa1b23c4d

abbrev pub nanosec_swapped : ℕ
nanosec_swapped = 0x4d3cb2a1

-- The two bytes of a word change places; the shifted parts share no bit, so `|` is a sum.
unfoldable pub bswap16 : ℕ → ℕ
bswap16 v = v * 256 % 65536 + v / 256

unfoldable pub bswap32 : ℕ → ℕ
bswap32 v = v % 256 * 16777216 + v / 256 % 256 * 65536 + v / 65536 % 256 * 256 + v / 16777216 % 256

-- In `uint64_t`.
unfoldable pub normalize_timestamp_us : ℕ → ℕ → Bool → ℕ
normalize_timestamp_us ts_sec ts_frac is_nanoseconds =
    (ts_sec * 1000000 % 2 ^ 64 + (if is_nanoseconds then ts_frac / 1000 else ts_frac)) % 2 ^ 64

-- The length on the wire by which the flow table and the workers count.
unfoldable pub wire_length : PacketRecord → ℕ
wire_length r = if ltb 0 r.header.orig_len then r.header.orig_len else length r.payload

pub bswap32-bswap32 : (v : ℕ) → v < 4294967296 → bswap32 (bswap32 v) ≡ v
unfolding bswap32
bswap32-bswap32 v h = omega arith

pub bswap16-bswap16 : (v : ℕ) → v < 65536 → bswap16 (bswap16 v) ≡ v
unfolding bswap16
bswap16-bswap16 v h = omega arith

-- Time stamps of 32-bit fields do not wrap in 64 bits.
pub normalize_timestamp_us_exact :
    (s f : ℕ) (n : Bool)
    → s < 4294967296
    → f < 4294967296
    → normalize_timestamp_us s f n ≡ s * 1000000 + (if n then f / 1000 else f)
unfolding normalize_timestamp_us
normalize_timestamp_us_exact s f true h k = omega arith
normalize_timestamp_us_exact s f false h k = omega arith
