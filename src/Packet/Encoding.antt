-- ===== src/Packet/Encoding.antt =====
-- Captures as bytes, in either byte order, and what the readers of integers get back from them.
use packet_dpi_engine.Base.{
  ℕ, ◌/◌, ◌%◌, ◌<◌, ◌≡◌, refl, Bool, true, false, List, [], ◌∷◌, ◌++◌, length, arith, some,
}
use packet_dpi_engine.Packet.Types.{
  GlobalHeader, PacketHeader, microsec_native, microsec_swapped, nanosec_native, nanosec_swapped,
  bswap16, bswap32,
}
use packet_dpi_engine.Packet.Reader.{
  u16_at, u32_at, read_u16, read_u32, magic_flags, accepted, header_of,
}

-- Integers as a machine writes them; `big` is the order opposite to that of the reader.
abbrev pub u16_bytes : Bool → ℕ → List ℕ
u16_bytes true v = v / 256 ∷ v % 256 ∷ []
u16_bytes false v = v % 256 ∷ v / 256 ∷ []

abbrev pub u32_bytes : Bool → ℕ → List ℕ
u32_bytes true v = v / 16777216 ∷ v / 65536 % 256 ∷ v / 256 % 256 ∷ v % 256 ∷ []
u32_bytes false v = v % 256 ∷ v / 256 % 256 ∷ v / 65536 % 256 ∷ v / 16777216 ∷ []

-- The record header on the wire.
unfoldable pub encode_header : Bool → PacketHeader → List ℕ
encode_header big h =
    u32_bytes big h.ts_sec
    ++ (u32_bytes big h.ts_usec ++ (u32_bytes big h.incl_len ++ u32_bytes big h.orig_len))

pub record Is32Bits (h : PacketHeader) : Type 0 where
  pub ts_sec : h.ts_sec < 4294967296
  pub ts_usec : h.ts_usec < 4294967296
  pub incl_len : h.incl_len < 4294967296
  pub orig_len : h.orig_len < 4294967296

pub read_u32-encode_header :
    (big : Bool) (h : PacketHeader)
    → Is32Bits h
    → let raw = encode_header big h in
      (read_u32 big raw 0 ≡ h.ts_sec)
      × (read_u32 big raw 4 ≡ h.ts_usec)
      × (read_u32 big raw 8 ≡ h.incl_len)
      × (read_u32 big raw 12 ≡ h.orig_len)
unfolding encode_header read_u32 u32_at bswap32
read_u32-encode_header true h v = (
  omega (arith, v.ts_sec),
  omega (arith, v.ts_usec),
  omega (arith, v.incl_len),
  omega (arith, v.orig_len),
)
read_u32-encode_header false h v = (
  omega (arith, v.ts_sec),
  omega (arith, v.ts_usec),
  omega (arith, v.incl_len),
  omega (arith, v.orig_len),
)

pub length-encode_header : (big : Bool) (h : PacketHeader) → length (encode_header big h) ≡ 16
unfolding encode_header
length-encode_header true h = refl
length-encode_header false h = refl

-- The magic number that a writer chooses, and the one that the reader sees.
abbrev pub magic_of : Bool → ℕ
magic_of true = nanosec_native
magic_of false = microsec_native

abbrev pub magic_seen : Bool → Bool → ℕ
magic_seen true true = nanosec_swapped
magic_seen true false = microsec_swapped
magic_seen false nanos = magic_of nanos

pub record Preamble : Type 0 where
  pub big : Bool
  pub nanos : Bool
  pub thiszone : ℕ
  pub sigfigs : ℕ
  pub snaplen : ℕ
  pub network : ℕ

-- The fields of the global header in their order, of version 2.4.
abbrev header_fields : Bool → ℕ → ℕ → ℕ → ℕ → ℕ → List ℕ
header_fields big magic thiszone sigfigs snaplen network =
    u32_bytes big magic
    ++ (u16_bytes big 2
        ++ (u16_bytes big 4
            ++ (u32_bytes big thiszone
                ++ (u32_bytes big sigfigs ++ (u32_bytes big snaplen ++ u32_bytes big network)))))

-- The global header on the wire.
unfoldable pub encode_preamble : Preamble → List ℕ
encode_preamble p = header_fields p.big (magic_of p.nanos) p.thiszone p.sigfigs p.snaplen p.network

pub record IsPreamble (p : Preamble) : Type 0 where
  pub thiszone : p.thiszone < 4294967296
  pub sigfigs : p.sigfigs < 4294967296
  pub snaplen : p.snaplen < 4294967296
  pub network : p.network < 4294967296
  pub positive : 0 < p.snaplen

-- The header that is read from it.
abbrev pub header_read : Preamble → GlobalHeader
header_read p = record {
  magic_number = magic_seen p.big p.nanos;
  version_major = 2;
  version_minor = 4;
  thiszone = p.thiszone;
  sigfigs = p.sigfigs;
  snaplen = p.snaplen;
  network = p.network;
  is_byte_swapped = p.big;
  is_nanosecond_resolution = p.nanos;
}

fields_read :
    (big : Bool) (m z s l n : ℕ)
    → z < 4294967296
    → s < 4294967296
    → l < 4294967296
    → n < 4294967296
    → let raw = header_fields big m z s l n in
      (read_u16 big raw 4 ≡ 2)
      × (read_u16 big raw 6 ≡ 4)
      × (read_u32 big raw 8 ≡ z)
      × (read_u32 big raw 12 ≡ s)
      × (read_u32 big raw 16 ≡ l)
      × (read_u32 big raw 20 ≡ n)
unfolding read_u16 u16_at bswap16 read_u32 u32_at bswap32
fields_read true m z s l n hz hs hl hn =
    (refl, refl, omega (arith, hz), omega (arith, hs), omega (arith, hl), omega (arith, hn))
fields_read false m z s l n hz hs hl hn =
    (refl, refl, omega (arith, hz), omega (arith, hs), omega (arith, hl), omega (arith, hn))

magic_read :
    (big nanos : Bool) (z s l n : ℕ)
    → u32_at (header_fields big (magic_of nanos) z s l n) 0 ≡ magic_seen big nanos
unfolding u32_at
magic_read true true z s l n = refl
magic_read true false z s l n = refl
magic_read false true z s l n = refl
magic_read false false z s l n = refl

magic_flags-seen : (big nanos : Bool) → magic_flags (magic_seen big nanos) ≡ some (big, nanos)
unfolding magic_flags
magic_flags-seen true true = refl
magic_flags-seen true false = refl
magic_flags-seen false true = refl
magic_flags-seen false false = refl

pub header_of-encode_preamble :
    (p : Preamble) → IsPreamble p → header_of (encode_preamble p) ≡ accepted (header_read p)
unfolding header_of encode_preamble
header_of-encode_preamble p v =
    let fields =
      fields_read p.big (magic_of p.nanos) p.thiszone p.sigfigs p.snaplen p.network v.thiszone
        v.sigfigs v.snaplen v.network in
    let magic = magic_read p.big p.nanos p.thiszone p.sigfigs p.snaplen p.network in
    ground (arith, fields, magic, magic_flags-seen p.big p.nanos, v.positive)

length-header_fields : (big : Bool) (m z s l n : ℕ) → length (header_fields big m z s l n) ≡ 24
length-header_fields true m z s l n = refl
length-header_fields false m z s l n = refl

pub length-encode_preamble : (p : Preamble) → length (encode_preamble p) ≡ 24
unfolding encode_preamble
length-encode_preamble p =
    length-header_fields p.big (magic_of p.nanos) p.thiszone p.sigfigs p.snaplen p.network
