-- ===== src/Packet/ReaderLaws.antt =====
-- One call of `PcapReader::read_next_packet`.
use mathlib.Core.List.{append-nil, append_assoc}
use packet_dpi_engine.Base.{
  ℕ, ◌-◌, ◌<◌, ◌≤◌, ◌≡◌, refl, sym, ap, ◌∙◌, Bool, true, false, List, [], ◌∷◌, ◌++◌, length, take,
  drop, replicate, length-append, length-take, length-replicate, drop-length, arith,
}
use packet_dpi_engine.Memory.Views.{drop-append, take-append}
use packet_dpi_engine.Packet.Types.{
  success, truncated_packet_data, GlobalHeader, PacketHeader, PacketRecord,
}
use packet_dpi_engine.Packet.Reader.{
  Stream, read_stream, at_end, resize, overwrite, read_payload, read_record, read_header, read_open,
}
use packet_dpi_engine.Packet.Encoding.{
  encode_header, Is32Bits, read_u32-encode_header, length-encode_header,
}

pub read_stream-append :
    (a b : List ℕ) (n : ℕ)
    → n ≡ length a
    → read_stream n (record { rest = a ++ b; good = true }) ≡ (a, record { rest = b; good = true })
unfolding read_stream
read_stream-append a b n h =
    let size = length-append a b in
    let front = ap (λ k. take k (a ++ b)) h ∙ take-append a b in
    let back = ap (λ k. drop k (a ++ b)) h ∙ drop-append a b in ground (arith, h, size, front, back)

pub read_stream-short :
    (a : List ℕ) (n : ℕ)
    → length a < n
    → read_stream n (record { rest = a; good = true }) ≡ (a, record { rest = []; good = false })
unfolding read_stream
read_stream-short a n h = ground (arith, h)

pub length-resize : (n : ℕ) (xs : List ℕ) → length (resize n xs) ≡ n
unfolding resize
length-resize n xs = omega (
  arith,
  length-append (take n xs) (replicate (n - length xs) 0),
  length-take n xs,
  length-replicate {A = ℕ} (n - length xs) 0,
)

pub overwrite-resize :
    (bytes xs : List ℕ) (n : ℕ) → length bytes ≡ n → overwrite bytes (resize n xs) ≡ bytes
unfolding overwrite
overwrite-resize bytes xs n h =
    ap (λ t. bytes ++ t) (drop-length (resize n xs) (length bytes) (h ∙ sym (length-resize n xs)))
    ∙ append-nil bytes

resize_zero : (xs : List ℕ) → resize 0 xs ≡ []
unfolding resize
resize_zero xs =
    let none_left : 0 - length xs ≡ 0 = omega arith in ap (λ n. replicate {A = ℕ} n 0) none_left

read_payload-full :
    (payload tail : List ℕ) (h : PacketHeader) (old : List ℕ)
    → read_payload
        (record { rest = payload ++ tail; good = true })
        (record { header = h; payload = resize (length payload) old })
        (length payload)
      ≡ record {
        stream = record { rest = tail; good = true };
        rec = record { header = h; payload = payload };
        code = success;
      }
unfolding read_payload
read_payload-full [] tail h old = rw (resize_zero old) refl
read_payload-full (x ∷ xs) tail h old =
    let read = read_stream-append (x ∷ xs) tail (length (x ∷ xs)) refl in
    let over = overwrite-resize (x ∷ xs) old (length (x ∷ xs)) refl in
    rw (read, over) (ground arith)

pub read_payload-cut :
    (payload : List ℕ) (n : ℕ) (r : PacketRecord)
    → length payload < n
    → (read_payload (record { rest = payload; good = true }) r n).code ≡ truncated_packet_data
unfolding read_payload
read_payload-cut payload n r h = ground (arith, h, read_stream-short payload n h)

pub at_end-good : (s : Stream) → s.good ≡ true → 0 < length s.rest → at_end s ≡ (false, s)
unfolding at_end
at_end-good s h full = ground (arith, h, full)

-- The conditions under which a record is read back.
pub record Fits (g : GlobalHeader) (max_size : ℕ) (r : PacketRecord) : Type 0 where
  pub words : Is32Bits r.header
  pub counted : r.header.incl_len ≡ length r.payload
  pub within_snaplen : r.header.incl_len ≤ g.snaplen
  pub within_limit : r.header.incl_len ≤ max_size

unfoldable pub encode_record : Bool → PacketRecord → List ℕ
encode_record big r = encode_header big r.header ++ r.payload

pub read_header-sixteen :
    (g : GlobalHeader) (max_size : ℕ) (raw rest : List ℕ) (r0 : PacketRecord)
    → length raw ≡ 16
    → read_open g max_size (record { rest = raw ++ rest; good = true }) r0
      ≡ read_record g max_size raw (record { rest = rest; good = true }) r0
unfolding read_open read_header
read_header-sixteen g max_size raw rest r0 h =
    let full : 0 < length (raw ++ rest) = omega (arith, h, length-append raw rest) in
    let open_still = at_end-good (record { rest = raw ++ rest; good = true }) refl full in
    let read = read_stream-append raw rest 16 (sym h) in ground (arith, open_still, read, h)

pub read_open-encode_record :
    (g : GlobalHeader) (max_size : ℕ) (r r0 : PacketRecord) (tail : List ℕ)
    → Fits g max_size r
    → read_open g max_size
        (record { rest = encode_record g.is_byte_swapped r ++ tail; good = true })
        r0
      ≡ record { stream = record { rest = tail; good = true }; rec = r; code = success }
unfolding read_record encode_record
read_open-encode_record g max_size r r0 tail v =
    let raw = encode_header g.is_byte_swapped r.header in
    let words = read_u32-encode_header g.is_byte_swapped r.header v.words in
    let whole =
      ap (λ t. read_open g max_size (record { rest = t; good = true }) r0)
        (append_assoc raw r.payload tail) in
    let header =
      read_header-sixteen g max_size raw (r.payload ++ tail) r0
        (length-encode_header g.is_byte_swapped r.header) in
    let payload = read_payload-full r.payload tail r.header r0.payload in
    grind (arith, whole, header, words, payload, v)
