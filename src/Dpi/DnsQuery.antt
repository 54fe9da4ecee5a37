-- ===== src/Dpi/DnsQuery.antt =====
-- A query without compression is read back.
use packet_dpi_engine.Base.{
  ℕ, zero, suc, ◌+◌, ◌*◌, ◌/◌, ◌%◌, ◌<◌, ◌≤◌, ◌≡◌, refl, ap, ◌∙◌, true, false, List, [], ◌∷◌, ◌++◌,
  some, length, get_elem?, replicate, drop, length-append, length-drop, arith,
}
use packet_dpi_engine.Memory.{Buffer, read_u16_be}
use packet_dpi_engine.Protocols.Types.{is_empty}
use packet_dpi_engine.Dpi.Types.{DnsMetadata}
use packet_dpi_engine.Dpi.Dns.{DnsWalk, dns_walk, dns_start, dns_fields, dns_finish, parse_query}
use packet_dpi_engine.Dpi.DnsNames.{encode_labels, join_labels, AreLabels, Reads, dns_walk-Reads}
use packet_dpi_engine.Memory.Views.{drop-drop, drop-append, read_u16_be-drop, drop-two, word_back}

dns_fields-drop :
    (buf : Buffer) (next : ℕ) (m : DnsMetadata) {t1 t2 c1 c2 : ℕ} {rest : List ℕ}
    → 0 < next
    → drop next buf ≡ t1 ∷ t2 ∷ c1 ∷ c2 ∷ rest
    → dns_fields buf next m ≡ some (record m { qtype = t1 * 256 + t2; qclass = c1 * 256 + c2 })
unfolding dns_fields
dns_fields-drop buf next m pos h =
    let fits = ap length h in
    ground (
      arith,
      fits,
      length-drop next buf,
      read_u16_be-drop buf next h,
      read_u16_be-drop buf (next + 2) (drop-two buf next h),
    )

fewer_labels : (ls : List (List ℕ)) → length ls < length (encode_labels ls)
unfolding encode_labels
fewer_labels [] = omega arith
fewer_labels (l ∷ ls) = omega (arith, fewer_labels ls, length-append l (encode_labels ls))

join_labels-not_empty :
    (q : List ℕ) (ls : List (List ℕ)) → is_empty q ≡ false → is_empty (join_labels q ls) ≡ false
join_labels-not_empty q [] h = h
join_labels-not_empty [] (l ∷ ls) h = absurd (ground arith)
join_labels-not_empty (x ∷ xs) (l ∷ ls) h =
    join_labels-not_empty (x ∷ (xs ++ (46 ∷ [])) ++ l) ls refl

name-not_empty :
    (l : List ℕ) (ls : List (List ℕ)) → 0 < length l → is_empty (join_labels [] (l ∷ ls)) ≡ false
name-not_empty [] ls h = elim h [ ]
name-not_empty (x ∷ xs) ls h = join_labels-not_empty (x ∷ xs) ls refl

-- A query on the wire: identification, flags, the number of questions, no other records, the name of
-- the first question, its type and its class.
unfoldable pub encode_query : ℕ → ℕ → ℕ → List (List ℕ) → ℕ → ℕ → List ℕ → List ℕ
encode_query id flags questions labels qtype qclass rest =
    (id / 256
      ∷ id % 256
      ∷ flags / 256
      ∷ flags % 256
      ∷ questions / 256
      ∷ questions % 256
      ∷ replicate 6 0)
    ++ encode_labels labels
    ++ (qtype / 256 ∷ qtype % 256 ∷ qclass / 256 ∷ qclass % 256 ∷ rest)

get_elem?-replicate : (n i : ℕ) → i < n → get_elem? (replicate n false) i ≡ some false
get_elem?-replicate zero i h = elim h [ ]
get_elem?-replicate (suc n) zero h = refl
get_elem?-replicate (suc n) (suc i) h = get_elem?-replicate n i (omega (arith, h))

at_name :
    (id flags questions : ℕ) (ls : List (List ℕ)) (qtype qclass : ℕ) (rest : List ℕ)
    → drop 12 (encode_query id flags questions ls qtype qclass rest)
      ≡ encode_labels ls ++ (qtype / 256 ∷ qtype % 256 ∷ qclass / 256 ∷ qclass % 256 ∷ rest)
unfolding encode_query
at_name id flags questions ls qtype qclass rest = refl

read_dns_header :
    (id flags questions : ℕ) (ls : List (List ℕ)) (qtype qclass : ℕ) (rest : List ℕ)
    → let buf = encode_query id flags questions ls qtype qclass rest in
      (read_u16_be buf 0 ≡ some id)
      × (read_u16_be buf 2 ≡ some flags)
      × (read_u16_be buf 4 ≡ some questions)
      × (12 ≤ length buf)
unfolding encode_query
read_dns_header id flags questions ls qtype qclass rest = (
  read_u16_be-drop _ 0 refl ∙ ap some (word_back id),
  read_u16_be-drop _ 2 refl ∙ ap some (word_back flags),
  read_u16_be-drop _ 4 refl ∙ ap some (word_back questions),
  omega arith,
)

name_read :
    (buf : Buffer) (ls : List (List ℕ)) (rest : List ℕ)
    → AreLabels ls
    → drop 12 buf ≡ encode_labels ls ++ rest
    → Reads (dns_start buf) ls (dns_walk (length buf + 1) buf (dns_start buf))
name_read buf ls rest labels at =
    dns_walk-Reads (length buf + 1) buf (dns_start buf) ls rest
      (omega (
        arith,
        ap length at,
        length-append (encode_labels ls) rest,
        length-drop 12 buf,
        fewer_labels ls,
      ))
      labels refl (λ i from within. get_elem?-replicate (length buf) i within) at

dns_fields-words :
    (buf : Buffer) (next : ℕ) (m : DnsMetadata) (qtype qclass : ℕ) {rest : List ℕ}
    → 0 < next
    → drop next buf ≡ qtype / 256 ∷ qtype % 256 ∷ qclass / 256 ∷ qclass % 256 ∷ rest
    → dns_fields buf next m ≡ some (record m { qtype = qtype; qclass = qclass })
dns_fields-words buf next m qtype qclass pos h =
    dns_fields-drop buf next m pos h ∙ rw (word_back qtype, word_back qclass) refl

dns_finish-named :
    (buf : Buffer) (m m' : DnsMetadata) (w : DnsWalk) (q : List ℕ)
    → w.qname ≡ q
    → is_empty q ≡ false
    → dns_fields buf w.next_field_offset (record m { qname = q }) ≡ some m'
    → dns_finish buf m (some w) ≡ some (true, m')
unfolding dns_finish
dns_finish-named buf m m' w q same full fields = rw (same, fields, full) refl

-- A DNS query on the wire with at least one question and at least one label, each of 1 to 63 bytes,
-- is accepted, and the parser gets back its identification, its flags, its name with dots between
-- the labels, its type and its class.
pub parse_query-encode_query :
    (id flags questions : ℕ) (l : List ℕ) (ls : List (List ℕ)) (qtype qclass : ℕ) (rest : List ℕ)
    (m : DnsMetadata)
    → 0 < questions
    → AreLabels (l ∷ ls)
    → parse_query (encode_query id flags questions (l ∷ ls) qtype qclass rest) m
      ≡ some (
        true,
        record m {
          transaction_id = id;
          flags = flags;
          qname = join_labels [] (l ∷ ls);
          qtype = qtype;
          qclass = qclass;
        },
      )
unfolding parse_query
parse_query-encode_query id flags questions l ls qtype qclass rest m asked labels =
    let buf = encode_query id flags questions (l ∷ ls) qtype qclass rest in
    let fields = qtype / 256 ∷ qtype % 256 ∷ qclass / 256 ∷ qclass % 256 ∷ rest in
    let read =
      name_read buf (l ∷ ls) fields labels
        (at_name id flags questions (l ∷ ls) qtype qclass rest) in
    let name = encode_labels (l ∷ ls) in
    let at = at_name id flags questions (l ∷ ls) qtype qclass rest in
    let header = read_dns_header id flags questions (l ∷ ls) qtype qclass rest in
    let after : drop read.walk.next_field_offset buf ≡ fields =
      ap (λ n. drop n buf) read.next
      ∙ drop-drop buf 12 (length name)
      ∙ ap (drop (length name)) at
      ∙ drop-append name fields in
    let m1 : DnsMetadata = record m { transaction_id = id; flags = flags } in
    let q = join_labels [] (l ∷ ls) in
    let finished =
      dns_finish-named buf m1 (record m1 { qname = q; qtype = qtype; qclass = qclass }) read.walk q
        read.name (name-not_empty l ls labels.0)
        (dns_fields-words buf read.walk.next_field_offset (record m1 { qname = q }) qtype qclass
          (omega (arith, read.next)) after) in
    ground (arith, asked, header, read.result, finished)
