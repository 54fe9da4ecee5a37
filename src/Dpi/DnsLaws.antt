-- ===== src/Dpi/DnsLaws.antt =====
-- The loop of the DNS parser ends and reads inside the payload.
use packet_dpi_engine.Base.{
  ℕ, zero, suc, ◌+◌, ◌<◌, ◌≡◌, ◌≢◌, refl, ap, ◌∙◌, Bool, true, false, List, [], ◌∷◌, Option, none,
  some, length, get_elem?, set, replicate, length-set, length-replicate, arith, if◌then◌else◌,
}
use packet_dpi_engine.Memory.{Buffer, read_u8-some, read_u16_be-some, copy-some}
use packet_dpi_engine.Dpi.Types.{DnsMetadata}
use packet_dpi_engine.Dpi.Dns.{
  DnsWalk, Turn, rejected, ended, goes_on, dns_pointer, dns_label, dns_turn, after_turn, dns_walk,
  dns_start, dns_fields, dns_finish, parse_query,
}

-- The offsets that were not visited.
unvisited : List Bool → ℕ
unvisited [] = 0
unvisited (b ∷ bs) = if b then unvisited bs else suc (unvisited bs)

unvisited-set :
    (bs : List Bool) (i : ℕ)
    → get_elem? bs i ≡ some false
    → unvisited (set bs i true) < unvisited bs
unfolding unvisited
unvisited-set [] i h = absurd (ground arith)
unvisited-set (b ∷ bs) zero h = ground arith
unvisited-set (b ∷ bs) (suc i) h = ground (arith, unvisited-set bs i)

unvisited-replicate : (n : ℕ) → unvisited (replicate n false) ≡ n
unfolding unvisited
unvisited-replicate zero = refl
unvisited-replicate (suc n) = ap suc (unvisited-replicate n)

get_elem?-within : (bs : List Bool) (i : ℕ) → i < length bs → get_elem? bs i ≢ none
get_elem?-within [] i h = elim h [ ]
get_elem?-within (b ∷ bs) zero h = λ e. cc
get_elem?-within (b ∷ bs) (suc i) h = get_elem?-within bs i (omega (arith, h))

dns_pointer-ne-none : (buf : Buffer) (w : DnsWalk) (b : ℕ) → dns_pointer buf w b ≢ none
unfolding dns_pointer
dns_pointer-ne-none buf w b = ground (arith, read_u8-some buf (w.curr + 1))

dns_label-ne-none : (buf : Buffer) (w : DnsWalk) (n : ℕ) → dns_label buf w n ≢ none
unfolding dns_label
dns_label-ne-none buf w n = ground (arith, copy-some buf (w.curr + 1) n)

-- The marks cover the payload.
abbrev Covers : Buffer → DnsWalk → Type 0
Covers buf s = length s.visited ≡ length buf

dns_turn-ne-none : (buf : Buffer) (s : DnsWalk) → Covers buf s → dns_turn buf s ≢ none
unfolding dns_turn
dns_turn-ne-none buf s v =
    let w = record s { visited = set s.visited s.curr true } in
    grind (
      arith,
      v,
      get_elem?-within s.visited s.curr,
      read_u8-some buf s.curr,
      dns_pointer-ne-none buf w,
      dns_label-ne-none buf w,
    )

dns_pointer-visited :
    (buf : Buffer) (w : DnsWalk) (b : ℕ) {w' : DnsWalk}
    → dns_pointer buf w b ≡ some (goes_on w')
    → w'.visited ≡ w.visited
unfolding dns_pointer
dns_pointer-visited buf w b h = ground arith

dns_label-visited :
    (buf : Buffer) (w : DnsWalk) (n : ℕ) {w' : DnsWalk}
    → dns_label buf w n ≡ some (goes_on w')
    → w'.visited ≡ w.visited
unfolding dns_label
dns_label-visited buf w n h = ground arith

dns_turn-visited :
    (buf : Buffer) (s : DnsWalk) {w' : DnsWalk}
    → dns_turn buf s ≡ some (goes_on w')
    → (get_elem? s.visited s.curr ≡ some false) × (w'.visited ≡ set s.visited s.curr true)
unfolding dns_turn
dns_turn-visited buf s {w'} h =
    let w = record s { visited = set s.visited s.curr true } in
    grind (arith, dns_pointer-visited buf w, dns_label-visited buf w)

dns_turn-Covers :
    (buf : Buffer) (s : DnsWalk) {w' : DnsWalk}
    → Covers buf s
    → dns_turn buf s ≡ some (goes_on w')
    → Covers buf w'
dns_turn-Covers buf s v h =
    ap length (dns_turn-visited buf s h).1 ∙ length-set s.visited s.curr true ∙ v

dns_walk-ne-none :
    (n : ℕ) (buf : Buffer) (s : DnsWalk)
    → Covers buf s
    → unvisited s.visited < n
    → dns_walk n buf s ≢ none
unfolding dns_walk
dns_walk-ne-none zero buf s v h = elim h [ ]
dns_walk-ne-none (suc n) buf s v h = turn (dns_walk-ne-none n buf) (dns_turn buf s) refl
  where
    turn :
        ((w : DnsWalk) → Covers buf w → unvisited w.visited < n → dns_walk n buf w ≢ none)
        → (o : Option Turn) → dns_turn buf s ≡ o
        → after_turn (λ w. dns_walk n buf w) o ≢ none
    turn again none e = absurd (dns_turn-ne-none buf s v e)
    turn again (some rejected) e = λ q. cc
    turn again (some (ended w)) e = λ q. cc
    turn again (some (goes_on w)) e =
        let (fresh, marked) = dns_turn-visited buf s e in
        let fewer = unvisited-set s.visited s.curr fresh in
        again w (dns_turn-Covers buf s v e) (omega (arith, ap unvisited marked, fewer, h))

dns_fields-ne-none : (buf : Buffer) (next : ℕ) (m : DnsMetadata) → dns_fields buf next m ≢ none
unfolding dns_fields
dns_fields-ne-none buf next m =
    ground (arith, read_u16_be-some buf next, read_u16_be-some buf (next + 2))

dns_finish-ne-none :
    (buf : Buffer) (m : DnsMetadata) (o : Option DnsWalk) → dns_finish buf m o ≢ none
unfolding dns_finish
dns_finish-ne-none buf m none = λ e. cc
dns_finish-ne-none buf m (some w) =
    ground (arith, dns_fields-ne-none buf w.next_field_offset (record m { qname = w.qname }))

dns_start-ends : (buf : Buffer) → dns_walk (length buf + 1) buf (dns_start buf) ≢ none
dns_start-ends buf =
    dns_walk-ne-none (length buf + 1) buf (dns_start buf) (length-replicate (length buf) false)
      (omega (arith, unvisited-replicate (length buf)))

-- On any payload, however its labels and compression pointers refer to each other, the DNS parser
-- ends and reads nothing outside the payload: its loop makes at most one turn for each byte and one
-- more.
pub parse_query-ne-none : (buf : Buffer) (m : DnsMetadata) → parse_query buf m ≢ none
unfolding parse_query
parse_query-ne-none buf m = grind (
  arith,
  read_u16_be-some buf 0,
  read_u16_be-some buf 2,
  read_u16_be-some buf 4,
  dns_start-ends buf,
  dns_finish-ne-none buf,
)
