-- ===== src/Dpi/DnsNames.antt =====
-- The DNS parser reads back the names of queries without compression.
use mathlib.Core.List.{append_assoc}
use packet_dpi_engine.Base.{
  ℕ, zero, suc, ◌+◌, ◌<◌, ◌≤◌, ◌≡◌, refl, ap, ◌∙◌, true, false, List, [], ◌∷◌, ◌++◌, Option, some,
  length, get_elem?, set, drop, get_elem?-set_ne, length-append, length-drop, arith, if◌then◌else◌,
}
use packet_dpi_engine.Memory.{Buffer, read_u8, copy}
use packet_dpi_engine.Memory.Views.{drop-cons, drop-drop, drop-append, read_u8-drop, copy-drop}
use packet_dpi_engine.Protocols.Types.{is_empty}
use packet_dpi_engine.Dpi.Dns.{DnsWalk, ended, goes_on, dns_label, dns_turn, dns_walk}

-- A name on the wire: each label after its length, and a zero at the end.
unfoldable pub encode_labels : List (List ℕ) → List ℕ
encode_labels [] = 0 ∷ []
encode_labels (l ∷ ls) = length l ∷ (l ++ encode_labels ls)

-- The name that has been read, and another label.
abbrev pub dotted : List ℕ → List ℕ → List ℕ
dotted q l = (if is_empty q then [] else q ++ (46 ∷ [])) ++ l

abbrev pub join_labels : List ℕ → List (List ℕ) → List ℕ
join_labels q [] = q
join_labels q (l ∷ ls) = join_labels (dotted q l) ls

abbrev pub AreLabels : List (List ℕ) → Type 0
AreLabels [] = Unit {0}
AreLabels (l ∷ ls) = (0 < length l) × (length l ≤ 63) × AreLabels ls

dns_turn-end :
    (buf : Buffer) (s : DnsWalk)
    → s.curr < length buf
    → get_elem? s.visited s.curr ≡ some false
    → read_u8 buf s.curr ≡ some 0
    → s.jumped ≡ false
    → dns_turn buf s
      ≡ some
          (ended (record s { visited = set s.visited s.curr true; next_field_offset = s.curr + 1 }))
unfolding dns_turn
dns_turn-end buf s inside fresh byte direct = ground arith

dns_turn-label :
    (buf : Buffer) (s : DnsWalk) (k : ℕ) (l : List ℕ)
    → s.curr < length buf
    → get_elem? s.visited s.curr ≡ some false
    → read_u8 buf s.curr ≡ some k
    → 0 < k
    → k ≤ 63
    → s.curr + 1 + k ≤ length buf
    → copy buf (s.curr + 1) k ≡ some l
    → dns_turn buf s
      ≡ some (
          goes_on (record s {
            visited = set s.visited s.curr true;
            qname = dotted s.qname l;
            curr = s.curr + 1 + k;
          }))
unfolding dns_turn dns_label
dns_turn-label buf s k l inside fresh byte pos small fits label = ground arith

-- Nothing from an offset on was visited.
abbrev pub Fresh : Buffer → DnsWalk → Type 0
Fresh buf s = (i : ℕ) → s.curr ≤ i → i < length buf → get_elem? s.visited i ≡ some false

-- The result of the loop on a name without pointers.
pub record Reads (s : DnsWalk) (ls : List (List ℕ)) (o : Option (Option DnsWalk)) : Type 0 where
  pub walk : DnsWalk
  pub result : o ≡ some (some walk)
  pub name : walk.qname ≡ join_labels s.qname ls
  pub next : walk.next_field_offset ≡ s.curr + length (encode_labels ls)

pub dns_walk-Reads :
    (n : ℕ) (buf : Buffer) (s : DnsWalk) (ls : List (List ℕ)) (rest : List ℕ)
    → length ls < n
    → AreLabels ls
    → s.jumped ≡ false
    → Fresh buf s
    → drop s.curr buf ≡ encode_labels ls ++ rest
    → Reads s ls (dns_walk n buf s)
unfolding dns_walk encode_labels
dns_walk-Reads zero buf s ls rest h lab direct fresh at = elim h [ ]
dns_walk-Reads (suc n) buf s [] rest h lab direct fresh at =
    let inside = (drop-cons buf s.curr at).0 in
    let turn =
      dns_turn-end buf s inside (fresh s.curr (omega arith) inside) (read_u8-drop buf s.curr at)
        direct in
    record {
      walk = record s { visited = set s.visited s.curr true; next_field_offset = s.curr + 1 };
      result = rw turn refl;
      name = refl;
      next = refl;
    }
dns_walk-Reads (suc n) buf s (l ∷ ls) rest h lab direct fresh at =
    let inside = (drop-cons buf s.curr at).0 in
    let one_on : s.curr + 1 ≡ suc s.curr = omega arith in
    let body : drop (s.curr + 1) buf ≡ l ++ (encode_labels ls ++ rest) =
      ap (λ n. drop n buf) one_on
      ∙ (drop-cons buf s.curr at).2
      ∙ append_assoc l (encode_labels ls) rest in
    let fits : s.curr + 1 + length l ≤ length buf = omega (
      arith,
      ap length body,
      length-append l (encode_labels ls ++ rest),
      length-drop (s.curr + 1) buf,
      lab.0,
    ) in
    let turn =
      dns_turn-label buf s (length l) l inside (fresh s.curr (omega arith) inside)
        (read_u8-drop buf s.curr at) lab.0 lab.1 fits (copy-drop buf (s.curr + 1) l _ body fits) in
    let w : DnsWalk = record s {
      visited = set s.visited s.curr true;
      qname = dotted s.qname l;
      curr = s.curr + 1 + length l;
    } in
    let later =
      dns_walk-Reads n buf w ls rest (omega (arith, h)) lab.2 direct
        (λ i from within.
          get_elem?-set_ne s.visited true (λ same. omega (arith, same, from))
          ∙ fresh i (omega (arith, from)) within)
        (drop-drop buf (s.curr + 1) (length l)
          ∙ ap (drop (length l)) body
          ∙ drop-append l (encode_labels ls ++ rest)) in
    record {
      walk = later.walk;
      result = rw turn later.result;
      name = later.name;
      next = later.next ∙ omega (arith, length-append l (encode_labels ls));
    }
