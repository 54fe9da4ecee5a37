-- ===== src/Dpi/HttpHost.antt =====
-- The scan of the headers finds the host.
use mathlib.Core.List.{append-nil}
use packet_dpi_engine.Base.{
  ℕ, zero, suc, ◌<◌, ◌≡◌, refl, ap, ◌∙◌, true, false, List, [], ◌∷◌, ◌++◌, Option, none, some,
  length, replicate, arith,
}
use packet_dpi_engine.Text.{Text, cut, split}
use packet_dpi_engine.Protocols.Types.{is_empty}
use packet_dpi_engine.Dpi.Http.{
  equals_ci, text_host, host_value, host_in, host_of, scan_headers, trim_trailing,
}
use packet_dpi_engine.Dpi.HttpTexts.{
  Lacks, Lacks-append, LacksBlanks, cut-append, cut-Lacks, split-append, strip_cr-append,
  trim_leading-blanks, trim_trailing-append,
}
use packet_dpi_engine.Dpi.HttpRequest.{
  line_of, Header, header_text, header_lines, AreOtherHeaders, port_text, HttpRequest, host_header,
  IsRequest,
}

is_empty-append : (a : Text) (x : ℕ) (b : Text) → is_empty (a ++ (x ∷ b)) ≡ false
is_empty-append [] x b = refl
is_empty-append (y ∷ ys) x b = refl

pub Lacks-line : (a : Text) → Lacks 10 a → Lacks 10 (a ++ (13 ∷ []))
Lacks-line a h = Lacks-append 10 a (13 ∷ []) h (ground arith)

pub Lacks-header : (h : Header) → Lacks 10 h.name → Lacks 10 h.value → Lacks 10 (header_text h)
Lacks-header h n v = Lacks-append 10 h.name (58 ∷ h.value) n (ground (arith, v))

pub split-line :
    (a rest : Text) → Lacks 10 a → split 10 (line_of a rest) ≡ (a ++ (13 ∷ [])) ∷ split 10 rest
split-line a rest h = split-append 10 (a ++ (13 ∷ [])) rest (Lacks-line a h)

host_of-other :
    (h : Header)
    → Lacks 58 h.name
    → equals_ci h.name text_host ≡ false
    → host_of (header_text h) ≡ none
unfolding host_of host_in
host_of-other h n other = rw (cut-append 58 h.name h.value n, other) refl

scan_headers-cons :
    (h : Header) (ls : List Text)
    → scan_headers ((header_text h ++ (13 ∷ [])) ∷ ls)
      ≡ elim (host_of (header_text h)) [ some host ↦ (some host, false) | none ↦ scan_headers ls ]
unfolding scan_headers
scan_headers-cons h ls =
    rw (strip_cr-append (header_text h), is_empty-append h.name 58 h.value) refl

pub scan_headers-others :
    (hs : List Header) (rest : Text)
    → AreOtherHeaders hs
    → scan_headers (split 10 (header_lines hs rest)) ≡ scan_headers (split 10 rest)
unfolding header_lines
scan_headers-others [] rest o = refl
scan_headers-others (h ∷ hs) rest o =
    let (colon, n, v, other, more) = o in
    rw
      (
        split-line (header_text h) (header_lines hs rest) (Lacks-header h n v),
        scan_headers-cons h (split 10 (header_lines hs rest)),
        host_of-other h colon other,
      )
      (scan_headers-others hs rest more)

host_in-host :
    (name value host : Text)
    → equals_ci name text_host ≡ true
    → host_value value ≡ host
    → 0 < length host
    → host_in name (some value) ≡ some host
unfolding host_in
host_in-host name value [] same named full = elim full [ ]
host_in-host name value (x ∷ xs) same named full = ground (arith, same, named)

cut-port :
    (host : Text) (port : Option Text)
    → Lacks 58 host
    → (cut 58 (host ++ trim_trailing (port_text port))).0 ≡ host
unfolding trim_trailing
cut-port host none h =
    ap (λ t. (cut 58 t).0) (append-nil host) ∙ ap (λ c. c.0) (cut-Lacks 58 host h)
cut-port host (some p) h = ap (λ c. c.0) (cut-append 58 host (trim_trailing p) h)

host_value-trimmed :
    (blanks : ℕ) (host : Text) (port : Option Text)
    → 0 < length host
    → LacksBlanks host
    → Lacks 58 host
    → host_value (replicate blanks 32 ++ (host ++ port_text port)) ≡ host
unfolding host_value
host_value-trimmed blanks [] port full b c = elim full [ ]
host_value-trimmed blanks (x ∷ xs) port full b c =
    ap (λ t. (cut 58 (trim_trailing t)).0) (trim_leading-blanks blanks x (xs ++ port_text port) b.0)
    ∙ ap (λ t. (cut 58 t).0) (trim_trailing-append (x ∷ xs) (port_text port) b)
    ∙ cut-port (x ∷ xs) port c

pub Lacks-replicate : (n : ℕ) → Lacks 10 (replicate n 32)
Lacks-replicate zero = tt
Lacks-replicate (suc n) = ((λ e. omega (arith, e)), Lacks-replicate n)

pub scan_headers-host :
    (r : HttpRequest) (ls : List Text)
    → IsRequest r
    → scan_headers ((header_text (host_header r) ++ (13 ∷ [])) ∷ ls) ≡ (some r.host, false)
unfolding host_of host_header
scan_headers-host r ls v =
    let value = (host_header r).value in
    let named =
      host_in-host r.host_name value r.host v.host_named
        (host_value-trimmed r.blanks r.host r.port v.host_full v.host_blanks v.host_colon)
        v.host_full in
    rw (scan_headers-cons (host_header r) ls, cut-append 58 r.host_name value v.name_colon, named)
      refl
