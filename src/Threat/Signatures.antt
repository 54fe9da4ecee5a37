-- ===== src/Threat/Signatures.antt =====
-- `PayloadSignatureMatcher` of include/dpi/threat/payload_signature_matcher.h and
-- src/threat/payload_signature_matcher.cpp.
use packet_dpi_engine.Base.{
  ℕ, Bool, true, false, List, [], ◌∷◌, ◌++◌, Option, none, some, ◌==◌, ltb, leb, ◌&&◌, ◌||◌, not,
  if◌then◌else◌, length, take, min,
}
use packet_dpi_engine.Text.{Text, codes, to_lower}
use packet_dpi_engine.Protocols.Types.{ParsedPacket, is_empty}
use packet_dpi_engine.Dpi.Types.{AppProtocol, unknown, tls, http, dns, L7Metadata}
use packet_dpi_engine.Threat.Types.{
  AlertSeverity, medium, high, critical, ThreatCategory, sql_injection, directory_traversal,
  suspicious_user_agent, SecurityAlert,
}
use packet_dpi_engine.Threat.Trackers.{packet_src, packet_dst, packet_src_port, packet_dst_port}

pub record SignatureConfig : Type 0 where
  pub max_inspect_payload_bytes : ℕ
  pub max_signatures : ℕ
  pub max_pattern_length : ℕ

abbrev pub default_signatures_config : SignatureConfig
default_signatures_config = record {
  max_inspect_payload_bytes = 4096;
  max_signatures = 1024;
  max_pattern_length = 256;
}

pub data MatchTarget : Type 0 where
  any_payload uri_target host_target user_agent : MatchTarget

pub record PayloadSignature : Type 0 where
  pub id : ℕ
  pub name : Text
  pub severity : AlertSeverity
  pub category : ThreatCategory
  pub pattern : Text
  pub case_insensitive : Bool
  pub target : MatchTarget

pub record PayloadSignatureMatcher : Type 0 where
  pub config : SignatureConfig
  pub signatures : List PayloadSignature

-- `add_signature`: the matcher, and what it returns.
unfoldable pub add_signature :
    PayloadSignatureMatcher → PayloadSignature → PayloadSignatureMatcher × Bool
add_signature m sig =
    if leb m.config.max_signatures (length m.signatures)
    then (m, false)
    else if is_empty sig.pattern || ltb m.config.max_pattern_length (length sig.pattern)
    then (m, false)
    else (record m { signatures = m.signatures ++ (sig ∷ []) }, true)

unfoldable pub add_signatures :
    PayloadSignatureMatcher → List PayloadSignature → PayloadSignatureMatcher
add_signatures m [] = m
add_signatures m (sig ∷ sigs) = add_signatures (add_signature m sig).0 sigs

abbrev pub sqli : ℕ → Text → Text → PayloadSignature
sqli id name pattern = record {
  id = id;
  name = name;
  severity = high;
  category = sql_injection;
  pattern = pattern;
  case_insensitive = true;
  target = any_payload;
}

abbrev pub traversal : ℕ → Text → AlertSeverity → Text → Bool → PayloadSignature
traversal id name severity pattern case_insensitive = record {
  id = id;
  name = name;
  severity = severity;
  category = directory_traversal;
  pattern = pattern;
  case_insensitive = case_insensitive;
  target = any_payload;
}

abbrev pub scanner : ℕ → Text → AlertSeverity → Text → PayloadSignature
scanner id name severity pattern = record {
  id = id;
  name = name;
  severity = severity;
  category = suspicious_user_agent;
  pattern = pattern;
  case_insensitive = true;
  target = user_agent;
}

abbrev pub default_signatures : List PayloadSignature
default_signatures =
    sqli 1 (codes "SQLi: UNION SELECT") (codes "UNION SELECT")
    ∷ sqli 2 (codes "SQLi: Encoded UNION SELECT") (codes "UNION%20SELECT")
    ∷ sqli 3 (codes "SQLi: Tautology Pattern") (codes "' OR '1'='1")
    ∷ sqli 4 (codes "SQLi: Numeric Tautology") (codes "' OR 1=1")
    ∷ sqli 5 (codes "SQLi: Time-based SLEEP") (codes "SLEEP(")
    ∷ traversal 10 (codes "Traversal: Dot-Dot-Slash") high (codes "../") false
    ∷ traversal 11 (codes "Traversal: Dot-Dot-Backslash") high (codes "..\\") false
    ∷ traversal 12 (codes "Traversal: Encoded %2e%2e%2f") high (codes "%2e%2e%2f") true
    ∷ traversal 13 (codes "Traversal: Encoded %2e%2e/") high (codes "%2e%2e/") true
    ∷ traversal 14 (codes "Traversal: /etc/passwd target") critical (codes "/etc/passwd") true
    ∷ scanner 20 (codes "Scanner: sqlmap User-Agent") high (codes "sqlmap")
    ∷ scanner 21 (codes "Scanner: Nikto Web Scanner") high (codes "Nikto")
    ∷ scanner 22 (codes "Scanner: Masscan Tool") medium (codes "masscan")
    ∷ scanner 23 (codes "Scanner: Gobuster Brute Force") medium (codes "gobuster")
    ∷ scanner 24 (codes "Scanner: DirBuster Tool") medium (codes "DirBuster")
    ∷ []

unfoldable pub load_default_signatures : PayloadSignatureMatcher → PayloadSignatureMatcher
load_default_signatures m = add_signatures (record m { signatures = [] }) default_signatures

-- Two characters agree, in any case if that is asked for.
abbrev pub same_char : Bool → ℕ → ℕ → Bool
same_char true x y = to_lower x == to_lower y
same_char false x y = x == y

-- The needle stands at the front.
unfoldable pub stands_at : Bool → Text → Text → Bool
stands_at ci [] hay = true
stands_at ci (n ∷ ns) [] = false
stands_at ci (n ∷ ns) (h ∷ hs) = same_char ci h n && stands_at ci ns hs

-- `find` and `std::search`: it stands somewhere.
unfoldable pub occurs : Bool → Text → Text → Bool
occurs ci needle [] = stands_at ci needle []
occurs ci needle (h ∷ hs) = stands_at ci needle (h ∷ hs) || occurs ci needle hs

unfoldable pub contains_substring : Text → Text → Bool → Bool
contains_substring haystack needle ci =
    if is_empty needle || ltb (length haystack) (length needle)
    then false
    else occurs ci needle haystack

-- What the signatures are looked for in.
pub record Views : Type 0 where
  pub payload_view : Text
  pub uri_view : Text
  pub host_view : Text

unfoldable pub host_or : L7Metadata → Text
host_or m = if not (is_empty m.hostname) then m.hostname else elim m.protocol [
  | http ↦ m.http.host
  | tls ↦ m.tls.sni
  | dns ↦ m.dns.qname
  | unknown ↦ m.hostname
]

abbrev pub uri_of : AppProtocol → L7Metadata → Text
uri_of http m = m.http.uri
uri_of _ m = []

unfoldable pub views_of : SignatureConfig → L7Metadata → List ℕ → Views
views_of c m payload = record {
  payload_view = take (min (length payload) c.max_inspect_payload_bytes) payload;
  uri_view = uri_of m.protocol m;
  host_view = host_or m;
}

abbrev pub found_in : PayloadSignature → Text → Bool
found_in sig view = not (is_empty view) && contains_substring view sig.pattern sig.case_insensitive

-- The first of the views that holds the pattern.
unfoldable pub first_view : PayloadSignature → List Text → Option Text
first_view sig [] = none
first_view sig (v ∷ vs) = let rest = first_view sig vs in if found_in sig v then some v else rest

-- The views that a target names, in the order of the search; the view of the user agent is empty.
abbrev pub searched : MatchTarget → Views → List Text
searched uri_target v = v.uri_view ∷ v.payload_view ∷ []
searched host_target v = v.host_view ∷ []
searched user_agent v = [] ∷ v.payload_view ∷ []
searched any_payload v = v.payload_view ∷ v.uri_view ∷ v.host_view ∷ []

abbrev pub target_text : MatchTarget → Text
target_text user_agent = codes "User-Agent"
target_text uri_target = codes "URI"
target_text _ = codes "Payload"

unfoldable pub signature_alert :
    PayloadSignature → Text → ParsedPacket → L7Metadata → ℕ → SecurityAlert → SecurityAlert
signature_alert sig source p m ts out = record out {
  timestamp_us = ts;
  severity = sig.severity;
  category = sig.category;
  signature_name = sig.name;
  description = codes "Matched payload threat signature: " ++ sig.name;
  src_ip = packet_src p;
  dst_ip = packet_dst p;
  src_port = packet_src_port p;
  dst_port = packet_dst_port p;
  transport = p.l4_type;
  app_protocol = m.protocol;
  trigger_reason =
      codes "Signature match pattern='"
      ++ sig.pattern
      ++ codes "' in target="
      ++ target_text sig.target;
  matched_snippet = take (min (length source) 128) source;
}

-- The loop over the signatures: the first one that is found, and where.
unfoldable pub first_signature : List PayloadSignature → Views → Option (PayloadSignature × Text)
first_signature [] v = none
first_signature (sig ∷ sigs) v =
    let rest = first_signature sigs v in
    elim (first_view sig (searched sig.target v)) [ some source ↦ some (sig, source) | none ↦ rest ]

-- `PayloadSignatureMatcher::match`: the alert, if it returns true.
unfoldable pub match_payload :
    PayloadSignatureMatcher
    → ParsedPacket
    → L7Metadata
    → List ℕ
    → ℕ
    → SecurityAlert
    → Option SecurityAlert
match_payload matcher p m payload ts out =
    elim (first_signature matcher.signatures (views_of matcher.config m payload)) [
      | none ↦ none
      | some (sig, source) ↦ some (signature_alert sig source p m ts out)
    ]
