-- ===== src/Threat/DnsAnomaly.antt =====
-- `DnsAnomalyDetector` of include/dpi/threat/dns_anomaly_detector.h and
-- src/threat/dns_anomaly_detector.cpp. The entropy of a name is a floating-point number, of which the
-- detector uses the comparison with its threshold and the text; both are a parameter.
use packet_dpi_engine.Base.{
  ℕ, ◌+◌, Bool, List, [], ◌∷◌, ◌++◌, Option, none, some, ltb, leb, ◌&&◌, if◌then◌else◌, length,
  take,
}
use packet_dpi_engine.Text.{Text, codes, to_string, split}
use packet_dpi_engine.Protocols.Types.{ParsedPacket, is_empty}
use packet_dpi_engine.Dpi.Types.{dns}
use packet_dpi_engine.Threat.Types.{
  AlertSeverity, low, medium, high, ThreatCategory, dns_tunneling, dns_dga_anomaly, SecurityAlert,
}
use packet_dpi_engine.Threat.Trackers.{packet_src, packet_dst, packet_src_port, packet_dst_port}

-- `EntropyCalculator`, with `max_entropy_threshold`: whether the entropy of a text reaches the
-- threshold, the entropy with three digits, and the threshold as it is shown.
pub record Entropy : Type 0 where
  pub reaches_threshold : Text → Bool
  pub shown : Text → Text
  pub threshold_shown : Text

pub record DnsAnomalyConfig : Type 0 where
  pub entropy : Entropy
  pub max_label_length : ℕ
  pub max_fqdn_length : ℕ
  pub max_subdomain_depth : ℕ

-- The variables of the loop over the labels.
pub record LabelScan : Type 0 where
  pub label_count : ℕ
  pub longest_label : Text

-- The loop over the labels; empty ones are not counted, and the first of the longest is kept.
unfoldable pub scan_labels : LabelScan → List Text → LabelScan
scan_labels s [] = s
scan_labels s (l ∷ ls) =
    let next : LabelScan = if is_empty l then s else (record {
      label_count = s.label_count + 1;
      longest_label = if ltb (length s.longest_label) (length l) then l else s.longest_label;
    }) in
    scan_labels next ls

abbrev pub labels_of : Text → LabelScan
labels_of qname = scan_labels (record { label_count = 0; longest_label = [] }) (split 46 qname)

-- What the four alerts have in common.
abbrev pub dns_alert :
    AlertSeverity
    → ThreatCategory
    → Text
    → Text
    → Text
    → Text
    → ParsedPacket
    → ℕ
    → SecurityAlert
    → SecurityAlert
dns_alert severity category name description snippet reason p ts out = record out {
  timestamp_us = ts;
  severity = severity;
  category = category;
  signature_name = name;
  description = description;
  src_ip = packet_src p;
  dst_ip = packet_dst p;
  src_port = packet_src_port p;
  dst_port = packet_dst_port p;
  transport = p.l4_type;
  app_protocol = dns;
  matched_snippet = take 128 snippet;
  trigger_reason = reason;
}

unfoldable pub long_name_alert :
    DnsAnomalyConfig → Text → ParsedPacket → ℕ → SecurityAlert → SecurityAlert
long_name_alert c qname p ts out =
    dns_alert medium dns_tunneling (codes "DNS Abnormally Long FQDN Query")
      (codes "Queried DNS domain length ("
        ++ to_string (length qname)
        ++ codes " chars) exceeds threshold")
      qname
      (codes "Heuristic length check: FQDN length="
        ++ to_string (length qname)
        ++ codes " (threshold="
        ++ to_string c.max_fqdn_length
        ++ codes ")")
      p ts out

unfoldable pub long_label_alert :
    DnsAnomalyConfig → Text → ParsedPacket → ℕ → SecurityAlert → SecurityAlert
long_label_alert c label p ts out =
    dns_alert medium dns_tunneling (codes "DNS Abnormally Long Subdomain Label")
      (codes "DNS label length ("
        ++ to_string (length label)
        ++ codes " chars) indicates potential tunnel encapsulation")
      label
      (codes "Heuristic label check: Subdomain label length="
        ++ to_string (length label)
        ++ codes " (threshold="
        ++ to_string c.max_label_length
        ++ codes ")")
      p ts out

unfoldable pub entropy_alert :
    DnsAnomalyConfig → Text → ParsedPacket → ℕ → SecurityAlert → SecurityAlert
entropy_alert c qname p ts out =
    dns_alert high dns_dga_anomaly
      (codes "High-Entropy DNS Query (Potential DGA / Tunneling Heuristic)")
      (codes "Domain name exhibits abnormally high Shannon entropy ("
        ++ c.entropy.shown qname
        ++ codes " bits/char)")
      qname
      (codes "Heuristic entropy score="
        ++ c.entropy.shown qname
        ++ codes " bits/char (threshold="
        ++ c.entropy.threshold_shown
        ++ codes ") on FQDN="
        ++ qname)
      p ts out

unfoldable pub depth_alert :
    DnsAnomalyConfig → Text → ℕ → ParsedPacket → ℕ → SecurityAlert → SecurityAlert
depth_alert c qname count p ts out =
    dns_alert low dns_tunneling (codes "Deeply Nested DNS Subdomain Query")
      (codes "Query contains " ++ to_string count ++ codes " dot-delimited subdomain levels") qname
      (codes "Heuristic nesting check: Label count="
        ++ to_string count
        ++ codes " (threshold="
        ++ to_string (c.max_subdomain_depth + 2)
        ++ codes ")")
      p ts out

-- `DnsAnomalyDetector::check_dns_query`: the alert, if it returns true.
unfoldable pub check_dns_query :
    DnsAnomalyConfig → Text → ParsedPacket → ℕ → SecurityAlert → Option SecurityAlert
check_dns_query c qname p ts out =
    let labels = labels_of qname in
    if is_empty qname
    then none
    else if ltb c.max_fqdn_length (length qname)
    then some (long_name_alert c qname p ts out)
    else if ltb c.max_label_length (length labels.longest_label)
    then some (long_label_alert c labels.longest_label p ts out)
    else if leb 12 (length qname) && c.entropy.reaches_threshold qname
    then some (entropy_alert c qname p ts out)
    else if ltb (c.max_subdomain_depth + 2) labels.label_count
    then some (depth_alert c qname labels.label_count p ts out)
    else none
