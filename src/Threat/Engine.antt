-- ===== src/Threat/Engine.antt =====
-- `ThreatEngine` of include/dpi/threat/threat_engine.h and src/threat/threat_engine.cpp.
use packet_dpi_engine.Base.{
  ℕ, ◌+◌, ◌%◌, ◌^◌, Bool, List, [], ◌∷◌, ◌++◌, Option, none, some, leb, ◌&&◌, ◌||◌, not,
  if◌then◌else◌,
}
use packet_dpi_engine.Packet.Types.{PacketRecord, normalize_timestamp_us}
use packet_dpi_engine.Protocols.Types.{ParsedPacket, is_valid, is_tcp, is_empty, no_l4}
use packet_dpi_engine.Dpi.Types.{unknown, dns, app_protocol_eq, L7Metadata, new_l7}
use packet_dpi_engine.Flow.Address.{no_ip}
use packet_dpi_engine.Flow.Entry.{FlowEntry}
use packet_dpi_engine.Threat.Types.{SecurityAlert, medium, port_scan}
use packet_dpi_engine.Threat.PortScan.{
  PortScanConfig, PortScanDetector, check_port_scan, cleanup_port_scan,
}
use packet_dpi_engine.Threat.SynFlood.{
  SynFloodConfig, SynFloodDetector, check_syn_flood, cleanup_syn_flood,
}
use packet_dpi_engine.Threat.DnsAnomaly.{DnsAnomalyConfig, check_dns_query}
use packet_dpi_engine.Threat.Signatures.{
  SignatureConfig, PayloadSignatureMatcher, load_default_signatures, match_payload,
}

pub record ThreatConfig : Type 0 where
  pub enabled : Bool
  pub max_alert_buffer_capacity : ℕ
  pub port_scan_config : PortScanConfig
  pub syn_flood_config : SynFloodConfig
  pub dns_anomaly : DnsAnomalyConfig
  pub signature : SignatureConfig

pub record ThreatEngine : Type 0 where
  pub config : ThreatConfig
  pub port_scans : PortScanDetector
  pub syn_floods : SynFloodDetector
  pub matcher : PayloadSignatureMatcher
  pub next_alert_id : ℕ
  pub packets_since_cleanup : ℕ

abbrev pub new_alert : SecurityAlert
new_alert = record {
  alert_id = 0;
  timestamp_us = 0;
  severity = medium;
  category = port_scan;
  signature_name = [];
  description = [];
  src_ip = no_ip;
  dst_ip = no_ip;
  src_port = 0;
  dst_port = 0;
  transport = no_l4;
  app_protocol = unknown;
  trigger_reason = [];
  matched_snippet = [];
}

-- The constructor.
unfoldable pub new_threat_engine : ThreatConfig → ThreatEngine
new_threat_engine c = record {
  config = c;
  port_scans = record {
    config = c.port_scan_config;
    vertical_trackers = [];
    horizontal_trackers = [];
  };
  syn_floods = record { config = c.syn_flood_config; sources = [] };
  matcher = load_default_signatures (record { config = c.signature; signatures = [] });
  next_alert_id = 1;
  packets_since_cleanup = 0;
}

unfoldable pub cleanup : ThreatEngine → ℕ → ThreatEngine
cleanup e now = record e {
  port_scans = cleanup_port_scan e.port_scans now;
  syn_floods = cleanup_syn_flood e.syn_floods now;
}

-- The alert gets the next number and is appended.
unfoldable pub raise :
    ThreatEngine × List SecurityAlert → Option SecurityAlert → ThreatEngine × List SecurityAlert
raise (e, alerts) none = (e, alerts)
raise (e, alerts) (some a) = (
  record e { next_alert_id = (e.next_alert_id + 1) % 2 ^ 64 },
  alerts ++ (record a { alert_id = e.next_alert_id } ∷ []),
)

-- The clean-up of every 1024th packet.
unfoldable pub count_packet : ThreatEngine → ℕ → ThreatEngine
count_packet e ts =
    let n = (e.packets_since_cleanup + 1) % 2 ^ 64 in
    if leb 1024 n
    then record (cleanup e ts) { packets_since_cleanup = 0 }
    else record e { packets_since_cleanup = n }

unfoldable pub find_port_scan :
    ParsedPacket → ℕ → ThreatEngine × List SecurityAlert → ThreatEngine × List SecurityAlert
find_port_scan p ts (e, alerts) =
    let (d, alert) = check_port_scan e.port_scans p ts new_alert in
    raise (record e { port_scans = d }, alerts) alert

unfoldable pub find_syn_flood :
    ParsedPacket → ℕ → ThreatEngine × List SecurityAlert → ThreatEngine × List SecurityAlert
find_syn_flood p ts (e, alerts) =
    let (d, alert) = check_syn_flood e.syn_floods p ts new_alert in
    if is_tcp p then raise (record e { syn_floods = d }, alerts) alert else (e, alerts)

-- The alert on the name of a flow that is classified as DNS.
unfoldable pub dns_finding :
    ThreatConfig → ParsedPacket → ℕ → Option FlowEntry → Option SecurityAlert
dns_finding c p ts none = none
dns_finding c p ts (some f) =
    let l7 = f.l7_meta in
    if l7.is_classified && app_protocol_eq l7.protocol dns && not (is_empty l7.dns.qname)
    then check_dns_query c.dns_anomaly l7.dns.qname p ts new_alert
    else none

unfoldable pub find_dns_anomaly :
    ParsedPacket
    → ℕ
    → Option FlowEntry
    → ThreatEngine × List SecurityAlert
    → ThreatEngine × List SecurityAlert
find_dns_anomaly p ts flow (e, alerts) = raise (e, alerts) (dns_finding e.config p ts flow)

abbrev pub l7_of : Option FlowEntry → L7Metadata
l7_of none = new_l7
l7_of (some f) = f.l7_meta

unfoldable pub find_signature :
    ParsedPacket
    → ℕ
    → Option FlowEntry
    → ThreatEngine × List SecurityAlert
    → ThreatEngine × List SecurityAlert
find_signature p ts flow (e, alerts) =
    raise (e, alerts) (match_payload e.matcher p (l7_of flow) p.l7_payload ts new_alert)

-- `inspect_packet`, with the alerts that it appends to.
unfoldable pub inspect_threats :
    ThreatEngine
    → PacketRecord
    → ParsedPacket
    → Option FlowEntry
    → Bool
    → List SecurityAlert
    → ThreatEngine × List SecurityAlert
inspect_threats e r p flow is_nanoseconds alerts =
    if not e.config.enabled || not (is_valid p)
    then (e, alerts)
    else (let ts = normalize_timestamp_us r.header.ts_sec r.header.ts_usec is_nanoseconds in
        find_signature p ts flow (
          find_dns_anomaly p ts flow
            (find_syn_flood p ts (find_port_scan p ts (count_packet e ts, alerts)))))
