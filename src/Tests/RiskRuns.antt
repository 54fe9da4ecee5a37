-- ===== src/Tests/RiskRuns.antt =====
-- The theorems on the threat engine and the risk engine, at a SYN of 10.0.0.1 to 10.0.0.2.
use packet_dpi_engine.Base.{
  ◌<◌, ◌≤◌, ◌≡◌, ◌↔◌, true, false, List, [], ◌∷◌, ◌++◌, none, length, take, arith,
}
use packet_dpi_engine.Text.{codes}
use packet_dpi_engine.Packet.Types.{PacketRecord}
use packet_dpi_engine.Dpi.Types.{new_l7}
use packet_dpi_engine.Flow.Address.{IpAddress, no_ip, v4}
use packet_dpi_engine.Rules.Types.{block}
use packet_dpi_engine.Threat.Types.{SecurityAlert, critical}
use packet_dpi_engine.Threat.Trackers.{lookup}
use packet_dpi_engine.Threat.PortScan.{default_port_scan}
use packet_dpi_engine.Threat.SynFlood.{default_syn_flood}
use packet_dpi_engine.Threat.Signatures.{default_signatures_config, contains_substring}
use packet_dpi_engine.Threat.SignatureLaws.{HasPiece, contains_substring_iff}
use packet_dpi_engine.Threat.Engine.{ThreatConfig, new_threat_engine, new_alert, inspect_threats}
use packet_dpi_engine.Threat.EngineLaws.{
  IsWithin, Arrival, inspect_all, inspect_all-new_threat_engine-IsWithin,
}
use packet_dpi_engine.Threat.Numbering.{Numbered, inspect_threats-Numbered}
use packet_dpi_engine.Risk.Types.{BehavioralMetrics}
use packet_dpi_engine.Risk.Scorer.{default_weights, calculate_score}
use packet_dpi_engine.Risk.ScorerLaws.{floor_of, ceiling_of, calculate_score_bounds}
use packet_dpi_engine.Risk.Profiler.{new_profiler}
use packet_dpi_engine.Risk.Recency.{member}
use packet_dpi_engine.Risk.ProfilerLaws.{is_known}
use packet_dpi_engine.Risk.Refinement.{
  Sighting, update_all, recency, limit_of, update_all-new_profiler-recency,
}
use packet_dpi_engine.Tests.Packets.{syn_packet, host_a, host_b}

-- One tracker for each map, and an alert at the first SYN.
abbrev pub strict_config : ThreatConfig
strict_config = record {
  enabled = true;
  max_alert_buffer_capacity = 10;
  port_scan_config = record default_port_scan { max_tracked_sources = 1 };
  syn_flood_config = record default_syn_flood { half_open_threshold = 1; max_tracked_sources = 0 };
  dns_anomaly = record {
    entropy = record {
      reaches_threshold = λ t. false;
      shown = λ t. codes "0.000";
      threshold_shown = codes "3.75";
    };
    max_label_length = 45;
    max_fqdn_length = 100;
    max_subdomain_depth = 4;
  };
  signature = default_signatures_config;
}

abbrev syn_record : PacketRecord
syn_record = record {
  header = record { ts_sec = 1; ts_usec = 5; incl_len = 54; orig_len = 54 };
  payload = [];
}

abbrev syn_arrival : Arrival
syn_arrival = record { rec = syn_record; parsed = syn_packet; flow = none; is_nanoseconds = false }

inspect_all-new_threat_engine-IsWithin_example :
    IsWithin (inspect_all (new_threat_engine strict_config) (syn_arrival ∷ syn_arrival ∷ []))
inspect_all-new_threat_engine-IsWithin_example =
    inspect_all-new_threat_engine-IsWithin strict_config (syn_arrival ∷ syn_arrival ∷ [])

inspect_threats-Numbered_example :
    let e = new_threat_engine strict_config in
    let (e', alerts') = inspect_threats e syn_record syn_packet none false (new_alert ∷ []) in
    (fresh : List SecurityAlert) × (alerts' ≡ (new_alert ∷ []) ++ fresh)
    × (length fresh ≤ 4)
    × Numbered e.next_alert_id fresh e'.next_alert_id
inspect_threats-Numbered_example =
    inspect_threats-Numbered (new_threat_engine strict_config) syn_record syn_packet none false
      (new_alert ∷ [])

contains_substring_iff_example :
    (contains_substring (codes "id=1 Union select x") (codes "UNION SELECT") true ≡ true)
    ↔ HasPiece true (codes "UNION SELECT") (codes "id=1 Union select x")
contains_substring_iff_example =
    contains_substring_iff (codes "id=1 Union select x") (codes "UNION SELECT") true (omega arith)

abbrev sighting_of : IpAddress → Sighting
sighting_of ip = record {
  ip = ip;
  risk = 70;
  is_beaconing = false;
  is_exfiltration = true;
  timestamp_us = 9;
}

abbrev sightings : List Sighting
sightings =
    sighting_of (v4 host_a)
    ∷ sighting_of (v4 host_b)
    ∷ sighting_of no_ip
    ∷ sighting_of (v4 host_a)
    ∷ []

update_all-new_profiler-recency_example :
    let p = update_all (new_profiler 1) sightings in
    let kept = take (limit_of 1) (recency [] sightings) in
    (p.lru_list ≡ kept)
    × ((j : IpAddress) → is_known (lookup j p.hosts) ≡ member j kept)
    × (length p.hosts ≡ length kept)
    × (length p.hosts ≤ limit_of 1)
update_all-new_profiler-recency_example = update_all-new_profiler-recency 1 sightings

abbrev one_sided : BehavioralMetrics
one_sided = record {
  fwd_packets = 12;
  rev_packets = 0;
  fwd_bytes = 20000;
  rev_bytes = 0;
  small_packets = 0;
  medium_packets = 0;
  large_packets = 12;
  is_beaconing = true;
  is_exfiltration = true;
}

calculate_score_bounds_example :
    let s =
      calculate_score default_weights one_sided new_l7 block
        (record new_alert { severity = critical } ∷ [])
        8443 in
    (s.score ≤ 100)
    × (floor_of s.level ≤ s.score)
    × (s.score < ceiling_of s.level)
    × (length s.contributing_factors ≤ 5)
calculate_score_bounds_example =
    calculate_score_bounds default_weights one_sided new_l7 block
      (record new_alert { severity = critical } ∷ []) 8443
