-- ===== src/Threat/EngineLaws.antt =====
-- The threat engine: its memory is bounded, and its alerts are numbered.
use packet_dpi_engine.Base.{
  ℕ, suc, ◌*◌, ◌%◌, ◌^◌, ◌≡◌, refl, ap, Bool, List, [], ◌∷◌, Option, none, some, length, arith,
  Option-cases, inl, inr,
}
use packet_dpi_engine.Packet.Types.{PacketRecord, normalize_timestamp_us}
use packet_dpi_engine.Threat.Signatures.{match_payload}
use packet_dpi_engine.Protocols.Types.{ParsedPacket}
use packet_dpi_engine.Flow.Address.{IpAddress}
use packet_dpi_engine.Flow.Entry.{FlowEntry}
use packet_dpi_engine.Threat.Types.{SecurityAlert}
use packet_dpi_engine.Threat.Trackers.{packet_src, lookup}
use packet_dpi_engine.Threat.TrackerLaws.{
  Distinct, IsBounded, enforce_capacity_limits-IsBounded, store-enforced-IsBounded,
  store_present-IsBounded, drop_stale-Distinct,
}
use packet_dpi_engine.Threat.PortScan.{
  VerticalTracker, HorizontalTracker, PortScanDetector, check_port_scan, check_scans,
  check_horizontal, enforce_both, cleanup_port_scan,
}
use packet_dpi_engine.Threat.SynFlood.{
  SynFloodDetector, SourceTracker, Sources, HalfOpenKey, complete, complete_tracker, on_answer,
  on_attempt, check_syn_flood, refresh, cleanup_syn_flood,
}
use packet_dpi_engine.Threat.Engine.{
  ThreatConfig, ThreatEngine, new_threat_engine, cleanup, raise, count_packet, find_port_scan,
  find_syn_flood, find_dns_anomaly, find_signature, inspect_threats, new_alert, dns_finding, l7_of,
}

-- The trackers of a detector stay within its capacity, which does not change.
abbrev pub ScansWithin : ℕ → PortScanDetector → Type 0
ScansWithin cap d =
    (d.config.max_tracked_sources ≡ cap)
    × IsBounded cap d.vertical_trackers
    × IsBounded cap d.horizontal_trackers

abbrev pub FloodsWithin : ℕ → SynFloodDetector → Type 0
FloodsWithin cap d = (d.config.max_tracked_sources ≡ cap) × IsBounded cap d.sources

check_port_scan-ScansWithin :
    (cap : ℕ) (d : PortScanDetector) (p : ParsedPacket) (ts : ℕ) (out : SecurityAlert)
    → ScansWithin cap d
    → ScansWithin cap (check_port_scan d p ts out).0
unfolding check_port_scan check_scans check_horizontal enforce_both
check_port_scan-ScansWithin cap d p ts out v =
    let (same, vertical, horizontal) = v in
    let src = packet_src p in
    let seen_v : VerticalTracker → ℕ = λ t. t.last_seen_us in
    let seen_h : HorizontalTracker → ℕ = λ t. t.last_seen_us in
    let room_v = enforce_capacity_limits-IsBounded seen_v cap d.vertical_trackers vertical in
    let room_h = enforce_capacity_limits-IsBounded seen_h cap d.horizontal_trackers horizontal in
    let store_v : (t : VerticalTracker) → _ =
      λ t. store-enforced-IsBounded seen_v cap src t d.vertical_trackers vertical in
    let store_h : (t : HorizontalTracker) → _ =
      λ t. store-enforced-IsBounded seen_h cap src t d.horizontal_trackers horizontal in
    grind (arith, same, vertical, horizontal, store_v, store_h, room_h, room_v)

complete-IsBounded :
    (cap : ℕ) (ip : IpAddress) (key : HalfOpenKey) (m : Sources)
    → IsBounded cap m
    → IsBounded cap (complete ip key m)
unfolding complete
complete-IsBounded cap ip key m b = elim (Option-cases (lookup ip m)) [
  | inl e ↦ rw (e, complete) b
  | inr (t, e) ↦
      rw (e, complete) (store_present-IsBounded cap ip (complete_tracker key t) m (λ q. cc) b)
]

on_answer-IsBounded :
    (cap : ℕ) (p : ParsedPacket) (m : Sources) → IsBounded cap m → IsBounded cap (on_answer p m)
unfolding on_answer
on_answer-IsBounded cap p m b = complete-IsBounded cap _ _ _ (complete-IsBounded cap _ _ m b)

check_syn_flood-FloodsWithin :
    (cap : ℕ) (d : SynFloodDetector) (p : ParsedPacket) (ts : ℕ) (out : SecurityAlert)
    → FloodsWithin cap d
    → FloodsWithin cap (check_syn_flood d p ts out).0
unfolding check_syn_flood on_attempt
check_syn_flood-FloodsWithin cap d p ts out v =
    let (same, bounded) = v in
    let src = packet_src p in
    let seen : SourceTracker → ℕ = λ t. t.last_seen_us in
    let answered = on_answer-IsBounded cap p d.sources bounded in
    let after : (t : SourceTracker) → _ =
      λ t. store-enforced-IsBounded seen cap src t d.sources bounded in
    let after_answer : (t : SourceTracker) → _ =
      λ t. store-enforced-IsBounded seen cap src t (on_answer p d.sources) answered in
    grind (arith, same, bounded, answered, after, after_answer)

lookup-refresh :
    (now timeout : ℕ) (k : IpAddress) (m : Sources)
    → lookup k m ≡ none
    → lookup k (refresh now timeout m) ≡ none
unfolding lookup refresh
lookup-refresh now timeout k [] h = refl
lookup-refresh now timeout k ((j, t) ∷ m) h = ground (arith, h, lookup-refresh now timeout k m)

refresh-IsBounded :
    (now timeout : ℕ) (m : Sources)
    → Distinct m
    → Distinct (refresh now timeout m) × (length (refresh now timeout m) ≡ length m)
unfolding refresh
refresh-IsBounded now timeout [] d = (tt, refl)
refresh-IsBounded now timeout ((k, t) ∷ m) d =
    let (distinct, same) = refresh-IsBounded now timeout m d.1 in
    ((lookup-refresh now timeout k m d.0, distinct), ap suc same)

-- All the trackers of the engine.
pub record IsWithin (e : ThreatEngine) : Type 0 where
  pub scans : ScansWithin e.config.port_scan_config.max_tracked_sources e.port_scans
  pub floods : FloodsWithin e.config.syn_flood_config.max_tracked_sources e.syn_floods

cleanup-IsWithin : (e : ThreatEngine) (now : ℕ) → IsWithin e → IsWithin (cleanup e now)
unfolding cleanup cleanup_port_scan cleanup_syn_flood
cleanup-IsWithin e now v =
    let seen_v : VerticalTracker → ℕ = λ t. t.last_seen_us in
    let seen_h : HorizontalTracker → ℕ = λ t. t.last_seen_us in
    let seen : SourceTracker → ℕ = λ t. t.last_seen_us in
    let limit = e.port_scans.config.window_us * 2 % 2 ^ 64 in
    let timeout = e.syn_floods.config.half_open_timeout_us in
    let (same, vertical, horizontal) = v.scans in
    let (same_floods, sources) = v.floods in
    let vs = drop_stale-Distinct seen_v now limit e.port_scans.vertical_trackers vertical.0 in
    let hs = drop_stale-Distinct seen_h now limit e.port_scans.horizontal_trackers horizontal.0 in
    let fs = drop_stale-Distinct seen now (timeout * 2 % 2 ^ 64) e.syn_floods.sources sources.0 in
    let rs = refresh-IsBounded now timeout _ fs.0 in
    record {
      scans = (
        same,
        (vs.0, omega (arith, vs.1, vertical.1)),
        (hs.0, omega (arith, hs.1, horizontal.1)),
      );
      floods = (same_floods, (rs.0, omega (arith, rs.1, fs.1, sources.1)));
    }

raise-IsWithin :
    (x : ThreatEngine × List SecurityAlert) (o : Option SecurityAlert)
    → IsWithin x.0
    → IsWithin (raise x o).0
unfolding raise
raise-IsWithin (e, alerts) none v = v
raise-IsWithin (e, alerts) (some a) v = record { scans = v.scans; floods = v.floods }

count_packet-IsWithin : (e : ThreatEngine) (ts : ℕ) → IsWithin e → IsWithin (count_packet e ts)
unfolding count_packet
count_packet-IsWithin e ts v = ground (arith, v, cleanup-IsWithin e ts v)

find_port_scan-IsWithin :
    (p : ParsedPacket) (ts : ℕ) (x : ThreatEngine × List SecurityAlert)
    → IsWithin x.0
    → IsWithin (find_port_scan p ts x).0
unfolding find_port_scan
find_port_scan-IsWithin p ts (e, alerts) v =
    let cap = e.config.port_scan_config.max_tracked_sources in
    let d = check_port_scan e.port_scans p ts new_alert in
    raise-IsWithin (record e { port_scans = d.0 }, alerts) d.1
      (record {
        scans = check_port_scan-ScansWithin cap e.port_scans p ts new_alert v.scans;
        floods = v.floods;
      })

find_syn_flood-IsWithin :
    (p : ParsedPacket) (ts : ℕ) (x : ThreatEngine × List SecurityAlert)
    → IsWithin x.0
    → IsWithin (find_syn_flood p ts x).0
unfolding find_syn_flood
find_syn_flood-IsWithin p ts (e, alerts) v =
    let cap = e.config.syn_flood_config.max_tracked_sources in
    let d = check_syn_flood e.syn_floods p ts new_alert in
    let raised =
      raise-IsWithin (record e { syn_floods = d.0 }, alerts) d.1
        (record {
          scans = v.scans;
          floods = check_syn_flood-FloodsWithin cap e.syn_floods p ts new_alert v.floods;
        }) in
    ground (arith, v, raised)

find_dns_anomaly-IsWithin :
    (p : ParsedPacket) (ts : ℕ) (flow : Option FlowEntry) (x : ThreatEngine × List SecurityAlert)
    → IsWithin x.0
    → IsWithin (find_dns_anomaly p ts flow x).0
unfolding find_dns_anomaly
find_dns_anomaly-IsWithin p ts flow (e, alerts) v =
    raise-IsWithin (e, alerts) (dns_finding e.config p ts flow) v

find_signature-IsWithin :
    (p : ParsedPacket) (ts : ℕ) (flow : Option FlowEntry) (x : ThreatEngine × List SecurityAlert)
    → IsWithin x.0
    → IsWithin (find_signature p ts flow x).0
unfolding find_signature
find_signature-IsWithin p ts flow (e, alerts) v =
    raise-IsWithin (e, alerts) (match_payload e.matcher p (l7_of flow) p.l7_payload ts new_alert) v

pub inspect_threats-IsWithin :
    (e : ThreatEngine) (r : PacketRecord) (p : ParsedPacket) (flow : Option FlowEntry)
    (nanos : Bool) (alerts : List SecurityAlert)
    → IsWithin e
    → IsWithin (inspect_threats e r p flow nanos alerts).0
unfolding inspect_threats
inspect_threats-IsWithin e r p flow nanos alerts v =
    let ts = normalize_timestamp_us r.header.ts_sec r.header.ts_usec nanos in
    let x0 : ThreatEngine × List SecurityAlert = (count_packet e ts, alerts) in
    let x1 = find_port_scan p ts x0 in
    let x2 = find_syn_flood p ts x1 in
    let x3 = find_dns_anomaly p ts flow x2 in
    let v1 = find_port_scan-IsWithin p ts x0 (count_packet-IsWithin e ts v) in
    let v2 = find_syn_flood-IsWithin p ts x1 v1 in
    let v3 = find_dns_anomaly-IsWithin p ts flow x2 v2 in
    ground (arith, v, find_signature-IsWithin p ts flow x3 v3)

-- A packet as a worker hands it to the engine.
pub record Arrival : Type 0 where
  pub rec : PacketRecord
  pub parsed : ParsedPacket
  pub flow : Option FlowEntry
  pub is_nanoseconds : Bool

-- The engine after packets in a row.
abbrev pub inspect_all : ThreatEngine → List Arrival → ThreatEngine
inspect_all e [] = e
inspect_all e (a ∷ more) =
    inspect_all (inspect_threats e a.rec a.parsed a.flow a.is_nanoseconds []).0 more

inspect_all-IsWithin :
    (e : ThreatEngine) (arrivals : List Arrival) → IsWithin e → IsWithin (inspect_all e arrivals)
inspect_all-IsWithin e [] v = v
inspect_all-IsWithin e (a ∷ more) v =
    inspect_all-IsWithin (inspect_threats e a.rec a.parsed a.flow a.is_nanoseconds []).0 more
      (inspect_threats-IsWithin e a.rec a.parsed a.flow a.is_nanoseconds [] v)

-- Whatever packets arrive, and however their time stamps jump, the detectors of a threat engine keep
-- one tracker for an address and never more trackers in a map than their configured capacity, or one
-- if that is 0.
pub inspect_all-new_threat_engine-IsWithin :
    (c : ThreatConfig) (arrivals : List Arrival)
    → IsWithin (inspect_all (new_threat_engine c) arrivals)
unfolding new_threat_engine
inspect_all-new_threat_engine-IsWithin c arrivals =
    inspect_all-IsWithin (new_threat_engine c) arrivals (record {
      scans = (refl, (tt, omega arith), (tt, omega arith));
      floods = (refl, (tt, omega arith));
    })
