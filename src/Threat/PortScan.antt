-- ===== src/Threat/PortScan.antt =====
-- `PortScanDetector` of include/dpi/threat/port_scan_detector.h and src/threat/port_scan_detector.cpp.
-- The two kinds of tracker map a host to the ports probed on it and a port to the hosts probed.
use packet_dpi_engine.Base.{
  ℕ, ◌*◌, ◌/◌, ◌%◌, ◌^◌, Bool, true, false, List, [], ◌∷◌, ◌++◌, Option, none, some, ◌==◌, leb,
  ◌&&◌, ◌||◌, not, if◌then◌else◌, length,
}
use packet_dpi_engine.Text.{Text, codes, to_string}
use packet_dpi_engine.Protocols.Types.{ParsedPacket, is_valid}
use packet_dpi_engine.Flow.Address.{IpAddress, ip_eq, is_valid_ip}
use packet_dpi_engine.Flow.AddressPrint.{ip_to_string}
use packet_dpi_engine.Threat.Types.{SecurityAlert, high, port_scan}
use packet_dpi_engine.Threat.Trackers.{
  packet_src, packet_dst, packet_src_port, packet_dst_port, later_than, lookup, store, or_new,
  enforce_capacity_limits, drop_stale,
}

pub record PortScanConfig : Type 0 where
  pub vertical_port_threshold : ℕ
  pub horizontal_host_threshold : ℕ
  pub window_us : ℕ
  pub max_tracked_sources : ℕ

abbrev pub default_port_scan : PortScanConfig
default_port_scan = record {
  vertical_port_threshold = 15;
  horizontal_host_threshold = 15;
  window_us = 5000000;
  max_tracked_sources = 4096;
}

pub record VerticalTracker : Type 0 where
  pub window_start_us : ℕ
  pub last_seen_us : ℕ
  pub host_to_ports : List (IpAddress × List ℕ)
  pub alert_emitted : Bool

pub record HorizontalTracker : Type 0 where
  pub window_start_us : ℕ
  pub last_seen_us : ℕ
  pub port_to_hosts : List (ℕ × List IpAddress)
  pub alert_emitted : Bool

abbrev pub new_vertical : VerticalTracker
new_vertical = record {
  window_start_us = 0;
  last_seen_us = 0;
  host_to_ports = [];
  alert_emitted = false;
}

abbrev pub new_horizontal : HorizontalTracker
new_horizontal = record {
  window_start_us = 0;
  last_seen_us = 0;
  port_to_hosts = [];
  alert_emitted = false;
}

pub record PortScanDetector : Type 0 where
  pub config : PortScanConfig
  pub vertical_trackers : List (IpAddress × VerticalTracker)
  pub horizontal_trackers : List (IpAddress × HorizontalTracker)

-- `insert` into a set of ports and into a set of addresses.
unfoldable pub insert_port : ℕ → List ℕ → List ℕ
insert_port p [] = p ∷ []
insert_port p (q ∷ qs) = if q == p then q ∷ qs else q ∷ insert_port p qs

unfoldable pub insert_host : IpAddress → List IpAddress → List IpAddress
insert_host a [] = a ∷ []
insert_host a (b ∷ bs) = if ip_eq b a then b ∷ bs else b ∷ insert_host a bs

-- `port_to_hosts[port]`, and the write through it.
unfoldable pub hosts_at : ℕ → List (ℕ × List IpAddress) → List IpAddress
hosts_at p [] = []
hosts_at p ((q, hs) ∷ m) = if q == p then hs else hosts_at p m

unfoldable pub store_hosts :
    ℕ → List IpAddress → List (ℕ × List IpAddress) → List (ℕ × List IpAddress)
store_hosts p hs [] = (p, hs) ∷ []
store_hosts p hs ((q, gs) ∷ m) = if q == p then (q, hs) ∷ m else (q, gs) ∷ store_hosts p hs m

-- A new window, if the last one is over or there was none.
unfoldable pub open_vertical : PortScanConfig → ℕ → VerticalTracker → VerticalTracker
open_vertical c ts t =
    if t.window_start_us == 0 || later_than ts t.window_start_us c.window_us
    then record t { window_start_us = ts; host_to_ports = []; alert_emitted = false }
    else t

unfoldable pub open_horizontal : PortScanConfig → ℕ → HorizontalTracker → HorizontalTracker
open_horizontal c ts t =
    if t.window_start_us == 0 || later_than ts t.window_start_us c.window_us
    then record t { window_start_us = ts; port_to_hosts = []; alert_emitted = false }
    else t

-- The alert on which both checks agree in all but the texts.
abbrev pub scan_alert : Text → Text → Text → ParsedPacket → ℕ → SecurityAlert → SecurityAlert
scan_alert name description reason p ts out = record out {
  timestamp_us = ts;
  severity = high;
  category = port_scan;
  signature_name = name;
  description = description;
  src_ip = packet_src p;
  dst_ip = packet_dst p;
  src_port = packet_src_port p;
  dst_port = packet_dst_port p;
  transport = p.l4_type;
  trigger_reason = reason;
}

unfoldable pub vertical_alert :
    PortScanConfig → ℕ → ParsedPacket → ℕ → SecurityAlert → SecurityAlert
vertical_alert c count p ts out =
    scan_alert (codes "Vertical Port Scan Detected")
      (codes "Source IP targeted "
        ++ to_string count
        ++ codes " distinct ports on host "
        ++ ip_to_string (packet_dst p))
      (codes "Vertical scan threshold exceeded: "
        ++ to_string count
        ++ codes " ports probed within "
        ++ to_string (c.window_us / 1000)
        ++ codes " ms window")
      p ts out

unfoldable pub horizontal_alert :
    PortScanConfig → ℕ → ParsedPacket → ℕ → SecurityAlert → SecurityAlert
horizontal_alert c count p ts out =
    scan_alert (codes "Horizontal Port Scan (Host Sweep) Detected")
      (codes "Source IP swept "
        ++ to_string count
        ++ codes " distinct destination hosts on port "
        ++ to_string (packet_dst_port p))
      (codes "Horizontal scan threshold exceeded: "
        ++ to_string count
        ++ codes " hosts probed on port "
        ++ to_string (packet_dst_port p)
        ++ codes " within "
        ++ to_string (c.window_us / 1000)
        ++ codes " ms window")
      p ts out

-- The tracker after a packet, and the number of ports on its host or of hosts on its port.
unfoldable pub probe_port :
    PortScanConfig → ℕ → ParsedPacket → VerticalTracker → VerticalTracker × ℕ
probe_port c ts p t0 =
    let t = open_vertical c ts t0 in
    let ports =
      insert_port (packet_dst_port p) (or_new [] (lookup (packet_dst p) t.host_to_ports)) in
    (
      record t { last_seen_us = ts; host_to_ports = store (packet_dst p) ports t.host_to_ports },
      length ports,
    )

unfoldable pub probe_host :
    PortScanConfig → ℕ → ParsedPacket → HorizontalTracker → HorizontalTracker × ℕ
probe_host c ts p t0 =
    let t = open_horizontal c ts t0 in
    let hosts = insert_host (packet_dst p) (hosts_at (packet_dst_port p) t.port_to_hosts) in
    (
      record t {
        last_seen_us = ts;
        port_to_hosts = store_hosts (packet_dst_port p) hosts t.port_to_hosts;
      },
      length hosts,
    )

-- `enforce_capacity_limits`, of both maps.
unfoldable pub enforce_both : PortScanDetector → PortScanDetector
enforce_both d = record d {
  vertical_trackers =
      enforce_capacity_limits (λ t. t.last_seen_us) d.config.max_tracked_sources
        d.vertical_trackers;
  horizontal_trackers =
      enforce_capacity_limits (λ t. t.last_seen_us) d.config.max_tracked_sources
        d.horizontal_trackers;
}

-- The second check.
unfoldable pub check_horizontal :
    PortScanDetector → ParsedPacket → ℕ → SecurityAlert → PortScanDetector × Option SecurityAlert
check_horizontal d p ts out =
    let src = packet_src p in
    let (t, count) =
      probe_host d.config ts p (or_new new_horizontal (lookup src d.horizontal_trackers)) in
    if not t.alert_emitted && leb d.config.horizontal_host_threshold count
    then (
      record d {
        horizontal_trackers = store src (record t { alert_emitted = true }) d.horizontal_trackers;
      },
      some (horizontal_alert d.config count p ts out),
    )
    else (record d { horizontal_trackers = store src t d.horizontal_trackers }, none)

-- Both checks; the second one is left out after an alert of the first.
unfoldable pub check_scans :
    PortScanDetector → ParsedPacket → ℕ → SecurityAlert → PortScanDetector × Option SecurityAlert
check_scans d0 p ts out =
    let d = enforce_both d0 in
    let src = packet_src p in
    let (t, count) =
      probe_port d.config ts p (or_new new_vertical (lookup src d.vertical_trackers)) in
    let alarmed : PortScanDetector = record d {
      vertical_trackers = store src (record t { alert_emitted = true }) d.vertical_trackers;
    } in
    let quiet : PortScanDetector = record d {
      vertical_trackers = store src t d.vertical_trackers;
    } in
    if not t.alert_emitted && leb d.config.vertical_port_threshold count
    then (alarmed, some (vertical_alert d.config count p ts out))
    else check_horizontal quiet p ts out

-- `PortScanDetector::check_packet`: the detector, and the alert if it returns true.
unfoldable pub check_port_scan :
    PortScanDetector → ParsedPacket → ℕ → SecurityAlert → PortScanDetector × Option SecurityAlert
check_port_scan d p ts out =
    if not (is_valid p)
    then (d, none)
    else if not (is_valid_ip (packet_src p))
        || not (is_valid_ip (packet_dst p))
        || packet_dst_port p == 0
    then (d, none)
    else check_scans d p ts out

-- `PortScanDetector::cleanup_expired`.
unfoldable pub cleanup_port_scan : PortScanDetector → ℕ → PortScanDetector
cleanup_port_scan d now =
    let limit = d.config.window_us * 2 % 2 ^ 64 in
    record d {
      vertical_trackers = drop_stale (λ t. t.last_seen_us) now limit d.vertical_trackers;
      horizontal_trackers = drop_stale (λ t. t.last_seen_us) now limit d.horizontal_trackers;
    }

unfoldable pub reset_port_scan : PortScanDetector → PortScanDetector
reset_port_scan d = record d { vertical_trackers = []; horizontal_trackers = [] }
