-- ===== src/Threat/SynFlood.antt =====
-- `SynFloodDetector` of include/dpi/threat/syn_flood_detector.h and src/threat/syn_flood_detector.cpp.
use packet_dpi_engine.Base.{
  ℕ, ◌+◌, ◌*◌, ◌/◌, ◌%◌, ◌^◌, Bool, true, false, List, [], ◌∷◌, ◌++◌, Option, none, some, ◌==◌, leb,
  ◌&&◌, ◌||◌, not, if◌then◌else◌, length,
}
use packet_dpi_engine.Text.{codes, to_string}
use packet_dpi_engine.Protocols.Types.{ParsedPacket, is_valid, is_tcp, tcp_l4}
use packet_dpi_engine.Flow.Address.{IpAddress, ip_eq, is_valid_ip}
use packet_dpi_engine.Threat.Types.{SecurityAlert, critical, syn_flood}
use packet_dpi_engine.Threat.Trackers.{
  packet_src, packet_dst, later_than, lookup, store, or_new, enforce_capacity_limits, drop_stale,
}

pub record SynFloodConfig : Type 0 where
  pub half_open_threshold : ℕ
  pub syn_rate_threshold : ℕ
  pub window_us : ℕ
  pub half_open_timeout_us : ℕ
  pub max_tracked_sources : ℕ

abbrev pub default_syn_flood : SynFloodConfig
default_syn_flood = record {
  half_open_threshold = 25;
  syn_rate_threshold = 40;
  window_us = 2000000;
  half_open_timeout_us = 10000000;
  max_tracked_sources = 4096;
}

pub record HalfOpenKey : Type 0 where
  pub dst_ip : IpAddress
  pub src_port : ℕ
  pub dst_port : ℕ

unfoldable pub half_open_eq : HalfOpenKey → HalfOpenKey → Bool
half_open_eq a b = a.src_port == b.src_port && a.dst_port == b.dst_port && ip_eq a.dst_ip b.dst_ip

abbrev pub HalfOpens : Type 0
HalfOpens = List (HalfOpenKey × ℕ)

pub record SourceTracker : Type 0 where
  pub window_start_us : ℕ
  pub last_seen_us : ℕ
  pub syn_attempts : ℕ
  pub completed_handshakes : ℕ
  pub half_open_conns : HalfOpens
  pub alert_emitted : Bool

abbrev pub new_source : SourceTracker
new_source = record {
  window_start_us = 0;
  last_seen_us = 0;
  syn_attempts = 0;
  completed_handshakes = 0;
  half_open_conns = [];
  alert_emitted = false;
}

abbrev pub Sources : Type 0
Sources = List (IpAddress × SourceTracker)

pub record SynFloodDetector : Type 0 where
  pub config : SynFloodConfig
  pub sources : Sources

-- `half_open_conns.erase(key)`: what is left, and whether there was one.
unfoldable pub erase_half_open : HalfOpenKey → HalfOpens → HalfOpens × Bool
erase_half_open k [] = ([], false)
erase_half_open k ((j, t) ∷ m) =
    let (rest, erased) = erase_half_open k m in
    if half_open_eq j k then (m, true) else ((j, t) ∷ rest, erased)

-- `half_open_conns[key] = timestamp_us`.
unfoldable pub open_half : HalfOpenKey → ℕ → HalfOpens → HalfOpens
open_half k ts [] = (k, ts) ∷ []
open_half k ts ((j, t) ∷ m) = if half_open_eq j k then (j, ts) ∷ m else (j, t) ∷ open_half k ts m

-- The loops that erase the half-open connections that timed out.
unfoldable pub drop_half_opens : ℕ → ℕ → HalfOpens → HalfOpens
drop_half_opens now timeout [] = []
drop_half_opens now timeout ((k, t) ∷ m) =
    let rest = drop_half_opens now timeout m in
    if later_than now t timeout then rest else (k, t) ∷ rest

-- A handshake of a source that is tracked is completed or torn down.
unfoldable pub complete_tracker : HalfOpenKey → SourceTracker → SourceTracker
complete_tracker key t =
    let (rest, erased) = erase_half_open key t.half_open_conns in
    if erased
    then record t {
      half_open_conns = rest;
      completed_handshakes = (t.completed_handshakes + 1) % 2 ^ 64;
    }
    else t

unfoldable pub complete : IpAddress → HalfOpenKey → Sources → Sources
complete ip key m = elim (lookup ip m) [ none ↦ m | some t ↦ store ip (complete_tracker key t) m ]

-- A new window, if the last one is over or there was none.
unfoldable pub open_window : SynFloodConfig → ℕ → SourceTracker → SourceTracker
open_window c ts t =
    if t.window_start_us == 0 || later_than ts t.window_start_us c.window_us
    then record t {
      window_start_us = ts;
      syn_attempts = 0;
      completed_handshakes = 0;
      alert_emitted = false;
    }
    else t

-- The tracker of the source after a SYN, before the thresholds are looked at.
unfoldable pub count_syn : SynFloodConfig → ℕ → HalfOpenKey → SourceTracker → SourceTracker
count_syn c ts key t0 =
    let t = open_window c ts t0 in
    record t {
      last_seen_us = ts;
      syn_attempts = (t.syn_attempts + 1) % 2 ^ 64;
      half_open_conns =
          drop_half_opens ts c.half_open_timeout_us (open_half key ts t.half_open_conns);
    }

unfoldable pub is_flood : SynFloodConfig → SourceTracker → Bool
is_flood c t =
    let half_open_alert = leb c.half_open_threshold (length t.half_open_conns) in
    let burst_alert = leb c.syn_rate_threshold t.syn_attempts && t.completed_handshakes == 0 in
    not t.alert_emitted && (half_open_alert || burst_alert)

unfoldable pub flood_alert :
    SynFloodConfig → SourceTracker → ParsedPacket → ℕ → SecurityAlert → SecurityAlert
flood_alert c t p ts out =
    let half_opens = to_string (length t.half_open_conns) in
    record out {
      timestamp_us = ts;
      severity = critical;
      category = syn_flood;
      signature_name = codes "TCP SYN Flood / Connection DoS Detected";
      description =
          codes "Source IP accumulated "
          ++ half_opens
          ++ codes " unacknowledged half-open TCP connections ("
          ++ to_string t.syn_attempts
          ++ codes " SYNs sent)";
      src_ip = packet_src p;
      dst_ip = packet_dst p;
      src_port = p.tcp.src_port;
      dst_port = p.tcp.dst_port;
      transport = tcp_l4;
      trigger_reason =
          codes "SYN Flood threshold exceeded: "
          ++ half_opens
          ++ codes " half-open connections (threshold="
          ++ to_string c.half_open_threshold
          ++ codes ") within "
          ++ to_string (c.window_us / 1000)
          ++ codes " ms";
    }

-- The part for a packet with ACK, RST or FIN.
unfoldable pub on_answer : ParsedPacket → Sources → Sources
on_answer p m =
    let src = packet_src p in
    let dst = packet_dst p in
    let fwd_key : HalfOpenKey = record {
      dst_ip = dst;
      src_port = p.tcp.src_port;
      dst_port = p.tcp.dst_port;
    } in
    let rev_key : HalfOpenKey = record {
      dst_ip = src;
      src_port = p.tcp.dst_port;
      dst_port = p.tcp.src_port;
    } in
    complete src fwd_key (complete dst rev_key m)

-- The part for a SYN without ACK.
unfoldable pub on_attempt :
    SynFloodDetector → ParsedPacket → ℕ → SecurityAlert → SynFloodDetector × Option SecurityAlert
on_attempt d p ts out =
    let src = packet_src p in
    let key : HalfOpenKey = record {
      dst_ip = packet_dst p;
      src_port = p.tcp.src_port;
      dst_port = p.tcp.dst_port;
    } in
    let m = enforce_capacity_limits (λ t. t.last_seen_us) d.config.max_tracked_sources d.sources in
    let t = count_syn d.config ts key (or_new new_source (lookup src m)) in
    if is_flood d.config t
    then (
      record d { sources = store src (record t { alert_emitted = true }) m },
      some (flood_alert d.config t p ts out),
    )
    else (record d { sources = store src t m }, none)

-- `SynFloodDetector::check_packet`: the detector, and the alert if it returns true.
unfoldable pub check_syn_flood :
    SynFloodDetector → ParsedPacket → ℕ → SecurityAlert → SynFloodDetector × Option SecurityAlert
check_syn_flood d p ts out =
    if not (is_valid p) || not (is_tcp p)
    then (d, none)
    else if not (is_valid_ip (packet_src p)) || not (is_valid_ip (packet_dst p))
    then (d, none)
    else (let f = p.tcp.flags in
        let answered = f.ack || f.rst || f.fin in
        let d' = record d { sources = if answered then on_answer p d.sources else d.sources } in
        if f.syn && not f.ack then on_attempt d' p ts out else (d', none))

-- The trackers that are kept lose their half-open connections that timed out.
unfoldable pub refresh : ℕ → ℕ → Sources → Sources
refresh now timeout [] = []
refresh now timeout ((k, t) ∷ m) =
    (k, record t { half_open_conns = drop_half_opens now timeout t.half_open_conns })
    ∷ refresh now timeout m

-- `SynFloodDetector::cleanup_expired`.
unfoldable pub cleanup_syn_flood : SynFloodDetector → ℕ → SynFloodDetector
cleanup_syn_flood d now =
    let timeout = d.config.half_open_timeout_us in
    record d {
      sources =
          refresh now timeout
            (drop_stale (λ t. t.last_seen_us) now (timeout * 2 % 2 ^ 64) d.sources);
    }

unfoldable pub reset_syn_flood : SynFloodDetector → SynFloodDetector
reset_syn_flood d = record d { sources = [] }
