-- ===== src/Threat/Numbering.antt =====
-- The alerts of a threat engine are numbered in their order.
use mathlib.Core.List.{append-nil, append_assoc}
use packet_dpi_engine.Base.{
  ℕ, ◌+◌, ◌%◌, ◌^◌, ◌≤◌, ◌≡◌, refl, sym, ap, ◌∙◌, Bool, List, [], ◌∷◌, ◌++◌, Option, none, some,
  length, arith, length-append,
}
use packet_dpi_engine.Packet.Types.{PacketRecord, normalize_timestamp_us}
use packet_dpi_engine.Protocols.Types.{ParsedPacket}
use packet_dpi_engine.Flow.Entry.{FlowEntry}
use packet_dpi_engine.Threat.Types.{SecurityAlert}
use packet_dpi_engine.Threat.PortScan.{check_port_scan}
use packet_dpi_engine.Threat.SynFlood.{check_syn_flood}
use packet_dpi_engine.Threat.Signatures.{match_payload}
use packet_dpi_engine.Threat.Engine.{
  ThreatEngine, cleanup, raise, count_packet, find_port_scan, find_syn_flood, find_dns_anomaly,
  find_signature, inspect_threats, new_alert, dns_finding, l7_of,
}

-- The next number of 64 bits.
abbrev pub after_number : ℕ → ℕ
after_number n = (n + 1) % 2 ^ 64

-- The alerts have the numbers from `n` on, and the last number after them is `n'`.
abbrev pub Numbered : ℕ → List SecurityAlert → ℕ → Type 0
Numbered n [] n' = n' ≡ n
Numbered n (a ∷ more) n' = (a.alert_id ≡ n) × Numbered (after_number n) more n'

Numbered-last :
    (n : ℕ) (alerts : List SecurityAlert) (n' : ℕ) (a : SecurityAlert)
    → Numbered n alerts n'
    → a.alert_id ≡ n'
    → Numbered n (alerts ++ (a ∷ [])) (after_number n')
Numbered-last n [] n' a h id = (id ∙ h, ap after_number h)
Numbered-last n (b ∷ more) n' a h id = (h.0, Numbered-last (after_number n) more n' a h.1 id)

-- What was raised since an engine with the next number `n` and these alerts.
record Raised (n : ℕ) (alerts : List SecurityAlert) (most : ℕ)
    (x : ThreatEngine × List SecurityAlert) : Type 0 where
  pub fresh : List SecurityAlert
  pub appended : x.1 ≡ alerts ++ fresh
  pub numbered : Numbered n fresh x.0.next_alert_id
  pub few : length fresh ≤ most

raise-Raised :
    (n : ℕ) (alerts : List SecurityAlert) (most : ℕ) (x : ThreatEngine × List SecurityAlert)
    (o : Option SecurityAlert)
    → Raised n alerts most x
    → Raised n alerts (most + 1) (raise x o)
unfolding raise
raise-Raised n alerts most (e, seen) none v = record {
  fresh = v.fresh;
  appended = v.appended;
  numbered = v.numbered;
  few = omega (arith, v.few);
}
raise-Raised n alerts most (e, seen) (some a) v =
    let a' : SecurityAlert = record a { alert_id = e.next_alert_id } in
    record {
      fresh = v.fresh ++ (a' ∷ []);
      appended = ap (λ t. t ++ (a' ∷ [])) v.appended ∙ append_assoc alerts v.fresh (a' ∷ []);
      numbered = Numbered-last n v.fresh e.next_alert_id a' v.numbered refl;
      few = omega (arith, v.few, length-append v.fresh (a' ∷ []));
    }

count_packet-keeps_number :
    (e : ThreatEngine) (ts : ℕ) → (count_packet e ts).next_alert_id ≡ e.next_alert_id
unfolding count_packet cleanup
count_packet-keeps_number e ts = ground arith

-- A step that leaves the number and the alerts, and one that may raise an alert.
weaken :
    (n : ℕ) (alerts : List SecurityAlert) (most : ℕ) (x : ThreatEngine × List SecurityAlert)
    → Raised n alerts most x
    → Raised n alerts (most + 1) x
weaken n alerts most x v = record {
  fresh = v.fresh;
  appended = v.appended;
  numbered = v.numbered;
  few = omega (arith, v.few);
}

find_port_scan-Raised :
    (p : ParsedPacket) (ts n : ℕ) (alerts : List SecurityAlert) (most : ℕ)
    (x : ThreatEngine × List SecurityAlert)
    → Raised n alerts most x
    → Raised n alerts (most + 1) (find_port_scan p ts x)
unfolding find_port_scan
find_port_scan-Raised p ts n alerts most (e, seen) v =
    let d = check_port_scan e.port_scans p ts new_alert in
    raise-Raised n alerts most (record e { port_scans = d.0 }, seen) d.1
      (record { fresh = v.fresh; appended = v.appended; numbered = v.numbered; few = v.few })

find_syn_flood-Raised :
    (p : ParsedPacket) (ts n : ℕ) (alerts : List SecurityAlert) (most : ℕ)
    (x : ThreatEngine × List SecurityAlert)
    → Raised n alerts most x
    → Raised n alerts (most + 1) (find_syn_flood p ts x)
unfolding find_syn_flood
find_syn_flood-Raised p ts n alerts most (e, seen) v =
    let d = check_syn_flood e.syn_floods p ts new_alert in
    let raised =
      raise-Raised n alerts most (record e { syn_floods = d.0 }, seen) d.1
        (record { fresh = v.fresh; appended = v.appended; numbered = v.numbered; few = v.few }) in
    ground (arith, raised, weaken n alerts most (e, seen) v)

find_dns_anomaly-Raised :
    (p : ParsedPacket) (ts : ℕ) (flow : Option FlowEntry) (n : ℕ) (alerts : List SecurityAlert)
    (most : ℕ) (x : ThreatEngine × List SecurityAlert)
    → Raised n alerts most x
    → Raised n alerts (most + 1) (find_dns_anomaly p ts flow x)
unfolding find_dns_anomaly
find_dns_anomaly-Raised p ts flow n alerts most (e, seen) v =
    raise-Raised n alerts most (e, seen) (dns_finding e.config p ts flow) v

find_signature-Raised :
    (p : ParsedPacket) (ts : ℕ) (flow : Option FlowEntry) (n : ℕ) (alerts : List SecurityAlert)
    (most : ℕ) (x : ThreatEngine × List SecurityAlert)
    → Raised n alerts most x
    → Raised n alerts (most + 1) (find_signature p ts flow x)
unfolding find_signature
find_signature-Raised p ts flow n alerts most (e, seen) v =
    raise-Raised n alerts most (e, seen)
      (match_payload e.matcher p (l7_of flow) p.l7_payload ts new_alert) v

inspect_threats-Raised :
    (e : ThreatEngine) (r : PacketRecord) (p : ParsedPacket) (flow : Option FlowEntry)
    (nanos : Bool) (alerts : List SecurityAlert)
    → Raised e.next_alert_id alerts 4 (inspect_threats e r p flow nanos alerts)
unfolding inspect_threats
inspect_threats-Raised e r p flow nanos alerts =
    let ts = normalize_timestamp_us r.header.ts_sec r.header.ts_usec nanos in
    let n = e.next_alert_id in
    let nothing : (k : ℕ) → Raised n alerts k (e, alerts) = λ k. record {
      fresh = [];
      appended = sym (append-nil alerts);
      numbered = refl;
      few = omega arith;
    } in
    let x0 : ThreatEngine × List SecurityAlert = (count_packet e ts, alerts) in
    let v0 : Raised n alerts 0 x0 = record {
      fresh = [];
      appended = sym (append-nil alerts);
      numbered = count_packet-keeps_number e ts;
      few = omega arith;
    } in
    let x1 = find_port_scan p ts x0 in
    let x2 = find_syn_flood p ts x1 in
    let x3 = find_dns_anomaly p ts flow x2 in
    let v1 = find_port_scan-Raised p ts n alerts 0 x0 v0 in
    let v2 = find_syn_flood-Raised p ts n alerts 1 x1 v1 in
    let v3 = find_dns_anomaly-Raised p ts flow n alerts 2 x2 v2 in
    ground (arith, nothing 4, find_signature-Raised p ts flow n alerts 3 x3 v3)

-- Whatever the packet and its flow, the threat engine appends at most four alerts behind those that
-- were there, numbered one after the other from the engine's next number on, modulo 2 ^ 64, and its
-- next number afterwards follows the last one.
pub inspect_threats-Numbered :
    (e : ThreatEngine) (r : PacketRecord) (p : ParsedPacket) (flow : Option FlowEntry)
    (nanos : Bool) (alerts : List SecurityAlert)
    → let (e', alerts') = inspect_threats e r p flow nanos alerts in
      (fresh : List SecurityAlert) × (alerts' ≡ alerts ++ fresh)
      × (length fresh ≤ 4)
      × Numbered e.next_alert_id fresh e'.next_alert_id
inspect_threats-Numbered e r p flow nanos alerts =
    let v = inspect_threats-Raised e r p flow nanos alerts in
    (v.fresh, v.appended, v.few, v.numbered)
