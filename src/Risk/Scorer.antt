-- ===== src/Risk/Scorer.antt =====
-- `RiskScorer::calculate_score` of src/risk/risk_scorer.cpp.
use packet_dpi_engine.Base.{
  ℕ, ◌+◌, ◌*◌, ◌/◌, ◌%◌, ◌^◌, Bool, List, [], ◌∷◌, ◌++◌, ◌==◌, ltb, leb, ◌&&◌, not, if◌then◌else◌,
  length, min,
}
use packet_dpi_engine.Text.{Text, codes}
use packet_dpi_engine.Dpi.Types.{L7Metadata}
use packet_dpi_engine.Rules.Types.{RuleAction, allow, block, alert, log}
use packet_dpi_engine.Threat.Types.{AlertSeverity, info, low, medium, high, critical, SecurityAlert}
use packet_dpi_engine.Risk.Types.{
  RiskLevel, no_risk, low_risk, medium_risk, high_risk, critical_risk, BehavioralMetrics,
  FlowRiskScore,
}

pub record RiskScoringWeights : Type 0 where
  pub threat_alert_critical : ℕ
  pub threat_alert_high : ℕ
  pub threat_alert_medium : ℕ
  pub threat_alert_low : ℕ
  pub policy_blocked : ℕ
  pub policy_alert : ℕ
  pub beaconing_detected : ℕ
  pub exfiltration_detected : ℕ
  pub unclassified_high_port : ℕ
  pub large_packet_burst : ℕ

abbrev pub default_weights : RiskScoringWeights
default_weights = record {
  threat_alert_critical = 50;
  threat_alert_high = 35;
  threat_alert_medium = 20;
  threat_alert_low = 10;
  policy_blocked = 40;
  policy_alert = 25;
  beaconing_detected = 35;
  exfiltration_detected = 30;
  unclassified_high_port = 15;
  large_packet_burst = 10;
}

-- `raw_score` and `contributing_factors` so far.
pub record Tally : Type 0 where
  pub raw_score : ℕ
  pub factors : List Text

-- A weight is added, modulo 2 ^ 32, and its factor is named unless there are five already.
unfoldable pub add_factor : ℕ → Text → Tally → Tally
add_factor weight factor t = record {
  raw_score = (t.raw_score + weight) % 2 ^ 32;
  factors = if ltb (length t.factors) 5 then t.factors ++ (factor ∷ []) else t.factors;
}

unfoldable pub add_if : Bool → ℕ → Text → Tally → Tally
unfolding add_factor
add_if holds weight factor t = if holds then add_factor weight factor t else t

abbrev pub severity_weight : RiskScoringWeights → AlertSeverity → ℕ
severity_weight w critical = w.threat_alert_critical
severity_weight w high = w.threat_alert_high
severity_weight w medium = w.threat_alert_medium
severity_weight w low = w.threat_alert_low
severity_weight w info = w.threat_alert_low

-- The loop over the alerts.
unfoldable pub add_alerts : RiskScoringWeights → List SecurityAlert → Tally → Tally
add_alerts w [] t = t
add_alerts w (a ∷ more) t =
    add_alerts w more
      (add_factor (severity_weight w a.severity) (codes "Threat Alert: " ++ a.signature_name) t)

unfoldable pub add_policy : RiskScoringWeights → RuleAction → Tally → Tally
add_policy w block t = add_factor w.policy_blocked (codes "Security Policy: Traffic Blocked") t
add_policy w alert t = add_factor w.policy_alert (codes "Security Policy: Traffic Flagged") t
add_policy w allow t = t
add_policy w log t = t

abbrev pub is_burst : BehavioralMetrics → Bool
is_burst m =
    leb 10 ((m.fwd_packets + m.rev_packets) % 2 ^ 32)
    && m.rev_packets == 0
    && ltb (m.fwd_packets * 8 % 2 ^ 32 / 10) m.large_packets

-- The sum over all five heuristics.
unfoldable pub tally :
    RiskScoringWeights
    → BehavioralMetrics
    → L7Metadata
    → RuleAction
    → List SecurityAlert
    → ℕ
    → Tally
tally w m l7 action alerts dst_port =
    let t0 : Tally = record { raw_score = 0; factors = [] } in
    let t1 = add_policy w action (add_alerts w alerts t0) in
    let t2 =
      add_if m.is_beaconing w.beaconing_detected
        (codes "C2 Beaconing: Periodic low-jitter heartbeat") t1 in
    let t3 =
      add_if m.is_exfiltration w.exfiltration_detected
        (codes "Data Exfiltration: High-volume asymmetric upload") t2 in
    let t4 =
      add_if (not l7.is_classified && leb 1024 dst_port && ltb 5000 m.fwd_bytes)
        w.unclassified_high_port (codes "Unclassified protocol on high port") t3 in
    add_if (is_burst m) w.large_packet_burst (codes "High-volume unidirectional packet burst") t4

unfoldable pub level_of : ℕ → RiskLevel
level_of score =
    if leb 80 score
    then critical_risk
    else if leb 60 score
    then high_risk
    else if leb 40 score
    then medium_risk
    else if leb 20 score
    then low_risk
    else no_risk

unfoldable pub calculate_score :
    RiskScoringWeights
    → BehavioralMetrics
    → L7Metadata
    → RuleAction
    → List SecurityAlert
    → ℕ
    → FlowRiskScore
calculate_score w m l7 action alerts dst_port =
    let t = tally w m l7 action alerts dst_port in
    let final_score = min 100 t.raw_score in
    record { score = final_score; level = level_of final_score; contributing_factors = t.factors }
