-- ===== src/Risk/Types.antt =====
-- include/dpi/risk/risk_types.h and src/risk/risk_types.cpp, without the fields that are
-- floating-point numbers.
use packet_dpi_engine.Base.{ℕ, Bool, List, if◌then◌else◌}
use packet_dpi_engine.Text.{Text, codes, upper, text_eq}
use packet_dpi_engine.Flow.Address.{IpAddress}

pub data RiskLevel : Type 0 where
  no_risk low_risk medium_risk high_risk critical_risk : RiskLevel

unfoldable pub risk_level_to_string : RiskLevel → Text
risk_level_to_string no_risk = codes "NONE"
risk_level_to_string low_risk = codes "LOW"
risk_level_to_string medium_risk = codes "MEDIUM"
risk_level_to_string high_risk = codes "HIGH"
risk_level_to_string critical_risk = codes "CRITICAL"

unfoldable pub string_to_risk_level : Text → RiskLevel
string_to_risk_level str =
    let up = upper str in
    if text_eq up (codes "CRITICAL")
    then critical_risk
    else if text_eq up (codes "HIGH")
    then high_risk
    else if text_eq up (codes "MEDIUM")
    then medium_risk
    else if text_eq up (codes "LOW")
    then low_risk
    else no_risk

-- What the scorer reads of the metrics of a flow.
pub record BehavioralMetrics : Type 0 where
  pub fwd_packets : ℕ
  pub rev_packets : ℕ
  pub fwd_bytes : ℕ
  pub rev_bytes : ℕ
  pub small_packets : ℕ
  pub medium_packets : ℕ
  pub large_packets : ℕ
  pub is_beaconing : Bool
  pub is_exfiltration : Bool

pub record FlowRiskScore : Type 0 where
  pub score : ℕ
  pub level : RiskLevel
  pub contributing_factors : List Text

pub record HostRiskProfile : Type 0 where
  pub ip : IpAddress
  pub total_flows : ℕ
  pub high_risk_flows : ℕ
  pub max_flow_risk : ℕ
  pub last_seen_us : ℕ
  pub has_beaconing_flow : Bool
  pub has_exfiltration_flow : Bool
