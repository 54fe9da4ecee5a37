-- ===== src/Threat/Types.antt =====
-- include/dpi/threat/threat_types.h.
use packet_dpi_engine.Base.{ℕ}
use packet_dpi_engine.Text.{Text}
use packet_dpi_engine.Protocols.Types.{L4Type}
use packet_dpi_engine.Dpi.Types.{AppProtocol}
use packet_dpi_engine.Flow.Address.{IpAddress}

pub data AlertSeverity : Type 0 where
  info low medium high critical : AlertSeverity

pub data ThreatCategory : Type 0 where
  port_scan syn_flood dns_tunneling dns_dga_anomaly sql_injection directory_traversal
        suspicious_user_agent malformed_traffic custom_signature :
      ThreatCategory

pub record SecurityAlert : Type 0 where
  pub alert_id : ℕ
  pub timestamp_us : ℕ
  pub severity : AlertSeverity
  pub category : ThreatCategory
  pub signature_name : Text
  pub description : Text
  pub src_ip : IpAddress
  pub dst_ip : IpAddress
  pub src_port : ℕ
  pub dst_port : ℕ
  pub transport : L4Type
  pub app_protocol : AppProtocol
  pub trigger_reason : Text
  pub matched_snippet : Text
