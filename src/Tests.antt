-- ===== src/Tests.antt =====
-- Concrete packets: runs of the definitions, and the theorems at inputs that meet their hypotheses.
pub mod Packets
pub mod PacketRuns
pub mod FlowRuns
pub mod PipelineRuns
pub mod TableRuns
pub mod RuleRuns
pub mod ThreatRuns
pub mod DpiRuns
pub mod CaptureRuns
pub mod RiskRuns
pub mod WorkerRuns
