-- ===== src/Threat.antt =====
-- include/dpi/threat and src/threat.
pub mod Types
pub mod Recent
pub mod AlertBuffer
pub mod AlertBufferLaws
pub mod Trackers
pub mod SynFlood
pub mod PortScan
pub mod TrackerLaws
pub mod Signatures
pub mod DnsAnomaly
pub mod Engine
pub mod EngineLaws
pub mod Numbering
pub mod SignatureLaws
