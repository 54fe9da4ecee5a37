-- ===== src/Dpi.antt =====
-- include/dpi/dpi and src/dpi.
pub mod Types
pub mod Dns
pub mod DnsLaws
pub mod DnsNames
pub mod DnsQuery
pub mod Tls
pub mod TlsLaws
pub mod TlsNames
pub mod TlsHello
pub mod Http
pub mod HttpTexts
pub mod HttpRequest
pub mod HttpHost
pub mod HttpRoundtrip
pub mod Engine
pub mod Results
pub mod EngineLaws
pub mod Inspections
