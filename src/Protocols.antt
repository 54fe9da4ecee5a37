-- ===== src/Protocols.antt =====
-- include/dpi/protocols and src/protocols.
pub mod Types
pub mod Headers
pub mod AddressText
pub mod Parser
pub mod HeaderBounds
pub mod Inversion
pub mod Reads
pub mod Safety
pub mod Payload
