-- ===== src/Packet.antt =====
-- include/dpi/packet and src/packet.
pub mod Types
pub mod Reader
pub mod ReaderLaws
pub mod Encoding
pub mod Roundtrip
pub mod Truncation
pub mod Bounds
