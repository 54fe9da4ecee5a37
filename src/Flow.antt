-- ===== src/Flow.antt =====
-- include/dpi/flow and src/flow.
pub mod Address
pub mod AddressOrder
pub mod Key
pub mod KeyLaws
pub mod Tcp
pub mod TcpLaws
pub mod Stats
pub mod Entry
pub mod EntryLaws
pub mod Table
pub mod TableLaws
pub mod Inspection
pub mod Processing
pub mod Expiry
pub mod Verdicts
pub mod Classification
pub mod AddressPrint
