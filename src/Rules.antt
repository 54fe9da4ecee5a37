-- ===== src/Rules.antt =====
-- include/dpi/rules and src/rules.
pub mod Types
pub mod Actions
pub mod Port
pub mod Domain
pub mod Ip
pub mod Literals
pub mod Set
pub mod Engine
pub mod Sorting
pub mod SetLaws
pub mod EngineLaws
pub mod GlobLaws
pub mod DomainLaws
