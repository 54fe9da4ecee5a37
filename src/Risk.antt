-- ===== src/Risk.antt =====
-- include/dpi/risk and src/risk.
pub mod Types
pub mod Scorer
pub mod ScorerLaws
pub mod Profiler
pub mod Recency
pub mod ProfilerLaws
pub mod Refinement
