-- ===== src/Pipeline.antt =====
-- include/dpi/pipeline and src/pipeline.
pub mod Router
pub mod Affinity
pub mod Queue
pub mod QueueLaws
pub mod Pool
pub mod PoolLaws
pub mod Worker
pub mod WorkerCounts
pub mod WorkerLaws
pub mod Aggregate
