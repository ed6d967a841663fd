-- ===== src/Tests.antt =====
-- Runs of the models at concrete inputs.
pub mod Samples
pub mod Topology
pub mod Config
pub mod Workers
pub mod Dispatch
pub mod Concurrency
pub mod Reload
pub mod Disk
pub mod Wal
pub mod Eql
pub mod Pipeline
pub mod Edge
pub mod Programs
pub mod Plugins
