-- ===== src/Engine.antt =====
-- internal/engine: the runtime of a pipeline.
pub mod Workers
pub mod Sink
pub mod Reload
pub mod Outputs
pub mod Retry
pub mod Inflight
pub mod ErrorMode
pub mod Dispatch
pub mod Acks
pub mod Graph
pub mod Build
pub mod Flush
pub mod Transform
