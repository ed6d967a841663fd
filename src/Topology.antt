-- ===== src/Topology.antt =====
-- internal/topology.
pub mod Ir
pub mod Defaults
pub mod Graph
pub mod Cycle
pub mod Path
pub mod Validate
pub mod Build
