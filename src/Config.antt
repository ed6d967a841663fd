-- ===== src/Config.antt =====
-- internal/config: the values and records of a pipeline configuration, and what is built from them.
pub mod Value
pub mod Types
pub mod Edges
pub mod Normalize
pub mod Hocon
pub mod Defaults
