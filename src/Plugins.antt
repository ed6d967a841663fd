-- ===== src/Plugins.antt =====
-- The transforms of plugins/transform that are written in Go alone.
pub mod Filter
pub mod Route
