-- ===== src/Buffer.antt =====
-- internal/buffer: the buffers of the edges, in memory and on disk.
pub mod Disk
pub mod Wal
pub mod Edge
