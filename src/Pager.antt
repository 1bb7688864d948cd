-- ===== src/Pager.antt =====
-- src/pager: pages on disk and in memory.
pub mod Codec
pub mod Wal
pub mod PageLock
pub mod Cache
pub mod Storage
pub mod Bloom
pub mod Locked
