-- ===== src/Cache.antt =====
-- packages/application/src/session-cache.ts: the cache of segments on the disk.
pub mod Eviction
pub mod Evicting
pub mod Cleaning
