-- ===== src/Jobs.antt =====
-- packages/application/src/session-jobs.ts: the durable life of one segment job.
pub mod Record
pub mod Writes
pub mod Reruns
pub mod Lifecycle
pub mod Restarting
