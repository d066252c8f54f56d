-- ===== src/Coordination.antt =====
-- packages/adapters/src/local-infrastructure.ts, `MemoryCoordinationStore`: the store of leases,
-- short-lived values, viewer windows, segment demands and listeners that all services share.
-- `Date.now()` is the argument `now`, in milliseconds, read once in each operation.
pub mod Leases
pub mod Values
pub mod Viewers
pub mod Demands
pub mod Exclusion
pub mod Refinement
pub mod Anchors
pub mod Windows
pub mod Audience
