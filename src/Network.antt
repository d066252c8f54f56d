-- ===== src/Network.antt =====
-- packages/adapters/src/network-policy.ts: which addresses a provider may be reached at.
pub mod Address
pub mod Target
pub mod Safety
