-- ===== src/Live.antt =====
-- Live channels: packages/application/src/live-service.ts and the table of channels in
-- packages/adapters/src/sqlite-repository.ts.
pub mod Record
pub mod Channels
pub mod Service
pub mod Access
pub mod Creation
pub mod Capacity
pub mod Writing
pub mod Claims
pub mod Authorizing
