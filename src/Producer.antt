-- ===== src/Producer.antt =====
-- packages/application/src/vod-producer-coordinator.ts: one continuous producer for each session.
pub mod Record
pub mod Updates
pub mod History
pub mod Transition
pub mod Fencing
pub mod Recovery
pub mod Recovering
pub mod Active
pub mod Demand
pub mod Audience
pub mod Refresh
pub mod Refreshing
pub mod Stopping
pub mod Checking
pub mod Admission
pub mod Capacity
pub mod Start
pub mod Starting
pub mod Holding
pub mod Owning
pub mod Fences
pub mod Requests
pub mod Retry
pub mod Backoff
pub mod Watermarks
pub mod Pacing
