-- ===== src/Tests.antt =====
-- Runs at concrete inputs: for each theorem with hypotheses, an input at which they hold.
mod Coordination
mod Repository
mod Producer
mod Recovery
mod Start
mod Requests
mod Pacing
mod Jobs
mod Relay
mod Retention
mod Cluster
mod Routing
mod Cache
mod Network
mod Enrollment
mod Live
