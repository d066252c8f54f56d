-- ===== src/Relay.antt =====
-- apps/relay/src: what the relay process does around the application services.
pub mod Audit
pub mod Auditing
pub mod Retention
pub mod Retaining
