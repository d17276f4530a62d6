-- ===== src/Context.antt =====
-- incident_guard/context.
pub mod Snapshot
pub mod Messages
pub mod Groups
pub mod Policy
pub mod Incident
pub mod Artifacts
