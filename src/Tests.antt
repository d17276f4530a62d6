-- ===== src/Tests.antt =====
-- Runs of the model at concrete inputs, and the theorems at inputs that meet their conditions.
pub mod Samples
pub mod Runs
pub mod Storage
pub mod Histories
pub mod Tools
pub mod Inbox
pub mod Contexts
pub mod React
pub mod Runtime
pub mod Incidents
pub mod Decisions
pub mod Artifacts
