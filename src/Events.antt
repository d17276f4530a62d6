-- ===== src/Events.antt =====
-- incident_guard/events.
pub mod Store
pub mod Kinds
pub mod Payload
pub mod Projected
pub mod Locals
pub mod Handlers
pub mod Projection
pub mod Inbox
