-- ===== src/Agents.antt =====
-- incident_guard/agents.
pub mod Effects
pub mod Provider
pub mod RunModels
pub mod GoalGate
pub mod Tools
pub mod React
pub mod Runtime
