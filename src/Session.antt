-- ===== src/Session.antt =====
-- core/session_orchestrator.py: the parts of the session's tasks that decide what the caller hears.
pub mod Output
pub mod TurnCheck
pub mod Cancel
pub mod Closing
pub mod Release
pub mod EmitTurn
