-- ===== src/Listener.antt =====
-- Who decides that the agent ends the call (core/listener).
pub mod Phrases
pub mod Payload
pub mod EndCall
