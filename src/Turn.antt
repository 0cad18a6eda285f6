-- ===== src/Turn.antt =====
-- Turn detection: core/turn_detection.
pub mod Rules
pub mod SmartTurn
pub mod Merge
pub mod State
pub mod Manager
pub mod Evaluate
pub mod Emit
