-- ===== src/Interruption.antt =====
-- Barge-in: core/interruption.
pub mod Sequences
pub mod Gate
pub mod Phrases
pub mod State
pub mod Manager
