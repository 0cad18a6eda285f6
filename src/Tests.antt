-- ===== src/Tests.antt =====
-- Runs of the modelled code at concrete data.
pub mod Samples
pub mod InterruptionTests
pub mod PlaybackTests
pub mod TurnTests
pub mod SessionTests
pub mod AudioTests
pub mod ResponseTests
pub mod CallTests
