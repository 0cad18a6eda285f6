-- ===== src/Playback.antt =====
-- What the caller has heard: core/playback.
pub mod Message
pub mod Tracker
pub mod Events
pub mod Heard
