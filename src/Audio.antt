-- ===== src/Audio.antt =====
-- src/voice_agent/audio: sizes and durations of audio, the mu-law code, and frames cut into chunks.
pub mod Sizes
pub mod Chunks
pub mod Mulaw
pub mod RollingBuffer
