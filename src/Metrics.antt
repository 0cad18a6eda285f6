-- ===== src/Metrics.antt =====
-- src/voice_agent/core/metrics: the times of each turn.
pub mod Latency
