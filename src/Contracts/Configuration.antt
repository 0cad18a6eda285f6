-- ===== src/Contracts/Configuration.antt =====
-- The settings of config.py that the modelled code reads.
use voice_agent_v.Prelude.{ℕ, Bool}

pub record Settings : Type 0 where
  pub min_user_speech_ms : ℕ
  pub min_silence_for_turn_end_ms : ℕ
  pub max_silence_before_force_end_ms : ℕ
  pub smart_turn_enabled : Bool
  pub smart_turn_threshold : ℕ
  pub end_of_turn_grace_ms : ℕ
  pub interruption_enabled : Bool
  pub min_interrupt_words : ℕ
  pub hard_interrupt_after_audio_ms : ℕ
  pub wait_gate_on_speech_start : Bool
  pub clear_audio_on_confirmed_interrupt : Bool
  pub preemptive_clear_audio : Bool
