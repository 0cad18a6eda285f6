-- ===== src/Contracts/Events.antt =====
-- contracts/events.py.
use voice_agent_v.Prelude.{ℕ, ℤ, Bool, Option}
use voice_agent_v.Text.{Text}

pub data SpeechSource : Type 0 where
  vad stt telephony : SpeechSource

pub data PlaybackEventType : Type 0 where
  started checkpoint_played fully_played cleared : PlaybackEventType

-- The reason strings of the interruption manager's decisions and events.
pub data InterruptionReason : Type 0 where
  interruption_disabled agent_not_speaking speech_start no_interruption_candidate
        speech_stop_without_confirmation backchannel_phrase force_interrupt_phrase
        word_count_threshold long_user_speech not_enough_words :
      InterruptionReason

pub record SpeechStart : Type 0 where
  pub call_id : Text
  pub ts_ms : ℕ
  pub source : SpeechSource
  pub confidence : ℕ

pub record SpeechStop : Type 0 where
  pub call_id : Text
  pub ts_ms : ℕ
  pub source : SpeechSource
  pub confidence : ℕ

pub record TranscriptEvent : Type 0 where
  pub call_id : Text
  pub content : Text
  pub is_final : Bool
  pub confidence : ℕ
  pub language : Option Text
  pub start_ms : Option ℕ
  pub end_ms : Option ℕ
  pub provider : Text
  pub asr_turn_id : Option Text

pub record SmartTurnResult : Type 0 where
  pub call_id : Text
  pub turn_id : ℕ
  pub is_complete : Bool
  pub confidence : ℕ
  pub reason : Text

pub record UserTurnFinal : Type 0 where
  pub call_id : Text
  pub turn_id : ℕ
  pub content : Text
  pub language : Option Text
  pub confidence : ℕ
  pub start_ms : Option ℕ
  pub end_ms : Option ℕ

pub record InterruptionStarted : Type 0 where
  pub call_id : Text
  pub turn_id : Option ℕ
  pub sequence_id : ℤ
  pub reason : InterruptionReason
  pub transcript : Option Text
  pub ts_ms : ℕ

pub record InterruptionRejected : Type 0 where
  pub call_id : Text
  pub turn_id : Option ℕ
  pub sequence_id : ℤ
  pub reason : InterruptionReason
  pub transcript : Option Text
  pub ts_ms : ℕ

pub record PlaybackEvent : Type 0 where
  pub call_id : Text
  pub message_id : Text
  pub sequence_id : ℤ
  pub checkpoint_id : Option Text
  pub event_type : PlaybackEventType
  pub ts_ms : ℕ
