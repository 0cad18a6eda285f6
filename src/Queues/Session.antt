-- ===== src/Queues/Session.antt =====
-- core/queues/queue_manager.py: the queues of a call, their sizes, and where the sizes come from.
use voice_agent_v.Prelude.{ℕ, List, [], ◌∷◌}
use voice_agent_v.Queues.Packet.{AgentPacket}
use voice_agent_v.Queues.Queue.{Queue, empty}

-- The settings of config.py that bound the queues.
pub record QueueSettings : Type 0 where
  pub queue_audio_in_max : ℕ
  pub queue_stt_audio_max : ℕ
  pub queue_vad_audio_max : ℕ
  pub queue_rolling_audio_max : ℕ
  pub queue_transcript_event_max : ℕ
  pub queue_speech_event_max : ℕ
  pub queue_turn_event_max : ℕ
  pub queue_interruption_event_max : ℕ
  pub queue_llm_request_max : ℕ
  pub queue_llm_output_max : ℕ
  pub queue_tts_request_max : ℕ
  pub queue_tts_audio_max : ℕ
  pub queue_telephony_audio_out_max : ℕ
  pub queue_playback_event_max : ℕ
  pub queue_metrics_max : ℕ
  pub queue_dtmf_max : ℕ
  pub queue_error_max : ℕ

pub record QueueSizes : Type 0 where
  pub telephony_audio_in : ℕ
  pub stt_audio : ℕ
  pub vad_audio : ℕ
  pub rolling_audio : ℕ
  pub transcript_event : ℕ
  pub speech_event : ℕ
  pub turn_event : ℕ
  pub interruption_event : ℕ
  pub llm_request : ℕ
  pub llm_output : ℕ
  pub tts_request : ℕ
  pub tts_audio : ℕ
  pub telephony_audio_out : ℕ
  pub playback_event : ℕ
  pub metrics : ℕ
  pub dtmf : ℕ
  pub error : ℕ

pub record SessionQueues (A : Type 0) : Type 0 where
  pub telephony_audio_in : Queue (AgentPacket A)
  pub stt_audio : Queue (AgentPacket A)
  pub vad_audio : Queue (AgentPacket A)
  pub rolling_audio : Queue (AgentPacket A)
  pub transcript_event : Queue (AgentPacket A)
  pub speech_event : Queue (AgentPacket A)
  pub turn_event : Queue (AgentPacket A)
  pub interruption_event : Queue (AgentPacket A)
  pub llm_request : Queue (AgentPacket A)
  pub llm_output : Queue (AgentPacket A)
  pub tts_request : Queue (AgentPacket A)
  pub tts_audio : Queue (AgentPacket A)
  pub telephony_audio_out : Queue (AgentPacket A)
  pub playback_event : Queue (AgentPacket A)
  pub metrics : Queue (AgentPacket A)
  pub dtmf : Queue (AgentPacket A)
  pub error : Queue (AgentPacket A)

unfoldable pub all_queues : {A : Type 0} → SessionQueues A → List (Queue (AgentPacket A))
all_queues q =
    q.telephony_audio_in ∷ q.stt_audio ∷ q.vad_audio ∷ q.rolling_audio ∷ q.transcript_event
    ∷ q.speech_event ∷ q.turn_event ∷ q.interruption_event ∷ q.llm_request ∷ q.llm_output
    ∷ q.tts_request ∷ q.tts_audio ∷ q.telephony_audio_out ∷ q.playback_event ∷ q.metrics ∷ q.dtmf
    ∷ q.error ∷ []

unfoldable pub queue_sizes_from_settings : QueueSettings → QueueSizes
queue_sizes_from_settings s = record {
  telephony_audio_in = s.queue_audio_in_max;
  stt_audio = s.queue_stt_audio_max;
  vad_audio = s.queue_vad_audio_max;
  rolling_audio = s.queue_rolling_audio_max;
  transcript_event = s.queue_transcript_event_max;
  speech_event = s.queue_speech_event_max;
  turn_event = s.queue_turn_event_max;
  interruption_event = s.queue_interruption_event_max;
  llm_request = s.queue_llm_request_max;
  llm_output = s.queue_llm_output_max;
  tts_request = s.queue_tts_request_max;
  tts_audio = s.queue_tts_audio_max;
  telephony_audio_out = s.queue_telephony_audio_out_max;
  playback_event = s.queue_playback_event_max;
  metrics = s.queue_metrics_max;
  dtmf = s.queue_dtmf_max;
  error = s.queue_error_max;
}

unfoldable pub create_session_queues : {A : Type 0} → QueueSizes → SessionQueues A
create_session_queues s = record {
  telephony_audio_in = empty s.telephony_audio_in;
  stt_audio = empty s.stt_audio;
  vad_audio = empty s.vad_audio;
  rolling_audio = empty s.rolling_audio;
  transcript_event = empty s.transcript_event;
  speech_event = empty s.speech_event;
  turn_event = empty s.turn_event;
  interruption_event = empty s.interruption_event;
  llm_request = empty s.llm_request;
  llm_output = empty s.llm_output;
  tts_request = empty s.tts_request;
  tts_audio = empty s.tts_audio;
  telephony_audio_out = empty s.telephony_audio_out;
  playback_event = empty s.playback_event;
  metrics = empty s.metrics;
  dtmf = empty s.dtmf;
  error = empty s.error;
}
