-- ===== src/Tests/Samples.antt =====
-- The data of the tests.
use voice_agent_v.Prelude.Sets.{contains}
use voice_agent_v.Interruption.Sequences.Validity.{Issued, WellFormed}
use voice_agent_v.Prelude.{
  ℕ, ℤ, int_eq, arith, ◌≡◌, refl, negsuc, ◌+◌, pos, true, false, none, some, [], ◌∷◌,
}
use voice_agent_v.Text.{Text, text}
use voice_agent_v.Contracts.{
  SpeechStart, SpeechStop, vad, TranscriptEvent, Settings, PlaybackEventType, PlaybackEvent,
  FrameMeta, AudioFrame, pcm16_16k,
}
use voice_agent_v.Interruption.Sequences.{SequenceManager, system_sequence_id}
use voice_agent_v.Interruption.Gate.{GateState, OutputGate}
use voice_agent_v.Interruption.State.{Manager, Ports}
use voice_agent_v.Interruption.Manager.{Config}
use voice_agent_v.Turn.SmartTurn.{free_text_expected}
use voice_agent_v.Turn.Manager.{TurnManager}
use voice_agent_v.Playback.Message.{MessagePlayback}
use voice_agent_v.Playback.Tracker.{PlaybackTracker}

abbrev pub settings : Settings
settings = record {
  min_user_speech_ms = 250;
  min_silence_for_turn_end_ms = 450;
  max_silence_before_force_end_ms = 1200;
  smart_turn_enabled = true;
  smart_turn_threshold = 650000;
  end_of_turn_grace_ms = 250;
  interruption_enabled = true;
  min_interrupt_words = 3;
  hard_interrupt_after_audio_ms = 350;
  wait_gate_on_speech_start = true;
  clear_audio_on_confirmed_interrupt = true;
  preemptive_clear_audio = false;
}

-- A world that counts the calls of its ports; the cancellation of the speech raises.
abbrev pub ports : Ports ℕ
ports = record {
  clear_playback = λ w. (none, w + 1);
  tts_cancel = λ message reason w. (some (text "RuntimeError: closed"), w + 1);
  llm_cancel = λ response w. (none, w + 1);
  on_confirmed = none;
}

abbrev pub config : Config ℕ
config = record {
  call_id = text "call";
  settings = settings;
  classifier = record {
    force_interrupt_phrases = text "stop" ∷ text "ek minute" ∷ [];
    backchannel_phrases = text "haan" ∷ text "haan ji" ∷ [];
  };
  ports = ports;
}

-- Two responses were begun.
abbrev pub sequences : SequenceManager
sequences = record {
  current_sequence_id = 2;
  valid_sequence_ids = pos 2 ∷ system_sequence_id ∷ [];
  invalidated_sequence_ids = pos 1 ∷ [];
}

sequences-Issued : (s : ℤ) → contains s sequences.valid_sequence_ids ≡ true → Issued sequences s
sequences-Issued (pos n) h = ground arith
sequences-Issued (negsuc n) h = ground arith

sequences_invalidated :
    (s : ℤ) → contains s sequences.invalidated_sequence_ids ≡ true → Issued sequences s
sequences_invalidated (pos n) h = ground arith
sequences_invalidated (negsuc n) h = ground arith

sequences_disjoint :
    (s : ℤ)
    → contains s sequences.valid_sequence_ids ≡ true
    → contains s sequences.invalidated_sequence_ids ≡ false
sequences_disjoint (pos n) h = ground arith
sequences_disjoint (negsuc n) h = refl

pub sequences-WellFormed : WellFormed sequences
sequences-WellFormed = record {
  system_valid = refl;
  valid_issued = sequences-Issued;
  invalidated_issued = sequences_invalidated;
  disjoint = sequences_disjoint;
}

abbrev pub open_gate : OutputGate
open_gate = record { state = GateState.send; blocked_sequence_ids = pos 1 ∷ [] }

-- The agent speaks the second response.
abbrev pub speaking : Manager ℕ
speaking = record {
  state = record {
    agent_is_speaking = true;
    user_interrupt_start_ms = none;
    candidate_sequence_id = none;
    user_may_be_interrupting = false;
    confirmed_count = 0;
    rejected_count = 0;
    events = [];
    cancellation_errors = [];
  };
  active_response =
      some (record { sequence_id = pos 2; response_id = text "r2"; message_id = text "m2" });
  gate = open_gate;
  sequences = sequences;
  world = 0;
}

abbrev pub says : Text → TranscriptEvent
says t = record {
  call_id = text "call";
  content = t;
  is_final = true;
  confidence = 900000;
  language = none;
  start_ms = some 1000;
  end_ms = some 1500;
  provider = text "mock";
  asr_turn_id = none;
}

abbrev pub speech_start_at : ℕ → SpeechStart
speech_start_at n = record { call_id = text "call"; ts_ms = n; source = vad; confidence = 1000000 }

abbrev pub speech_stop_at : ℕ → SpeechStop
speech_stop_at n = record { call_id = text "call"; ts_ms = n; source = vad; confidence = 1000000 }

abbrev pub no_meta : FrameMeta
no_meta = record {
  message_id = some (text "m2");
  content = none;
  word_timestamps = none;
  source_codec = none;
  chunk_offset = none;
  latest_timestamp_ms = none;
}

-- A frame of 20 ms of the second response.
abbrev pub frame : AudioFrame
frame = record {
  call_id = text "call";
  bytes = 0 ∷ 1 ∷ [];
  timestamp_ms = 1000;
  sample_rate = 16000;
  codec = pcm16_16k;
  channels = 1;
  sequence_id = some (pos 2);
  duration_ms = some 20;
  meta = no_meta;
}

-- A message of which 200 ms were sent.
abbrev pub message : MessagePlayback
message = record {
  call_id = text "call";
  message_id = text "m2";
  sequence_id = pos 2;
  full_text = text "namaste, kaise hain?";
  text_sent_to_tts = text "namaste, kaise hain?";
  audio_chunks_sent = 10;
  audio_ms_sent = 200;
  checkpoints_sent = text "m2" ∷ [];
  checkpoints_played = [];
  checkpoint_sent_ms = (text "m2", 1200) ∷ [];
  checkpoint_ack_latency_ms = [];
  cleared = false;
  interrupted = false;
  started_ms = some 1000;
  fully_played_ms = none;
  interrupted_ms = none;
  word_timestamps = none;
}

abbrev pub tracker : PlaybackTracker
tracker = record {
  call_id = text "call";
  messages = (text "m2", message) ∷ [];
  sequence_to_message_id = (pos 2, text "m2") ∷ [];
  checkpoint_to_message_id = (text "m2", text "m2") ∷ [];
}

abbrev pub reports : PlaybackEventType → ℕ → PlaybackEvent
reports t time = record {
  call_id = text "call";
  message_id = text "m2";
  sequence_id = pos 2;
  checkpoint_id = some (text "m2");
  event_type = t;
  ts_ms = time;
}

-- The caller has said something and been silent for 1300 ms at the time 3000.
abbrev pub turn : TurnManager
turn = record {
  call_id = text "call";
  settings = settings;
  expected_answer = free_text_expected;
  smart_turn_runner = none;
  smart_turn_available = true;
  state = record {
    turn_id = 4;
    is_user_speaking = false;
    user_started_ms = some 1000;
    last_speech_ms = some 1700;
    last_transcript_ms = some 1750;
    interim_text = [];
    final_fragments = text "mera order kahan hai" ∷ [];
    last_final_ms = some 1750;
    stt_speech_final_seen = true;
    vad_stop_seen = true;
    smart_turn_complete = false;
    smart_turn_confidence = 0;
    smart_turn_ms = none;
    smart_turn_skipped = false;
    language = none;
    confidence = 900000;
    emitted_turn = false;
  };
  last_emitted_text = text "mera order";
  last_emitted_ms = some 500;
  last_emitted_turn = some (record {
    call_id = text "call";
    turn_id = 4;
    content = text "mera order";
    language = none;
    confidence = 900000;
    start_ms = some 100;
    end_ms = some 500;
  });
}
