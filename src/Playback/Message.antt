-- ===== src/Playback/Message.antt =====
-- core/playback/playback_tracker.py: the record of one message's playback, and the texts it gathers.
use voice_agent_v.Prelude.{
  ℕ, ℤ, Bool, false, Option, none, some, List, [], ◌∷◌, ◌++◌, is_nil, if◌then◌else◌,
}
use voice_agent_v.Prelude.Dict.{Dict}
use voice_agent_v.Text.{Text, strip, rstrip}
use voice_agent_v.Contracts.{WordTimestamps}

pub record MessagePlayback : Type 0 where
  pub call_id : Text
  pub message_id : Text
  pub sequence_id : ℤ
  pub full_text : Text
  pub text_sent_to_tts : Text
  pub audio_chunks_sent : ℕ
  pub audio_ms_sent : ℕ
  pub checkpoints_sent : List Text
  pub checkpoints_played : List Text
  pub checkpoint_sent_ms : Dict Text ℕ
  pub checkpoint_ack_latency_ms : List ℕ
  pub cleared : Bool
  pub interrupted : Bool
  pub started_ms : Option ℕ
  pub fully_played_ms : Option ℕ
  pub interrupted_ms : Option ℕ
  pub word_timestamps : Option WordTimestamps

unfoldable pub new_message : Text → Text → ℤ → Option ℕ → MessagePlayback
new_message call message s started = record {
  call_id = call;
  message_id = message;
  sequence_id = s;
  full_text = [];
  text_sent_to_tts = [];
  audio_chunks_sent = 0;
  audio_ms_sent = 0;
  checkpoints_sent = [];
  checkpoints_played = [];
  checkpoint_sent_ms = [];
  checkpoint_ack_latency_ms = [];
  cleared = false;
  interrupted = false;
  started_ms = started;
  fully_played_ms = none;
  interrupted_ms = none;
  word_timestamps = none;
}

-- `max(0, audio_ms_sent)`, a sum of durations.
unfoldable pub total_audio_ms : MessagePlayback → ℕ
total_audio_ms p = p.audio_ms_sent

unfoldable pub source_text : MessagePlayback → Text
source_text p = if is_nil p.full_text then p.text_sent_to_tts else p.full_text

unfoldable pub append_text : Text → Text → Text
unfolding strip rstrip
append_text existing t =
    if is_nil existing
    then strip t
    else if is_nil (strip t)
    then existing
    else strip (rstrip existing ++ 32 ∷ strip t)

-- `str(value) if value else None`
abbrev pub optional_text : Option Text → Option Text
optional_text none = none
optional_text (some []) = none
optional_text (some (c ∷ cs)) = some (c ∷ cs)
