-- ===== src/Playback/Tracker.antt =====
-- core/playback/playback_tracker.py: the tracker's methods. `now` is the clock, read where a method
-- reads it.
pub mod Links
use voice_agent_v.Prelude.{
  ℕ, ℤ, pos, ◌+◌, ◌-◌, Bool, true, false, not, ◌&&◌, ◌||◌, Option, none, some, List, [], ◌∷◌, ◌++◌,
  map, is_nil, is_some, or_ms, or_ms?, ◌==◌, nat_eq, int_eq, list_eq, if◌then◌else◌,
}
use voice_agent_v.Prelude.Dict.{Dict, get, put}
use voice_agent_v.Text.{Text}
use voice_agent_v.Contracts.{
  AudioFrame, PlaybackEvent, PlaybackEventType, started, checkpoint_played, fully_played, cleared,
  InterruptionStarted,
}
use voice_agent_v.Playback.Message.{MessagePlayback, new_message, append_text, optional_text}
use voice_agent_v.Playback.Heard.{estimate_heard_text}

pub record PlaybackTracker : Type 0 where
  pub call_id : Text
  pub messages : Dict Text MessagePlayback
  pub sequence_to_message_id : Dict ℤ Text
  pub checkpoint_to_message_id : Dict Text Text

unfoldable pub new : Text → PlaybackTracker
new call = record {
  call_id = call;
  messages = [];
  sequence_to_message_id = [];
  checkpoint_to_message_id = [];
}

abbrev pub or_new : Text → Text → ℤ → Option ℕ → Option MessagePlayback → MessagePlayback
or_new call message s begun none = new_message call message s begun
or_new call message s begun (some p) = p

unfoldable pub start_message :
    Text → ℤ → Option ℕ → PlaybackTracker → MessagePlayback × PlaybackTracker
unfolding new_message
start_message message s begun k =
    let found = get k.messages message in
    let p = or_new k.call_id message s begun found in
    (
      p,
      record k {
        messages = if is_some found then k.messages else put k.messages message p;
        sequence_to_message_id = put k.sequence_to_message_id s message;
      },
    )

-- A change to the message that stands in the dictionary, if it does.
unfoldable pub update :
    Text → (MessagePlayback → MessagePlayback) → PlaybackTracker → PlaybackTracker
update message f k = elim (get k.messages message) [
  | none ↦ k
  | some p ↦ record k { messages = put k.messages message (f p) }
]

unfoldable pub append_generated_text : Text → Text → PlaybackTracker → PlaybackTracker
unfolding update append_text
append_generated_text message t k =
    if is_nil t
    then k
    else update message (λ p. record p { full_text = append_text p.full_text t }) k

unfoldable pub mark_text_sent_to_tts : Text → Text → PlaybackTracker → PlaybackTracker
unfolding update append_text
mark_text_sent_to_tts message t k =
    if is_nil t
    then k
    else update message (λ p. record p { text_sent_to_tts = append_text p.text_sent_to_tts t }) k

-- The message that a frame belongs to.
unfoldable pub message_of_frame : PlaybackTracker → AudioFrame → Option Text
message_of_frame k f = elim (optional_text f.meta.message_id) [
  | some message ↦ some message
  | none ↦ elim f.sequence_id [ none ↦ none | some s ↦ get k.sequence_to_message_id s ]
]

abbrev pub sequence_or_zero : Option ℤ → ℤ
sequence_or_zero none = pos 0
sequence_or_zero (some s) = s

-- What one sent frame adds to its message.
unfoldable pub count_frame : AudioFrame → ℕ → MessagePlayback → MessagePlayback
unfolding append_text
count_frame f time p = record p {
  started_ms = if is_some p.started_ms then p.started_ms else some time;
  audio_chunks_sent = p.audio_chunks_sent + 1;
  audio_ms_sent = p.audio_ms_sent + or_ms f.duration_ms 0;
  text_sent_to_tts = elim (optional_text f.meta.content) [
    | none ↦ p.text_sent_to_tts
    | some t ↦ append_text p.text_sent_to_tts t
  ];
  word_timestamps = elim f.meta.word_timestamps [ none ↦ p.word_timestamps | some w ↦ some w ];
}

-- Both readings of the clock, where the times given are 0, are the same `now`.
unfoldable pub mark_audio_sent :
    ℕ → AudioFrame → Option ℕ → PlaybackTracker → Option MessagePlayback × PlaybackTracker
unfolding message_of_frame start_message count_frame
mark_audio_sent now f timestamp k = elim (message_of_frame k f) [
  | none ↦ (none, k)
  | some message ↦
      let time = or_ms timestamp (or_ms (some f.timestamp_ms) now) in
      let (p, k') = start_message message (sequence_or_zero f.sequence_id) (some time) k in
      let p' = count_frame f time p in
      (some p', record k' { messages = put k'.messages message p' })
]

unfoldable pub mark_checkpoint_sent : ℕ → Text → Text → Option ℕ → PlaybackTracker → PlaybackTracker
mark_checkpoint_sent now message checkpoint timestamp k = elim (get k.messages message) [
  | none ↦ k
  | some p ↦ record k {
    messages = put k.messages message (record p {
      checkpoints_sent = p.checkpoints_sent ++ checkpoint ∷ [];
      checkpoint_sent_ms = put p.checkpoint_sent_ms checkpoint (or_ms timestamp now);
    });
    checkpoint_to_message_id = put k.checkpoint_to_message_id checkpoint message;
  }
]
