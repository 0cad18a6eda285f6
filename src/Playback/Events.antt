-- ===== src/Playback/Events.antt =====
-- core/playback/playback_tracker.py: what the tracker does on playback events, on an interruption, and
-- when it estimates that a message has been played.
pub mod Outcomes
pub mod Completion
use voice_agent_v.Prelude.{
  ℕ, ℤ, pos, ◌+◌, ◌-◌, Bool, true, false, not, ◌&&◌, ◌||◌, Option, none, some, List, [], ◌∷◌, ◌++◌,
  map, is_nil, is_some, or_ms, or_ms?, ◌==◌, nat_eq, int_eq, list_eq, if◌then◌else◌,
}
use voice_agent_v.Prelude.Dict.{Dict, get, put}
use voice_agent_v.Text.{Text}
use voice_agent_v.Contracts.{
  AudioFrame, PlaybackEvent, PlaybackEventType, started, checkpoint_played, fully_played, cleared,
  InterruptionStarted,
}
use voice_agent_v.Playback.Message.{MessagePlayback, new_message, append_text, optional_text}
use voice_agent_v.Playback.Heard.{estimate_heard_text}
use voice_agent_v.Playback.Tracker.{PlaybackTracker}

-- One candidate of `_message_id_for_playback_event`: a checkpoint, or a message.
unfoldable pub resolve : PlaybackTracker → Option Text → Option Text
resolve k none = none
resolve k (some id) = elim (get k.checkpoint_to_message_id id) [
  | some message ↦ some message
  | none ↦ if is_some (get k.messages id) then some id else none
]

unfoldable pub message_id_for_playback_event : PlaybackTracker → PlaybackEvent → Option Text
unfolding resolve
message_id_for_playback_event k e = elim (resolve k (optional_text e.checkpoint_id)) [
  | some message ↦ some message
  | none ↦ elim (resolve k (optional_text (some e.message_id))) [
    | some message ↦ some message
    | none ↦ get k.sequence_to_message_id e.sequence_id
  ]
]

abbrev pub checkpoint_of : PlaybackEvent → Option Text
checkpoint_of e = elim (optional_text e.checkpoint_id) [
  | some c ↦ some c
  | none ↦ optional_text (some e.message_id)
]

unfoldable pub acknowledge : ℕ → Option Text → MessagePlayback → MessagePlayback
acknowledge ts none p = p
acknowledge ts (some c) p = record p {
  checkpoints_played = p.checkpoints_played ++ c ∷ [];
  checkpoint_ack_latency_ms = elim (get p.checkpoint_sent_ms c) [
    | none ↦ p.checkpoint_ack_latency_ms
    | some sent ↦ p.checkpoint_ack_latency_ms ++ (ts - sent) ∷ []
  ];
}

unfoldable pub play_checkpoint : PlaybackEvent → MessagePlayback → MessagePlayback
unfolding acknowledge
play_checkpoint e p =
    let p' = acknowledge e.ts_ms (checkpoint_of e) p in
    record p' { fully_played_ms = some e.ts_ms; interrupted = false }

abbrev pub is_open : MessagePlayback → Bool
is_open p = not (is_some p.fully_played_ms) && not p.interrupted

unfoldable pub clear_message : ℕ → MessagePlayback → MessagePlayback
clear_message ts p =
    if is_open p
    then record p { cleared = true; interrupted = true; interrupted_ms = some ts }
    else p

-- The loop over all messages: the dictionary, and the last message that was marked.
unfoldable pub clear_all :
    ℕ → Dict Text MessagePlayback → Option MessagePlayback × Dict Text MessagePlayback
unfolding clear_message
clear_all ts [] = (none, [])
clear_all ts ((id, p) ∷ ps) =
    let (last, rest) = clear_all ts ps in
    let p' = clear_message ts p in
    (if is_some last then last else (if is_open p then some p' else none), (id, p') ∷ rest)

unfoldable pub on_checkpoint_played :
    PlaybackEvent → PlaybackTracker → Option MessagePlayback × PlaybackTracker
unfolding play_checkpoint
on_checkpoint_played e k = elim (message_id_for_playback_event k e) [
  | none ↦ (none, k)
  | some message ↦ elim (get k.messages message) [
    | none ↦ (none, k)
    | some p ↦
        let p' = play_checkpoint e p in (some p', record k { messages = put k.messages message p' })
  ]
]

dispatch :
    PlaybackEventType → PlaybackEvent → PlaybackTracker → Option MessagePlayback × PlaybackTracker
dispatch checkpoint_played e k = on_checkpoint_played e k
dispatch cleared e k =
    let (last, messages) = clear_all e.ts_ms k.messages in (last, record k { messages = messages })
dispatch _ e k = (none, k)

unfoldable pub handle_playback_event :
    PlaybackEvent → PlaybackTracker → Option MessagePlayback × PlaybackTracker
unfolding dispatch
handle_playback_event e k = dispatch e.event_type e k

unfoldable pub mark_interrupted :
    InterruptionStarted → PlaybackTracker → Option MessagePlayback × PlaybackTracker
mark_interrupted e k = elim (get k.sequence_to_message_id e.sequence_id) [
  | none ↦ (none, k)
  | some message ↦ elim (get k.messages message) [
    | none ↦ (none, k)
    | some p ↦
        let p' = record p { interrupted = true; cleared = true; interrupted_ms = some e.ts_ms } in
        (some p', record k { messages = put k.messages message p' })
  ]
]

-- The audio of the message has been sent, with its checkpoint, and nothing has ended it.
abbrev pub awaits_completion : MessagePlayback → Bool
awaits_completion p =
    not p.interrupted
    && (not (is_some p.fully_played_ms)
        && (not (is_nil p.checkpoints_sent)
            && (is_some p.started_ms && not (p.audio_ms_sent == 0))))

unfoldable pub mark_estimated_fully_played :
    ℕ → Text → Option ℕ → PlaybackTracker → Option MessagePlayback × PlaybackTracker
mark_estimated_fully_played now message timestamp k = elim (get k.messages message) [
  | none ↦ (none, k)
  | some p ↦
      let p' = record p { fully_played_ms = some (or_ms timestamp now) } in
      if awaits_completion p
      then (some p', record k { messages = put k.messages message p' })
      else (none, k)
]

unfoldable pub heard_text : Text → PlaybackTracker → Text
unfolding estimate_heard_text
heard_text message k = elim (get k.messages message) [ none ↦ [] | some p ↦ estimate_heard_text p ]
