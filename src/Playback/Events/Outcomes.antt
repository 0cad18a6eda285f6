-- ===== src/Playback/Events/Outcomes.antt =====
-- core/playback/playback_tracker.py: the indices of the tracker over its calls.
use voice_agent_v.Prelude.{
  ℕ, ℤ, ◌≡◌, refl, inl, inr, Option, none, some, List, [], ◌∷◌, arith, is_nil, ◌==◌, int_eq,
  list_eq, nat_eq, Bool-cases, Option-cases,
}
use voice_agent_v.Prelude.Dict.{Dict, get}
use voice_agent_v.Text.{Text}
use voice_agent_v.Contracts.{
  AudioFrame, PlaybackEvent, InterruptionStarted, checkpoint_played, cleared, PlaybackEventType,
}
use voice_agent_v.Playback.Message.{MessagePlayback}
use voice_agent_v.Playback.Tracker.{
  PlaybackTracker, new, start_message, append_generated_text, mark_text_sent_to_tts,
  mark_audio_sent, mark_checkpoint_sent,
}
use voice_agent_v.Playback.Tracker.Links.{
  Linked, new-Linked, put-Linked, start_message-Linked, update-Linked, mark_audio_sent-Linked,
  mark_checkpoint_sent-Linked,
}
use voice_agent_v.Playback.Events.{
  clear_message, clear_all, handle_playback_event, mark_interrupted, message_id_for_playback_event,
  mark_estimated_fully_played, on_checkpoint_played, dispatch, awaits_completion,
}

-- A clear reaches every message, and adds none.
pub get-clear_all :
    (ts : ℕ) (d : Dict Text MessagePlayback) (id : Text)
    → get (clear_all ts d).1 id
      ≡ elim (get d id) [ none ↦ none | some p ↦ some (clear_message ts p) ]
unfolding clear_all get
get-clear_all ts [] id = refl
get-clear_all ts ((j, p) ∷ d) id = elim (Bool-cases (j == id)) [
  | inl e ↦ rw e refl
  | inr e ↦ rw e (get-clear_all ts d id)
]

clear_all-Linked :
    (ts : ℕ) (k : PlaybackTracker)
    → Linked k
    → Linked (record k { messages = (clear_all ts k.messages).1 })
clear_all-Linked ts k h = record {
  sequences = λ s id e. ground (arith, h.sequences s id e, get-clear_all ts k.messages id);
  checkpoints = λ c id e. ground (arith, h.checkpoints c id e, get-clear_all ts k.messages id);
}

on_checkpoint_played-Linked :
    (e : PlaybackEvent) (k : PlaybackTracker) → Linked k → Linked (on_checkpoint_played e k).1
unfolding on_checkpoint_played
on_checkpoint_played-Linked e k h = elim (Option-cases (message_id_for_playback_event k e)) [
  | inl lost ↦ rw (lost, on_checkpoint_played) h
  | inr (id, found) ↦ elim (Option-cases (get k.messages id)) [
    | inl absent ↦ rw (found, on_checkpoint_played) (rw (absent, on_checkpoint_played) h)
    | inr (p, there) ↦
        rw (found, on_checkpoint_played) (rw (there, on_checkpoint_played) (put-Linked k id _ h))
  ]
]

dispatch-Linked :
    (t : PlaybackEventType) (e : PlaybackEvent) (k : PlaybackTracker)
    → Linked k
    → Linked (dispatch t e k).1
unfolding dispatch
dispatch-Linked checkpoint_played e k h = on_checkpoint_played-Linked e k h
dispatch-Linked cleared e k h = clear_all-Linked e.ts_ms k h
dispatch-Linked _ e k h = h

mark_estimated-Linked :
    (now : ℕ) (id : Text) (time : Option ℕ) (k : PlaybackTracker)
    → Linked k
    → Linked (mark_estimated_fully_played now id time k).1
unfolding mark_estimated_fully_played
mark_estimated-Linked now id time k h = elim (Option-cases (get k.messages id)) [
  | inl absent ↦ rw (absent, mark_estimated_fully_played) h
  | inr (p, there) ↦
      rw (there, mark_estimated_fully_played)
        (elim (Bool-cases (awaits_completion p)) [
          | inl e ↦ rw e (put-Linked k id _ h)
          | inr e ↦ rw e h
        ])
]

mark_interrupted-Linked :
    (e : InterruptionStarted) (k : PlaybackTracker) → Linked k → Linked (mark_interrupted e k).1
unfolding mark_interrupted
mark_interrupted-Linked e k h = elim (Option-cases (get k.sequence_to_message_id e.sequence_id)) [
  | inl unknown ↦ rw (unknown, mark_interrupted) h
  | inr (id, known) ↦ elim (Option-cases (get k.messages id)) [
    | inl absent ↦ rw (known, mark_interrupted) (rw (absent, mark_interrupted) h)
    | inr (p, there) ↦
        rw (known, mark_interrupted) (rw (there, mark_interrupted) (put-Linked k id _ h))
  ]
]

-- The tracker's methods, as calls.
pub data Call : Type 0 where
  starting : Text → ℤ → Option ℕ → Call
  generated spoken : Text → Text → Call
  sent : ℕ → AudioFrame → Option ℕ → Call
  checkpoint : ℕ → Text → Text → Option ℕ → Call
  happened : PlaybackEvent → Call
  interrupted : InterruptionStarted → Call
  estimated : ℕ → Text → Option ℕ → Call

unfoldable pub call : PlaybackTracker → Call → PlaybackTracker
call k (starting id s time) = (start_message id s time k).1
call k (generated id t) = append_generated_text id t k
call k (spoken id t) = mark_text_sent_to_tts id t k
call k (sent now f time) = (mark_audio_sent now f time k).1
call k (checkpoint now id c time) = mark_checkpoint_sent now id c time k
call k (happened e) = (handle_playback_event e k).1
call k (interrupted e) = (mark_interrupted e k).1
call k (estimated now id time) = (mark_estimated_fully_played now id time k).1

unfoldable pub run : PlaybackTracker → List Call → PlaybackTracker
unfolding call
run k [] = k
run k (x ∷ xs) = run (call k x) xs

call-Linked : (k : PlaybackTracker) (x : Call) → Linked k → Linked (call k x)
unfolding call append_generated_text mark_text_sent_to_tts handle_playback_event
call-Linked k (starting id s time) h = start_message-Linked id s time k h
call-Linked k (generated id t) h = elim (Bool-cases (is_nil t)) [
  | inl e ↦ rw e h
  | inr e ↦ rw e (update-Linked id _ k h)
]
call-Linked k (spoken id t) h = elim (Bool-cases (is_nil t)) [
  | inl e ↦ rw e h
  | inr e ↦ rw e (update-Linked id _ k h)
]
call-Linked k (sent now f time) h = mark_audio_sent-Linked now f time k h
call-Linked k (checkpoint now id c time) h = mark_checkpoint_sent-Linked now id c time k h
call-Linked k (happened e) h = dispatch-Linked e.event_type e k h
call-Linked k (interrupted e) h = mark_interrupted-Linked e k h
call-Linked k (estimated now id time) h = mark_estimated-Linked now id time k h

run_from-Linked : (k : PlaybackTracker) (xs : List Call) → Linked k → Linked (run k xs)
unfolding run
run_from-Linked k [] h = h
run_from-Linked k (x ∷ xs) h = run_from-Linked (call k x) xs (call-Linked k x h)

-- After any calls on a new tracker, the indices by sequence and by checkpoint name messages that the
-- tracker holds.
pub run-Linked : (call_id : Text) (xs : List Call) → Linked (run (new call_id) xs)
run-Linked call_id xs = run_from-Linked (new call_id) xs (new-Linked call_id)
