-- ===== src/Playback/Events/Completion.antt =====
-- What playback events say of what the caller has heard.
use voice_agent_v.Prelude.{
  ℕ, ◌≡◌, refl, sym, ap, ◌∙◌, true, Option, none, some, arith, int_eq, list_eq, nat_eq,
  list_beq_iff, if◌then◌else◌,
}
use voice_agent_v.Prelude.Dict.{get, get-put}
use voice_agent_v.Text.{Text, strip}
use voice_agent_v.Contracts.{PlaybackEvent, checkpoint_played, cleared}
use voice_agent_v.Playback.Message.{MessagePlayback, source_text}
use voice_agent_v.Playback.Heard.{estimate_heard_text}
use voice_agent_v.Playback.Heard.Prefix.{estimate_whole}
use voice_agent_v.Playback.Tracker.{PlaybackTracker}
use voice_agent_v.Playback.Events.{
  is_open, clear_message, handle_playback_event, on_checkpoint_played, checkpoint_of,
  message_id_for_playback_event, play_checkpoint, acknowledge, heard_text,
}
use voice_agent_v.Playback.Events.Outcomes.{get-clear_all}

acknowledge-texts :
    (ts : ℕ) (c : Option Text) (p : MessagePlayback)
    → source_text (acknowledge ts c p) ≡ source_text p
unfolding acknowledge source_text
acknowledge-texts ts none p = refl
acknowledge-texts ts (some c) p = refl

play_checkpoint_whole :
    (e : PlaybackEvent) (p : MessagePlayback)
    → estimate_heard_text (play_checkpoint e p) ≡ strip (source_text p)
unfolding play_checkpoint
play_checkpoint_whole e p =
    estimate_whole (play_checkpoint e p) refl ∙ ap strip (unfold source_text in acknowledged e p)
  where
    acknowledged :
        (e : PlaybackEvent) (p : MessagePlayback)
        → source_text (acknowledge e.ts_ms (checkpoint_of e) p) ≡ source_text p
    acknowledged e p = acknowledge-texts e.ts_ms (checkpoint_of e) p

after_checkpoint :
    (e : PlaybackEvent) (k : PlaybackTracker) (id : Text) (p : MessagePlayback)
    → e.event_type ≡ checkpoint_played
    → message_id_for_playback_event k e ≡ some id
    → get k.messages id ≡ some p
    → get (handle_playback_event e k).1.messages id ≡ some (play_checkpoint e p)
unfolding handle_playback_event on_checkpoint_played
after_checkpoint e k id p t found there =
    ground (arith, get-put k.messages id id (play_checkpoint e p), list_beq_iff id id)

-- When the far end reports that a checkpoint was played, and the event resolves to a message of the
-- tracker, the whole text of that message counts as heard.
pub checkpoint_heard_whole :
    (e : PlaybackEvent) (k : PlaybackTracker) (id : Text) (p : MessagePlayback)
    → e.event_type ≡ checkpoint_played
    → message_id_for_playback_event k e ≡ some id
    → get k.messages id ≡ some p
    → heard_text id (handle_playback_event e k).1 ≡ strip (source_text p)
unfolding heard_text
checkpoint_heard_whole e k id p t found there =
    rw (after_checkpoint e k id p t found there, heard_text) (play_checkpoint_whole e p)

clear_message_twice :
    (a b : ℕ) (p : MessagePlayback) → clear_message b (clear_message a p) ≡ clear_message a p
unfolding clear_message
clear_message_twice a b p = ground arith

-- What a clear at `ts` makes of an entry.
abbrev pub cleared_entry : ℕ → Option MessagePlayback → Option MessagePlayback
cleared_entry ts none = none
cleared_entry ts (some p) = some (
    if is_open p
    then record p { cleared = true; interrupted = true; interrupted_ms = some ts }
    else p)

cleared_entry_lem :
    (ts : ℕ) (o : Option MessagePlayback)
    → elim o [ none ↦ none | some p ↦ some (clear_message ts p) ] ≡ cleared_entry ts o
unfolding clear_message
cleared_entry_lem ts none = refl
cleared_entry_lem ts (some p) = refl

cleared_twice :
    (a b : ℕ) (o : Option MessagePlayback) → cleared_entry b (cleared_entry a o) ≡ cleared_entry a o
cleared_twice a b none = refl
cleared_twice a b (some p) = ground arith

after_clear :
    (e : PlaybackEvent) (k : PlaybackTracker) (id : Text)
    → e.event_type ≡ cleared
    → get (handle_playback_event e k).1.messages id ≡ cleared_entry e.ts_ms (get k.messages id)
after_clear e k id t =
    rw (← cleared_entry_lem)
      (unfold handle_playback_event in ground (arith, get-clear_all e.ts_ms k.messages id))

-- A clear marks each message that is neither played nor interrupted as interrupted at its time, and
-- leaves the others alone; a second clear, at any time, changes nothing.
pub cleared_exact :
    (e f : PlaybackEvent) (k : PlaybackTracker) (id : Text)
    → e.event_type ≡ cleared
    → f.event_type ≡ cleared
    → let k' = (handle_playback_event e k).1 in
      (get k'.messages id ≡ cleared_entry e.ts_ms (get k.messages id))
      × (get (handle_playback_event f k').1.messages id ≡ get k'.messages id)
cleared_exact e f k id t u =
    let once = after_clear e k id t in
    (
      once,
      after_clear f (handle_playback_event e k).1 id u
          ∙ (ap (cleared_entry f.ts_ms) once
              ∙ (cleared_twice e.ts_ms f.ts_ms (get k.messages id) ∙ sym once)),
    )
