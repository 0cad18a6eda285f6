-- ===== src/Tests/PlaybackTests.antt =====
-- What was heard, at concrete data.
use voice_agent_v.Prelude.{
  ℕ, ◌-◌, min, take, length, ◌≡◌, refl, none, some, List, [], ◌∷◌, arith, pos, nat_eq, list_eq,
  int_eq,
}
use voice_agent_v.Prelude.Dict.{get}
use voice_agent_v.Text.{rstrip, text, strip}
use voice_agent_v.Text.Prefix.{IsPrefix}
use voice_agent_v.Contracts.{checkpoint_played}
use voice_agent_v.Playback.Message.{MessagePlayback, source_text}
use voice_agent_v.Playback.Heard.{estimate_heard_text}
use voice_agent_v.Playback.Heard.Prefix.{IsShare, estimate-IsShare, estimate_mono}
use voice_agent_v.Playback.Tracker.{new}
use voice_agent_v.Playback.Tracker.Links.{Linked}
use voice_agent_v.Playback.Events.{
  handle_playback_event, heard_text, message_id_for_playback_event, resolve,
}
use voice_agent_v.Playback.Events.Outcomes.{
  Call, starting, generated, sent, checkpoint, happened, run, run-Linked,
}
use voice_agent_v.Playback.Events.Completion.{checkpoint_heard_whole}
use voice_agent_v.Tests.Samples.{message, tracker, frame, reports}

-- 80 of 200 ms were played, which stands for 8 of 20 characters.
abbrev cut_off : MessagePlayback
cut_off = record message { interrupted_ms = some 1080 }

estimate-IsShare_example :
    (k : ℕ) × IsShare k (length (strip (source_text cut_off))) (min 200 (1080 - 1000)) 200
    × (estimate_heard_text cut_off ≡ rstrip (take k (strip (source_text cut_off))))
estimate-IsShare_example = estimate-IsShare cut_off 1000 1080 refl refl refl refl (omega arith)

estimate_mono_example :
    IsPrefix
      (estimate_heard_text (record message { interrupted_ms = some 1080 }))
      (estimate_heard_text (record message { interrupted_ms = some 1150 }))
estimate_mono_example = estimate_mono message 1000 1080 1150 refl refl refl (omega arith)

checkpoint_heard_whole_example :
    heard_text (text "m2") (handle_playback_event (reports checkpoint_played 1300) tracker).1
    ≡ strip (source_text message)
unfolding message_id_for_playback_event resolve get
checkpoint_heard_whole_example =
    checkpoint_heard_whole (reports checkpoint_played 1300) tracker (text "m2") message refl refl
      refl

abbrev story : List Call
story =
    starting (text "m2") (pos 2) (some 1000)
    ∷ generated (text "m2") (text "namaste")
    ∷ sent 1000 frame none
    ∷ checkpoint 1200 (text "m2") (text "m2") none
    ∷ happened (reports checkpoint_played 1300)
    ∷ []

run-Linked_example : Linked (run (new (text "call")) story)
run-Linked_example = run-Linked (text "call") story
