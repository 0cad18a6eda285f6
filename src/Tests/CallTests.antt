-- ===== src/Tests/CallTests.antt =====
-- The end of a call, the record of the conversation and the next look at a turn at concrete data.
use voice_agent_v.Prelude.{
  ℕ, ◌+◌, ◌≤◌, ◌≡◌, ◌≢◌, ◌⊎◌, inl, inr, refl, sym, ◌∙◌, ◌-◌, pos, true, false, none, some, List, [],
  ◌∷◌, arith, length, drop, max, is_nil, list_eq, nat_eq,
}
use voice_agent_v.Text.{Text, text, ascii, split, join, strip, casefold}
use voice_agent_v.Contracts.{UserTurnFinal}
use voice_agent_v.Listener.Payload.{Value}
use voice_agent_v.Listener.EndCall.{EndCallSettings, ListenerPort, answered, evaluate, end_phrases}
use voice_agent_v.Listener.EndCall.Intent.{Says, ends_call, evaluate-Says}
use voice_agent_v.Conversation.Summarizer.{trim_summary, splitlines}
use voice_agent_v.Conversation.Summarizer.Budget.{IsCut, trim_summary_drops}
use voice_agent_v.Conversation.Plain.{find_record}
use voice_agent_v.Conversation.Context.{
  ContextManager, Call, user_said, assistant_began, assistant_wrote, assistant_played, run,
}
use voice_agent_v.Conversation.Context.Refinement.{view, Agrees}
use voice_agent_v.Conversation.Context.Refinement.Calls.{specified_run, run-Refines}
use voice_agent_v.Conversation.Context.Bounds.{IsBounded, run-IsBounded}
use voice_agent_v.Turn.State.{turn_text}
use voice_agent_v.Turn.Manager.{TurnManager}
use voice_agent_v.Turn.Evaluate
use voice_agent_v.Turn.Evaluate.{TurnReason, evaluate_started, unfinalized}
use voice_agent_v.Session.Closing.{CallPorts, CallState, maybe_hangup_after_assistant_turn}
use voice_agent_v.Session.Closing
use voice_agent_v.Session.Closing.Once.{Marks, HungUp, CountsHangups, maybe_hangup-Says}
use voice_agent_v.Session.Release.{Line, release_agent_if_estimated_playback_complete}
use voice_agent_v.Session.Release.Estimate.{Outcome, release-Outcome}
use voice_agent_v.Session.EmitTurn.{Listening, Readings}
use voice_agent_v.Session.TurnCheck.{cleared_suppression, RetrySettings, next_turn_check_delay_ms}
use voice_agent_v.Session.TurnCheck.Progress.{
  Why, IsHeard, next_turn_check_progress, next_turn_check_stuck,
}
use voice_agent_v.Tests.Samples.{speaking, tracker, message, turn}

abbrev end_settings : EndCallSettings
end_settings = record {
  end_call_listener_enabled = true;
  end_call_listener_confidence_threshold = pos 750000;
  end_call_listener_timeout_ms = 1500;
  end_call_phrases = text "take care" ∷ text "hang up" ∷ [];
}

-- A model that always wants to end the call, and a world that counts its answers.
abbrev eager : ListenerPort ℕ
eager = record {
  classify = λ prompt timeout w. (
    answered (record {
      label = Value.str (text "goodbye") none;
      should_hangup = Value.bool true;
      hangup = Value.null;
      end_call = Value.null;
      confidence = Value.null;
      reason = Value.null;
    }),
    w,
  );
}

hang_up_ends :
    ends_call (evaluate ⦃u = ascii⦄ end_settings eager message (text " Please hang up! ") 0).0
    ≡ true
unfolding evaluate voice_agent_v.Playback.Heard.estimate_heard_text
    voice_agent_v.Playback.Message.source_text voice_agent_v.Text.is_space
    voice_agent_v.Playback.Heard.played_audio_ms
hang_up_ends = refl

evaluate-Says_example :
    (true ≡ true)
    × (Says ⦃u = ascii⦄ (text "take care" ∷ text "hang up" ∷ []) (strip (text " Please hang up! "))
        ⊎ Says ⦃u = ascii⦄ end_phrases (strip (text " Please hang up! ")))
evaluate-Says_example =
    evaluate-Says ⦃u = ascii⦄ end_settings eager message (text " Please hang up! ") 0 hang_up_ends

-- Thanks alone end nothing, though the model would.
thanks_go_on :
    ends_call (evaluate ⦃u = ascii⦄ end_settings eager message (text "ok thank you") 0).0 ≡ false
unfolding evaluate end_phrases voice_agent_v.Playback.Heard.estimate_heard_text
    voice_agent_v.Playback.Message.source_text voice_agent_v.Text.is_space
    voice_agent_v.Playback.Heard.played_audio_ms
thanks_go_on = refl

-- Six lines of one character, of which two and a half would fit.
abbrev six_lines : Text
six_lines = text "a\nb\nc\nd\ne\nf"

trim_summary_drops_example :
    (k : ℕ) × IsCut 4 k (splitlines six_lines)
    × (trim_summary six_lines 4 ≡ join (text "\n") (drop k (splitlines six_lines)))
trim_summary_drops_example = trim_summary_drops six_lines 4 (omega arith) (omega arith)

-- One line that is too long leaves nothing of the summary.
long_line_lost : trim_summary (text "User: ek lamba jawab") 10 ≡ []
unfolding trim_summary
long_line_lost = refl

-- One message of the assistant is known.
abbrev context : ContextManager
context = record {
  max_recent_turns = 2;
  summary_max_chars = 40;
  summary_text = [];
  user_turns = [];
  assistant_turns = 0 ∷ [];
  assistant_by_message_id = (text "m1", 0) ∷ [];
  heap = λ a. record {
    message_id = text "m1";
    sequence_id = pos 1;
    full_text = [];
    heard_text = text "namaste";
    interrupted = false;
    created_ms = 900;
    fully_played_ms = none;
  };
  next = 1;
}

abbrev said : ℕ → UserTurnFinal
said n = record {
  call_id = text "call";
  turn_id = n;
  content = text "haan";
  language = none;
  confidence = 900000;
  start_ms = none;
  end_ms = some (1000 + n);
}

-- Three user turns and two messages: the oldest turn of each goes into the summary.
abbrev talk : List Call
talk =
    user_said (said 1) 1000
    ∷ assistant_began (text "m2") (pos 2) 1100
    ∷ assistant_wrote (text "m2") (text "kaise hain")
    ∷ user_said (said 2) 1200
    ∷ user_said (said 3) 1300
    ∷ assistant_began (text "m3") (pos 3) 1400
    ∷ assistant_played message 1500
    ∷ []

context-Agrees : Agrees context
unfolding find_record
context-Agrees = record { indexed = refl; below = (omega arith, tt); distinct = (refl, tt) }

context-IsBounded : IsBounded (view context)
context-IsBounded = record {
  positive = omega arith;
  users = omega arith;
  assistants = omega arith;
  summary = omega arith;
}

run-Refines_example :
    Agrees (run talk context) × (view (run talk context) ≡ specified_run talk (view context))
run-Refines_example = run-Refines talk context context-Agrees

run-IsBounded_example : IsBounded (view (run talk context))
run-IsBounded_example = run-IsBounded talk context context-Agrees context-IsBounded

abbrev retry : RetrySettings
retry = record {
  empty_transcript_retry_enabled = true;
  empty_transcript_retry_delay_ms = 1200;
  empty_transcript_min_audio_ms = 700;
}

-- The caller has been silent for 300 ms, of the 450 that are asked for.
turn-IsHeard : IsHeard ⦃u = ascii⦄ 2000 turn.state
turn-IsHeard = record {
  speech = inr (1699, refl, omega arith);
  transcript = (1749, refl, omega arith);
  smart_turn = inl refl;
}

turn_has_text : is_nil (turn_text ⦃u = ascii⦄ turn.state) ≡ false
unfolding turn_text voice_agent_v.Turn.Merge.merge_turn_text strip
    voice_agent_v.Turn.State.final_text join voice_agent_v.Text.is_space
turn_has_text = refl

turn_again_in_150 : next_turn_check_delay_ms ⦃u = ascii⦄ 2000 retry false turn ≡ some 150
unfolding next_turn_check_delay_ms voice_agent_v.Turn.Merge.merge_turn_text strip
    voice_agent_v.Turn.State.final_text join voice_agent_v.Text.is_space evaluate_started
    unfinalized voice_agent_v.Turn.State.has_final_text
    voice_agent_v.Turn.State.has_unfinalized_interim_tail
turn_again_in_150 = refl

turn_waits : (Evaluate.evaluate ⦃u = ascii⦄ 2000 none turn).should_emit ≡ false
unfolding Evaluate.evaluate evaluate_started turn_text voice_agent_v.Turn.Merge.merge_turn_text
    strip voice_agent_v.Turn.State.final_text join voice_agent_v.Text.is_space unfinalized
    voice_agent_v.Turn.State.has_final_text voice_agent_v.Turn.State.has_unfinalized_interim_tail
    Evaluate.speech_duration_ms Evaluate.silence_ms
turn_waits = refl

turn_reason : (Evaluate.evaluate ⦃u = ascii⦄ 2000 none turn).reason ≡ TurnReason.not_enough_silence
unfolding Evaluate.evaluate evaluate_started turn_text voice_agent_v.Turn.Merge.merge_turn_text
    strip voice_agent_v.Turn.State.final_text join voice_agent_v.Text.is_space unfinalized
    voice_agent_v.Turn.State.has_final_text voice_agent_v.Turn.State.has_unfinalized_interim_tail
    Evaluate.speech_duration_ms Evaluate.silence_ms
turn_reason = refl

silence-ne-short : TurnReason.not_enough_silence ≢ TurnReason.speech_too_short
silence-ne-short h = ground arith

turn_not_too_short :
    (Evaluate.evaluate ⦃u = ascii⦄ 2000 none turn).reason ≢ TurnReason.speech_too_short
turn_not_too_short e = silence-ne-short (sym turn_reason ∙ e)

next_turn_check_progress_example :
    Why ⦃u = ascii⦄ (2000 + 149) 1000 turn (Evaluate.evaluate ⦃u = ascii⦄ 2000 none turn).reason
    × ((Evaluate.evaluate ⦃u = ascii⦄ (2000 + 150) none turn).reason
        ≢ (Evaluate.evaluate ⦃u = ascii⦄ 2000 none turn).reason)
next_turn_check_progress_example =
    next_turn_check_progress ⦃u = ascii⦄ 2000 retry false turn 150 149 1000 turn-IsHeard refl refl
      turn_has_text turn_again_in_150 turn_waits turn_not_too_short (omega arith)

-- The speech that was measured lasted 100 ms; its final text is there.
abbrev short_turn : TurnManager
short_turn = record turn { state = record turn.state { last_speech_ms = some 1100 } }

short_turn_has_text : is_nil (turn_text ⦃u = ascii⦄ short_turn.state) ≡ false
unfolding turn_text voice_agent_v.Turn.Merge.merge_turn_text strip
    voice_agent_v.Turn.State.final_text join voice_agent_v.Text.is_space
short_turn_has_text = refl

short_turn_is_final : unfinalized ⦃u = ascii⦄ short_turn.state ≡ false
unfolding unfinalized voice_agent_v.Turn.State.has_final_text strip voice_agent_v.Text.is_space
    voice_agent_v.Turn.State.has_unfinalized_interim_tail
short_turn_is_final = refl

next_turn_check_stuck_example :
    (Evaluate.evaluate ⦃u = ascii⦄ 60000 none short_turn
      ≡ record { should_emit = false; reason = TurnReason.speech_too_short })
    × (next_turn_check_delay_ms ⦃u = ascii⦄ 60000 retry false short_turn
        ≡ some (max 1 (250 - (1100 - 1000))))
next_turn_check_stuck_example =
    next_turn_check_stuck ⦃u = ascii⦄ 60000 retry false short_turn 1000 1099 refl refl refl refl
      short_turn_has_text short_turn_is_final (omega arith)

-- The telephone line raises when it is told to hang up; the world is the number of times it was told.
abbrev call_ports : CallPorts ℕ
call_ports = record {
  silence = λ w. (none, w);
  llm_cancel = λ response w. (none, w);
  telephony_hangup = λ reason w. (some (text "CallEndedError: gone"), w + 1);
  save_live_state = λ w. (none, w);
  send_eos_to_all_queues = λ w. (none, w);
  stop_providers = λ reason w. (none, w);
  await_tasks = λ w. w;
  save_call = λ w. (none, w);
  delete_call_state = λ w. (none, w);
  stop_logger = λ w. (none, w);
}

abbrev open_call : Closing.Call ℕ
open_call = record {
  state = CallState.speaking;
  shutdown_started = false;
  hangup_started = false;
  end_call_listener_checks = 2;
  end_call_listener_hangups = 0;
  session_ended_ms = none;
  llm = record { is_running = true; response_id = some (text "r2"); sequence_id = some (pos 2) };
  world = 0;
}

call_ports-CountsHangups : CountsHangups eager call_ports (λ w. w)
call_ports-CountsHangups = record {
  hangs_up = λ reason w. omega arith;
  classifies = λ prompt timeout w. refl;
  silences = λ w. refl;
  cancels = λ id w. refl;
  saves_state = λ w. refl;
  sends_eos = λ w. refl;
  stops = λ reason w. refl;
  awaits = λ w. refl;
  saves_call = λ w. refl;
  deletes = λ w. refl;
  logs = λ w. refl;
}

maybe_hangup-Says_example :
    let o =
      maybe_hangup_after_assistant_turn ⦃u = ascii⦄ end_settings eager call_ports 5000 message
        (text "please hang up")
        open_call in
    (Marks o.1 false 0 × (o.1.world ≡ 0))
    ⊎ (Marks o.1 true 1
        × HungUp (λ w. w) 0 o.0 o.1.world
        × (true ≡ true)
        × (Says ⦃u = ascii⦄ (text "take care" ∷ text "hang up" ∷ []) (strip (text "please hang up"))
            ⊎ Says ⦃u = ascii⦄ end_phrases (strip (text "please hang up"))))
maybe_hangup-Says_example =
    maybe_hangup-Says call_ports ⦃u = ascii⦄ end_settings eager (λ w. w) call_ports-CountsHangups
      5000 message (text "please hang up") open_call (refl, refl)

-- The second response has begun at 1000, and 200 ms of it were sent.
abbrev line : Line ℕ
line = record { manager = speaking; playback = tracker; context = context }

too_early : (release_agent_if_estimated_playback_complete 1299 100 line).0 ≡ none
unfolding release_agent_if_estimated_playback_complete voice_agent_v.Prelude.Dict.get
too_early = refl

in_time :
    (release_agent_if_estimated_playback_complete 1300 100 line).1.manager.state.agent_is_speaking
    ≡ false
unfolding release_agent_if_estimated_playback_complete voice_agent_v.Prelude.Dict.get
in_time = refl

release-Outcome_example :
    Outcome 1300 100 line (release_agent_if_estimated_playback_complete 1300 100 line)
release-Outcome_example = release-Outcome 1300 100 line

abbrev listening : Listening ℕ
listening = record { line = line; turns = turn; suppression = cleared_suppression }

abbrev readings : Readings
readings = record { release_ms = 2999; emit_ms = 3000; retry_ms = 3000; check_ms = 3001 }
