-- ===== src/Turn/Evaluate.antt =====
-- core/turn_detection/turn_manager.py: `evaluate`, whether the caller's turn is over at a time.
pub mod Sound
use voice_agent_v.Prelude.{
  ℕ, ◌+◌, ◌-◌, Bool, true, false, not, ◌&&◌, ◌||◌, Option, none, some, List, [], ◌∷◌, ◌++◌,
  get_last?, is_nil, is_some, ltb, leb, or_ms, or_ms?, ◌==◌, nat_eq, list_eq, if◌then◌else◌,
}
use voice_agent_v.Text.{Text, Unicode, strip}
use voice_agent_v.Contracts.{
  SpeechStart, SpeechStop, SpeechSource, vad, stt, telephony, TranscriptEvent, SmartTurnResult,
  UserTurnFinal, Settings,
}
use voice_agent_v.Interruption.Phrases.{or_text}
use voice_agent_v.Turn.Rules.{
  normalize_text, word_count, is_complete_short_answer, ends_with_incomplete_connector,
}
use voice_agent_v.Turn.SmartTurn.{SmartTurnDecision, ExpectedAnswer, accepts_short_answer}
use voice_agent_v.Turn.Merge.{merge_turn_text, dedupe_text}
use voice_agent_v.Turn.State.{
  TurnState, fresh, turn_text, has_final_text, has_unfinalized_interim_tail,
}
use voice_agent_v.Turn.Manager.{
  TurnManager, uses_smart_turn, reset_for_next_turn, apply_smart_turn, event_time,
}

pub data TurnReason : Type 0 where
  already_emitted no_speech_start no_text waiting_for_final_transcript speech_too_short
        not_enough_silence expected_short_answer incomplete_connector end_of_turn_grace
        smart_turn_complete max_silence_force_end smart_turn_incomplete speech_final_seen
        no_end_signal :
      TurnReason

pub record TurnDecision : Type 0 where
  pub should_emit : Bool
  pub reason : TurnReason

abbrev pub deny : TurnReason → TurnDecision
deny r = record { should_emit = false; reason = r }

abbrev pub allow : TurnReason → TurnDecision
allow r = record { should_emit = true; reason = r }

unfoldable pub inside_end_of_turn_grace : ℕ → TurnManager → Bool
inside_end_of_turn_grace ts m = elim m.state.smart_turn_ms [
  | none ↦ false
  | some at ↦
      if m.settings.end_of_turn_grace_ms == 0
      then false
      else ltb (ts - at) m.settings.end_of_turn_grace_ms
]

-- `max(0, ...)` of differences of times.
unfoldable pub transcript_age_ms : ℕ → TurnState → ℕ
transcript_age_ms ts s = ts - or_ms s.last_transcript_ms ts

unfoldable pub speech_duration_ms : ℕ → ℕ → TurnState → ℕ
speech_duration_ms ts start s = or_ms s.last_speech_ms ts - start

unfoldable pub silence_ms : ℕ → TurnState → ℕ
silence_ms ts s = ts - or_ms (or_ms? s.last_speech_ms s.last_transcript_ms) ts

-- The end of `evaluate`: what the models and the end signals say.
unfoldable pub by_signals : ℕ → TurnManager → TurnDecision
by_signals ts m =
    let sure =
      m.state.smart_turn_complete
      && leb m.settings.smart_turn_threshold m.state.smart_turn_confidence in
    let over = leb m.settings.max_silence_before_force_end_ms (silence_ms ts m.state) in
    if uses_smart_turn m && not m.state.smart_turn_skipped
    then if sure
      then if inside_end_of_turn_grace ts m
        then deny end_of_turn_grace
        else allow smart_turn_complete
      else if over
      then allow max_silence_force_end
      else deny smart_turn_incomplete
    else if m.state.vad_stop_seen || m.state.stt_speech_final_seen
    then allow speech_final_seen
    else deny no_end_signal

module _ ⦃u : Unicode⦄ where
  -- The part of `evaluate` behind the tests of time: what the words say, then the signals.
  unfoldable pub by_words : ℕ → TurnManager → TurnDecision
  by_words ts m =
      let t = turn_text m.state in
      if is_complete_short_answer t && accepts_short_answer m.expected_answer (word_count t)
      then allow expected_short_answer
      else if ends_with_incomplete_connector t
          && ltb (silence_ms ts m.state) m.settings.max_silence_before_force_end_ms
      then deny incomplete_connector
      else by_signals ts m

  -- Some of the text has not been finalized.
  unfoldable pub unfinalized : TurnState → Bool
  unfinalized s = not (has_final_text s) || has_unfinalized_interim_tail s

  unfoldable pub evaluate_started : ℕ → ℕ → TurnManager → TurnDecision
  evaluate_started ts start m =
      if is_nil (turn_text m.state)
      then deny no_text
      else if unfinalized m.state
          && ltb (transcript_age_ms ts m.state) m.settings.max_silence_before_force_end_ms
      then deny waiting_for_final_transcript
      else if ltb (speech_duration_ms ts start m.state) m.settings.min_user_speech_ms
      then deny speech_too_short
      else if ltb (silence_ms ts m.state) m.settings.min_silence_for_turn_end_ms
      then deny not_enough_silence
      else by_words ts m

  unfoldable pub evaluate : ℕ → Option ℕ → TurnManager → TurnDecision
  evaluate now timestamp m =
      let ts = or_ms timestamp now in
      if m.state.emitted_turn then deny already_emitted else elim m.state.user_started_ms [
        | none ↦ deny no_speech_start
        | some start ↦ evaluate_started ts start m
      ]
