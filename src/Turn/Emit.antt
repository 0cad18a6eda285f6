-- ===== src/Turn/Emit.antt =====
-- core/turn_detection/turn_manager.py: transcripts, emitted turns, and late transcripts that amend them.
pub mod Ids
pub mod Late
use voice_agent_v.Prelude.{
  ℕ, ◌+◌, ◌-◌, Bool, true, false, not, ◌&&◌, ◌||◌, Option, none, some, List, [], ◌∷◌, ◌++◌,
  get_last?, is_nil, is_some, ltb, leb, or_ms, or_ms?, ◌==◌, nat_eq, list_eq, if◌then◌else◌,
}
use voice_agent_v.Text.{Text, Unicode, strip}
use voice_agent_v.Contracts.{
  SpeechStart, SpeechStop, SpeechSource, vad, stt, telephony, TranscriptEvent, SmartTurnResult,
  UserTurnFinal, Settings,
}
use voice_agent_v.Interruption.Phrases.{or_text}
use voice_agent_v.Turn.Rules.{
  normalize_text, word_count, is_complete_short_answer, ends_with_incomplete_connector,
}
use voice_agent_v.Turn.SmartTurn.{SmartTurnDecision, ExpectedAnswer, accepts_short_answer}
use voice_agent_v.Turn.Merge.{merge_turn_text, dedupe_text}
use voice_agent_v.Turn.State.{
  TurnState, fresh, turn_text, has_final_text, has_unfinalized_interim_tail,
}
use voice_agent_v.Turn.Manager.{
  TurnManager, uses_smart_turn, reset_for_next_turn, apply_smart_turn, event_time,
}
use voice_agent_v.Turn.Evaluate.{evaluate}

module _ ⦃u : Unicode⦄ where
  unfoldable pub is_late_duplicate : Text → ℕ → TurnManager → Bool
  is_late_duplicate t time m = elim m.last_emitted_ms [
    | none ↦ false
    | some last ↦
        if is_nil m.last_emitted_text
        then false
        else if ltb m.settings.max_silence_before_force_end_ms (time - last)
        then false
        else dedupe_text t == m.last_emitted_text
  ]

  abbrev pub run_runner : ℕ → Option (Text → SmartTurnDecision) → TurnState → TurnState
  run_runner now none s = s
  run_runner now (some classify) s = apply_smart_turn now (classify (turn_text s)) s

  -- A final transcript with text: a new fragment, unless it repeats the last one.
  unfoldable pub add_final : ℕ → ℕ → TranscriptEvent → TurnManager → TurnState → TurnState
  add_final now time e m s =
      let t = strip e.content in
      let repeats : Bool = elim (get_last? s.final_fragments) [
        | none ↦ false
        | some f ↦ normalize_text f == normalize_text t
      ] in
      run_runner now m.smart_turn_runner (record s {
        final_fragments = if repeats then s.final_fragments else s.final_fragments ++ t ∷ [];
        last_final_ms = some time;
        interim_text = [];
        stt_speech_final_seen = true;
        language = e.language;
        confidence = e.confidence;
      })

  unfoldable pub add_transcript : ℕ → ℕ → TranscriptEvent → TurnManager → TurnState → TurnState
  add_transcript now time e m s =
      let t = strip e.content in
      if not e.is_final
      then record s { interim_text = t }
      else if is_nil t
      then record s {
        stt_speech_final_seen = true;
        language = or_text e.language s.language;
        confidence = e.confidence;
      }
      else add_final now time e m s

  unfoldable pub handle_transcript : ℕ → TranscriptEvent → Option ℕ → TurnManager → TurnManager
  handle_transcript now e received m =
      let time = event_time now received e in
      let begun = is_some m.state.user_started_ms in
      let s = record m.state {
        user_started_ms =
            if begun
            then m.state.user_started_ms
            else some (or_ms (or_ms? received e.start_ms) time);
        last_transcript_ms = some time;
      } in
      if not begun && is_late_duplicate e.content time m
      then m
      else record m { state = add_transcript now time e m s }

  unfoldable pub build_turn : ℕ → Option ℕ → TurnManager → UserTurnFinal × TurnManager
  build_turn now timestamp m =
      let turn : UserTurnFinal = record {
        call_id = m.call_id;
        turn_id = m.state.turn_id + 1;
        content = turn_text m.state;
        language = m.state.language;
        confidence = m.state.confidence;
        start_ms = m.state.user_started_ms;
        end_ms = some (or_ms timestamp now);
      } in
      let m' = record m {
        state = record m.state { turn_id = m.state.turn_id + 1; emitted_turn = true };
        last_emitted_text = dedupe_text turn.content;
        last_emitted_ms = turn.end_ms;
        last_emitted_turn = some turn;
      } in
      (turn, reset_for_next_turn true m')

  abbrev pub made : UserTurnFinal × TurnManager → Option UserTurnFinal × TurnManager
  made (t, m) = (some t, m)

  unfoldable pub emit_turn : ℕ → Option ℕ → TurnManager → Option UserTurnFinal × TurnManager
  emit_turn now timestamp m =
      if (evaluate now timestamp m).should_emit
      then made (build_turn now timestamp m)
      else (none, m)

  unfoldable pub force_emit : ℕ → Option ℕ → TurnManager → Option UserTurnFinal × TurnManager
  force_emit now timestamp m =
      if is_nil (turn_text m.state) then (none, m) else made (build_turn now timestamp m)

  -- The turn with the late text merged into it.
  abbrev pub amended : ℕ → TranscriptEvent → UserTurnFinal → Text → TurnManager → UserTurnFinal
  amended time e last t m = record {
    call_id = m.call_id;
    turn_id = last.turn_id;
    content = t;
    language = or_text e.language last.language;
    confidence = e.confidence;
    start_ms = last.start_ms;
    end_ms = some time;
  }

  unfoldable pub amend_with :
      ℕ → ℕ → TranscriptEvent → UserTurnFinal → TurnManager → Option UserTurnFinal × TurnManager
  amend_with time last_ms e last m =
      let t = merge_turn_text last.content (strip e.content) in
      let turn = amended time e last t m in
      if ltb m.settings.max_silence_before_force_end_ms (time - last_ms)
      then (none, m)
      else if is_late_duplicate e.content time m
      then (none, m)
      else if is_nil (strip e.content)
      then (none, m)
      else if dedupe_text t == m.last_emitted_text
      then (none, m)
      else (
        some turn,
        record m {
          last_emitted_turn = some turn;
          last_emitted_text = dedupe_text t;
          last_emitted_ms = some time;
        },
      )

  -- The turn and its end, if a turn was emitted.
  abbrev pub amend_last :
      Option UserTurnFinal
      → Option ℕ
      → ℕ
      → TranscriptEvent
      → TurnManager
      → Option UserTurnFinal × TurnManager
  amend_last (some last) (some last_ms) time e m = amend_with time last_ms e last m
  amend_last _ _ time e m = (none, m)

  unfoldable pub amend_last_emitted_turn :
      ℕ → TranscriptEvent → Option ℕ → TurnManager → Option UserTurnFinal × TurnManager
  amend_last_emitted_turn now e received m =
      amend_last m.last_emitted_turn m.last_emitted_ms (event_time now received e) e m
