-- ===== src/Turn/Manager.antt =====
-- core/turn_detection/turn_manager.py: the turn manager. Times that the caller leaves out are read
-- from the clock, `now`.
use voice_agent_v.Prelude.{
  ℕ, Bool, true, false, ◌&&◌, ◌||◌, Option, none, some, [], is_some, or_ms, or_ms?, nat_eq, list_eq,
  if◌then◌else◌,
}
use voice_agent_v.Text.{Text}
use voice_agent_v.Contracts.{
  SpeechStart, SpeechStop, SpeechSource, vad, stt, TranscriptEvent, SmartTurnResult, UserTurnFinal,
  Settings,
}
use voice_agent_v.Turn.SmartTurn.{SmartTurnDecision, ExpectedAnswer}
use voice_agent_v.Turn.State.{TurnState, fresh}

pub record TurnManager : Type 0 where
  pub call_id : Text
  pub settings : Settings
  pub expected_answer : ExpectedAnswer
  pub smart_turn_runner : Option (Text → SmartTurnDecision)
  pub smart_turn_available : Bool
  pub state : TurnState
  pub last_emitted_text : Text
  pub last_emitted_ms : Option ℕ
  pub last_emitted_turn : Option UserTurnFinal

unfoldable pub new :
    Text → Settings → ExpectedAnswer → Option (Text → SmartTurnDecision) → Option Bool → TurnManager
new call settings expected runner available = record {
  call_id = call;
  settings = settings;
  expected_answer = expected;
  smart_turn_runner = runner;
  smart_turn_available = elim available [ none ↦ settings.smart_turn_enabled | some b ↦ b ];
  state = fresh 0;
  last_emitted_text = [];
  last_emitted_ms = none;
  last_emitted_turn = none;
}

unfoldable pub uses_smart_turn : TurnManager → Bool
uses_smart_turn m = m.settings.smart_turn_enabled && m.smart_turn_available

unfoldable pub set_expected_answer : ExpectedAnswer → TurnManager → TurnManager
set_expected_answer a m = record m { expected_answer = a }

unfoldable pub reset_for_next_turn : Bool → TurnManager → TurnManager
reset_for_next_turn keep m = record m { state = fresh (if keep then m.state.turn_id else 0) }

unfoldable pub discard_current_turn : TurnManager → TurnManager
discard_current_turn = reset_for_next_turn true

unfoldable pub skip_smart_turn_for_current_turn : TurnManager → TurnManager
skip_smart_turn_for_current_turn m = record m {
  state = record m.state {
    smart_turn_skipped = true;
    smart_turn_complete = false;
    smart_turn_confidence = 0;
    smart_turn_ms = none;
  };
}

unfoldable pub handle_speech_start : SpeechStart → TurnManager → TurnManager
handle_speech_start e m = record m {
  state = record m.state {
    is_user_speaking = true;
    user_started_ms =
        if is_some m.state.user_started_ms then m.state.user_started_ms else some e.ts_ms;
    last_speech_ms = some e.ts_ms;
    vad_stop_seen = false;
    smart_turn_skipped = false;
    smart_turn_complete = false;
    smart_turn_confidence = 0;
    smart_turn_ms = none;
    emitted_turn = false;
  };
}

abbrev pub is_vad : SpeechSource → Bool
is_vad vad = true
is_vad _ = false

abbrev pub is_stt : SpeechSource → Bool
is_stt stt = true
is_stt _ = false

unfoldable pub handle_speech_stop : SpeechStop → TurnManager → TurnManager
handle_speech_stop e m = record m {
  state = record m.state {
    is_user_speaking = false;
    last_speech_ms = some e.ts_ms;
    vad_stop_seen = is_vad e.source;
    stt_speech_final_seen = is_stt e.source || m.state.stt_speech_final_seen;
  };
}

unfoldable pub handle_smart_turn : ℕ → SmartTurnResult → TurnManager → TurnManager
handle_smart_turn now r m = record m {
  state = record m.state {
    smart_turn_complete = r.is_complete;
    smart_turn_confidence = r.confidence;
    smart_turn_ms = some now;
  };
}

unfoldable pub apply_smart_turn : ℕ → SmartTurnDecision → TurnState → TurnState
apply_smart_turn now d s = record s {
  smart_turn_complete = d.is_complete;
  smart_turn_confidence = d.confidence;
  smart_turn_ms = some now;
}

unfoldable pub event_time : ℕ → Option ℕ → TranscriptEvent → ℕ
event_time now received e = or_ms (or_ms? received (or_ms? e.end_ms e.start_ms)) now
