-- ===== src/Turn/State.antt =====
-- core/turn_detection/turn_manager.py: the state of the turn that is being gathered.
use voice_agent_v.Prelude.{
  ℕ, Bool, true, false, not, Option, none, List, [], ◌∷◌, is_nil, select, any, ◌==◌, nat_eq,
  list_eq, if◌then◌else◌,
}
use voice_agent_v.Text.{Text, Unicode, strip, join}
use voice_agent_v.Turn.Rules.{normalize_text}
use voice_agent_v.Turn.Merge.{merge_turn_text}

pub record TurnState : Type 0 where
  pub turn_id : ℕ
  pub is_user_speaking : Bool
  pub user_started_ms : Option ℕ
  pub last_speech_ms : Option ℕ
  pub last_transcript_ms : Option ℕ
  pub interim_text : Text
  pub final_fragments : List Text
  pub last_final_ms : Option ℕ
  pub stt_speech_final_seen : Bool
  pub vad_stop_seen : Bool
  pub smart_turn_complete : Bool
  pub smart_turn_confidence : ℕ
  pub smart_turn_ms : Option ℕ
  pub smart_turn_skipped : Bool
  pub language : Option Text
  pub confidence : ℕ
  pub emitted_turn : Bool

-- `TurnState(call_id=..., turn_id=...)`; the call's id stands in the manager.
unfoldable pub fresh : ℕ → TurnState
fresh n = record {
  turn_id = n;
  is_user_speaking = false;
  user_started_ms = none;
  last_speech_ms = none;
  last_transcript_ms = none;
  interim_text = [];
  final_fragments = [];
  last_final_ms = none;
  stt_speech_final_seen = false;
  vad_stop_seen = false;
  smart_turn_complete = false;
  smart_turn_confidence = 0;
  smart_turn_ms = none;
  smart_turn_skipped = false;
  language = none;
  confidence = 1000000;
  emitted_turn = false;
}

unfoldable pub final_text : TurnState → Text
final_text s = strip (join (32 ∷ []) (select (λ f. not (is_nil f)) s.final_fragments))

unfoldable pub has_final_text : TurnState → Bool
has_final_text s = any (λ f. not (is_nil (strip f))) s.final_fragments

module _ ⦃u : Unicode⦄ where
  unfoldable pub turn_text : TurnState → Text
  turn_text s = merge_turn_text (final_text s) s.interim_text

  unfoldable pub has_unfinalized_interim_tail : TurnState → Bool
  has_unfinalized_interim_tail s =
      if is_nil (strip s.interim_text)
      then false
      else if is_nil (final_text s)
      then true
      else not (normalize_text (turn_text s) == normalize_text (final_text s))
