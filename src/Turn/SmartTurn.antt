-- ===== src/Turn/SmartTurn.antt =====
-- core/turn_detection/smart_turn_runner.py and expected_answer.py. Confidences are in millionths.
use voice_agent_v.Prelude.{ℕ, Bool, true, false, not, is_nil, leb, if◌then◌else◌}
use voice_agent_v.Text.{Text, Unicode, strip}
use voice_agent_v.Turn.Rules.{
  ends_with_incomplete_connector, is_complete_short_answer, has_terminal_punctuation, word_count,
}

pub data SmartTurnReason : Type 0 where
  empty_text incomplete_connector short_answer_requires_expected_context terminal_punctuation
        word_count_heuristic low_confidence_fragment :
      SmartTurnReason

pub record SmartTurnDecision : Type 0 where
  pub is_complete : Bool
  pub confidence : ℕ
  pub reason : SmartTurnReason

abbrev pub decision : Bool → ℕ → SmartTurnReason → SmartTurnDecision
decision complete confidence reason = record {
  is_complete = complete;
  confidence = confidence;
  reason = reason;
}

unfoldable pub classify : ⦃u : Unicode⦄ → Text → SmartTurnDecision
classify t =
    if is_nil (strip t)
    then decision false 0 empty_text
    else if ends_with_incomplete_connector t
    then decision false 850000 incomplete_connector
    else if is_complete_short_answer t
    then decision false 600000 short_answer_requires_expected_context
    else if has_terminal_punctuation t
    then decision true 750000 terminal_punctuation
    else if leb 5 (word_count t)
    then decision true 650000 word_count_heuristic
    else decision false 550000 low_confidence_fragment

pub data AnswerType : Type 0 where
  yes_no name number date confirmation free_text : AnswerType

pub record ExpectedAnswer : Type 0 where
  pub answer_type : AnswerType
  pub short_answer_allowed : Bool
  pub min_words : ℕ

abbrev pub free_text_expected : ExpectedAnswer
free_text_expected = record { answer_type = free_text; short_answer_allowed = false; min_words = 1 }

unfoldable pub accepts_short_answer : ExpectedAnswer → ℕ → Bool
accepts_short_answer a n = if not a.short_answer_allowed then false else leb a.min_words n
