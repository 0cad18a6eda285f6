-- ===== src/Turn/Evaluate/Sound.antt =====
-- When a turn ends, and when it must.
use voice_agent_v.Prelude.{
  ℕ, ◌≤◌, ◌≡◌, ◌⊎◌, inl, inr, true, false, not, ◌&&◌, Option, some, arith, is_nil, or_ms, nat_eq,
  Option-cases,
}
use voice_agent_v.Text.{Unicode}
use voice_agent_v.Turn.State.{turn_text}
use voice_agent_v.Turn.Manager.{TurnManager, uses_smart_turn}
use voice_agent_v.Turn.Evaluate.{
  inside_end_of_turn_grace, transcript_age_ms, speech_duration_ms, silence_ms, by_signals, by_words,
  unfinalized, evaluate_started, evaluate,
}

-- The conditions on a turn that is over at `ts`.
pub record IsOver ⦃u : Unicode⦄ (ts start : ℕ) (m : TurnManager) : Type 0 where
  pub has_text : is_nil (turn_text m.state) ≡ false
  pub spoke : m.settings.min_user_speech_ms ≤ speech_duration_ms ts start m.state
  pub silent : m.settings.min_silence_for_turn_end_ms ≤ silence_ms ts m.state
  pub finalized :
      (unfinalized m.state ≡ false)
      ⊎ (m.settings.max_silence_before_force_end_ms ≤ transcript_age_ms ts m.state)

module _ ⦃u : Unicode⦄ where
  evaluate_started-IsOver :
      (ts start : ℕ) (m : TurnManager)
      → (evaluate_started ts start m).should_emit ≡ true
      → IsOver ts start m
  unfolding evaluate_started
  evaluate_started-IsOver ts start m h = record {
    has_text = ground arith;
    spoke = ground arith;
    silent = ground arith;
    finalized = ground arith;
  }

  -- If an evaluation ends the turn, then one has begun and was not emitted, it has text, the
  -- caller spoke long enough and has been silent long enough, and its text is final or the last
  -- transcript is old enough.
  pub evaluate-IsOver :
      (now : ℕ) (timestamp : Option ℕ) (m : TurnManager)
      → (evaluate now timestamp m).should_emit ≡ true
      → (m.state.emitted_turn ≡ false)
        × (start : ℕ) × (m.state.user_started_ms ≡ some start)
        × IsOver (or_ms timestamp now) start m
  unfolding evaluate
  evaluate-IsOver now timestamp m h = elim (Option-cases m.state.user_started_ms) [
    | inl idle ↦ absurd (ground arith)
    | inr (start, begun) ↦ (
      ground arith,
      start,
      begun,
      evaluate_started-IsOver (or_ms timestamp now) start m (ground arith),
    )
  ]

  by_signals-forced :
      (ts : ℕ) (m : TurnManager)
      → (uses_smart_turn m && not m.state.smart_turn_skipped) ≡ true
      → m.settings.max_silence_before_force_end_ms ≤ silence_ms ts m.state
      → inside_end_of_turn_grace ts m ≡ false
      → (by_signals ts m).should_emit ≡ true
  unfolding by_signals
  by_signals-forced ts m uses long late = ground arith

  -- If a turn has begun and was not emitted, it has text and enough speech, the smart-turn model
  -- is in use and was not skipped, the silence and the age of the transcript reach the longest
  -- silence of the settings, which is no shorter than the least silence, and no grace period runs,
  -- then the turn ends, whatever its text and the model's result.
  pub evaluate_forced :
      (now : ℕ) (timestamp : Option ℕ) (m : TurnManager) (start : ℕ)
      → m.state.emitted_turn ≡ false
      → m.state.user_started_ms ≡ some start
      → is_nil (turn_text m.state) ≡ false
      → m.settings.min_user_speech_ms ≤ speech_duration_ms (or_ms timestamp now) start m.state
      → m.settings.min_silence_for_turn_end_ms ≤ m.settings.max_silence_before_force_end_ms
      → m.settings.max_silence_before_force_end_ms ≤ silence_ms (or_ms timestamp now) m.state
      → m.settings.max_silence_before_force_end_ms ≤ transcript_age_ms (or_ms timestamp now) m.state
      → (uses_smart_turn m && not m.state.smart_turn_skipped) ≡ true
      → inside_end_of_turn_grace (or_ms timestamp now) m ≡ false
      → (evaluate now timestamp m).should_emit ≡ true
  unfolding evaluate evaluate_started by_words
  evaluate_forced now timestamp m start fresh begun text spoke limits silent old uses late =
      ground (arith, by_signals-forced (or_ms timestamp now) m uses silent late)
