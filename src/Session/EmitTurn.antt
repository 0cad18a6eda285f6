-- ===== src/Session/EmitTurn.antt =====
-- core/session_orchestrator.py: what the session does with the caller's turn when it looks at it
-- (_emit_turn_if_ready, _emit_empty_transcript_retry_if_ready), and how it begins to suppress what is
-- said over the agent (_start_overlap_suppression).
pub mod Looks
use voice_agent_v.Prelude.{
  ℕ, ◌+◌, Bool, true, false, not, ◌||◌, ◌==◌, nat_eq, Option, none, some, is_nil, is_some,
  if◌then◌else◌,
}
use voice_agent_v.Text.{Unicode}
use voice_agent_v.Contracts.{UserTurnFinal}
use voice_agent_v.Turn.State.{turn_text}
use voice_agent_v.Turn.Manager.{TurnManager, discard_current_turn}
use voice_agent_v.Turn.Emit.{emit_turn}
use voice_agent_v.Session.TurnCheck.{
  RetrySettings, Suppression, empty_transcript_retry_delay_ms, next_turn_check_delay_ms,
}
use voice_agent_v.Session.Release.{Line, release_agent_if_estimated_playback_complete}

-- The part of the session that listens.
pub record Listening (W : Type 0) : Type 0 where
  pub line : Line W
  pub turns : TurnManager
  pub suppression : Suppression

-- The readings of the clock that a look makes, in this order: for the release of the agent, for the
-- evaluation of the turn, for the repetition, and for the delay of the next look.
pub record Readings : Type 0 where
  pub release_ms : ℕ
  pub emit_ms : ℕ
  pub retry_ms : ℕ
  pub check_ms : ℕ

-- The call that a look ends with: none while speech is suppressed, _emit_user_turn,
-- _enqueue_empty_transcript_retry, or the task that looks again after a delay, if there is one.
pub data Next : Type 0 where
  suppressed : Next
  emitted : UserTurnFinal → Next
  retried : ℕ → Next
  scheduled : Option ℕ → Next

unfoldable pub start_overlap_suppression : ℕ → TurnManager → TurnManager × Suppression
unfolding discard_current_turn
start_overlap_suppression now m = (
  discard_current_turn m,
  record {
    suppress_overlap_turn = true;
    suppress_overlap_stop_seen = false;
    suppress_overlap_until_ms = some (now + m.settings.max_silence_before_force_end_ms);
  },
)

-- `delay_ms is None or delay_ms > 0`, negated.
abbrev pub retries_now : Option ℕ → Bool
retries_now none = false
retries_now (some d) = d == 0

module _ ⦃u : Unicode⦄ where
  unfoldable pub has_turn : TurnManager → Bool
  unfolding turn_text
  has_turn m = is_some m.state.user_started_ms || not (is_nil (turn_text m.state))

  -- What follows the attempt to emit the turn.
  unfoldable pub after_emit :
      Readings → RetrySettings → Bool → Option UserTurnFinal × TurnManager → Next × TurnManager
  unfolding empty_transcript_retry_delay_ms next_turn_check_delay_ms
  after_emit at r agent_is_speaking (some t, m) = (emitted t, m)
  after_emit at r agent_is_speaking (none, m) =
      if retries_now (empty_transcript_retry_delay_ms at.retry_ms r agent_is_speaking m)
      then (retried at.retry_ms, m)
      else (scheduled (next_turn_check_delay_ms at.check_ms r agent_is_speaking m), m)

  unfoldable pub look : Readings → RetrySettings → Bool → Bool → TurnManager → Next × TurnManager
  unfolding has_turn after_emit emit_turn discard_current_turn
  look at r agent_is_speaking suppress_overlap_turn m =
      if suppress_overlap_turn
      then (suppressed, if has_turn m then discard_current_turn m else m)
      else after_emit at r agent_is_speaking (emit_turn at.emit_ms (some at.emit_ms) m)

  module _ {W : Type 0} where
    unfoldable pub emit_turn_if_ready :
        Readings → ℕ → RetrySettings → Listening W → Next × Listening W
    unfolding look release_agent_if_estimated_playback_complete
    emit_turn_if_ready at grace r s =
        let line = (release_agent_if_estimated_playback_complete at.release_ms grace s.line).1 in
        let (next, m) =
          look at r line.manager.state.agent_is_speaking s.suppression.suppress_overlap_turn
            s.turns in
        (next, record s { line = line; turns = m })
