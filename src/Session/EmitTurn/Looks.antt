-- ===== src/Session/EmitTurn/Looks.antt =====
-- What a look at the caller's turn ends with.
use voice_agent_v.Prelude.{ℕ, ◌≤◌, ◌⊎◌, ◌≡◌, Bool, true, false, Option, none, some}
use voice_agent_v.Text.{Unicode}
use voice_agent_v.Turn.Manager.{TurnManager}
use voice_agent_v.Turn.Evaluate.{evaluate}
use voice_agent_v.Turn.Emit.{build_turn}
use voice_agent_v.Session.TurnCheck.{
  RetrySettings, empty_transcript_retry_delay_ms, next_turn_check_delay_ms,
}
use voice_agent_v.Session.EmitTurn.{
  Readings, Next, suppressed, emitted, retried, scheduled, has_turn,
}

-- There is no next look, or it is at least a millisecond away.
abbrev pub IsLater : Option ℕ → Type 0
IsLater none = Unit
IsLater (some d) = 1 ≤ d

module _ ⦃u : Unicode⦄ where
  -- For each call that a look may end with, the state before it and the state after it.
  abbrev pub Ends :
      Readings → RetrySettings → Bool → Bool → TurnManager → Next × TurnManager → Type 0
  Ends at r b s m (suppressed, m') = (s ≡ true) × (has_turn m' ≡ false)
  Ends at r b s m (emitted t, m') =
      (s ≡ false)
      × ((evaluate at.emit_ms none m).should_emit ≡ true)
      × ((t, m') ≡ build_turn at.emit_ms (some at.emit_ms) m)
  Ends at r b s m (retried n, m') =
      (s ≡ false)
      × ((evaluate at.emit_ms none m).should_emit ≡ false)
      × (empty_transcript_retry_delay_ms at.retry_ms r b m ≡ some 0)
      × (n ≡ at.retry_ms)
      × (m' ≡ m)
  Ends at r b s m (scheduled o, m') =
      (s ≡ false)
      × ((evaluate at.emit_ms none m).should_emit ≡ false)
      × (o ≡ next_turn_check_delay_ms at.check_ms r b m)
      × (IsLater o ⊎ ((evaluate at.check_ms none m).should_emit ≡ true))
      × (m' ≡ m)
