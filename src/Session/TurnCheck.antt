-- ===== src/Session/TurnCheck.antt =====
-- core/session_orchestrator.py: when the session looks at the caller's turn again
-- (_next_turn_check_delay_ms, _empty_transcript_retry_delay_ms), and which speech and transcripts it
-- suppresses while the agent may not be interrupted.
pub mod Progress
use voice_agent_v.Prelude.{
  ℕ, ◌+◌, ◌-◌, max, ◌≡◌, refl, Bool, true, false, not, ◌&&◌, ◌||◌, Option, none, some, List, [],
  ◌∷◌, is_nil, is_some, ltb, leb, or_ms, or_ms?, if◌then◌else◌,
}
use voice_agent_v.Text.{Text, Unicode, strip}
use voice_agent_v.Contracts.{TranscriptEvent, Settings}
use voice_agent_v.Turn.State.{TurnState, turn_text}
use voice_agent_v.Turn.Manager.{TurnManager, uses_smart_turn}
use voice_agent_v.Turn.Evaluate.{
  TurnDecision, TurnReason, evaluate, silence_ms, speech_duration_ms, transcript_age_ms,
}

pub record RetrySettings : Type 0 where
  pub empty_transcript_retry_enabled : Bool
  pub empty_transcript_retry_delay_ms : ℕ
  pub empty_transcript_min_audio_ms : ℕ

module _ ⦃u : Unicode⦄ where
  -- A turn that has begun, is not emitted and is not being spoken.
  unfoldable pub is_pending : TurnState → Bool
  is_pending s = not s.emitted_turn && (not s.is_user_speaking && is_some s.user_started_ms)

  abbrev started_at : TurnState → ℕ
  started_at s = or_ms s.user_started_ms 0

  -- The caller spoke long enough, and an end of the speech was seen.
  unfoldable pub may_retry : ℕ → RetrySettings → TurnManager → Bool
  unfolding uses_smart_turn speech_duration_ms
  may_retry ts r m =
      let s = m.state in
      leb (max m.settings.min_user_speech_ms r.empty_transcript_min_audio_ms)
        (speech_duration_ms ts (started_at s) s)
      && ((s.vad_stop_seen || (s.stt_speech_final_seen || s.smart_turn_complete))
          && not (
              uses_smart_turn m
              && (not s.smart_turn_complete
                  || ltb s.smart_turn_confidence m.settings.smart_turn_threshold)))

  unfoldable pub empty_transcript_retry_delay_ms : ℕ → RetrySettings → Bool → TurnManager → Option ℕ
  unfolding is_pending may_retry turn_text
  empty_transcript_retry_delay_ms ts r agent_is_speaking m =
      let s = m.state in
      let since =
        or_ms (or_ms? (or_ms? s.last_transcript_ms s.smart_turn_ms) s.last_speech_ms) ts in
      if r.empty_transcript_retry_enabled
        && (is_pending s
            && (is_nil (turn_text s)
                && (not (agent_is_speaking && not m.settings.interruption_enabled)
                    && may_retry ts r m)))
      then some (r.empty_transcript_retry_delay_ms - (ts - since))
      else none

  -- The delay that a reason asks for.
  unfoldable pub delay_for : ℕ → TurnManager → TurnReason → Option ℕ
  unfolding speech_duration_ms silence_ms transcript_age_ms
  delay_for ts m TurnReason.speech_too_short =
      some
        (max 1 (m.settings.min_user_speech_ms - speech_duration_ms ts (started_at m.state) m.state))
  delay_for ts m TurnReason.not_enough_silence =
      some (max 1 (m.settings.min_silence_for_turn_end_ms - silence_ms ts m.state))
  delay_for ts m TurnReason.waiting_for_final_transcript =
      some (max 1 (m.settings.max_silence_before_force_end_ms - transcript_age_ms ts m.state))
  delay_for ts m TurnReason.smart_turn_incomplete =
      some (max 1 (m.settings.max_silence_before_force_end_ms - silence_ms ts m.state))
  delay_for ts m TurnReason.incomplete_connector =
      some (max 1 (m.settings.max_silence_before_force_end_ms - silence_ms ts m.state))
  delay_for ts m TurnReason.end_of_turn_grace =
      some (max 1 (m.settings.end_of_turn_grace_ms - (ts - or_ms m.state.smart_turn_ms ts)))
  delay_for ts m _ = none

  abbrev pub at_least_one : Option ℕ → Option ℕ
  at_least_one none = none
  at_least_one (some d) = some (max 1 d)

  unfoldable pub next_turn_check_delay_ms : ℕ → RetrySettings → Bool → TurnManager → Option ℕ
  unfolding is_pending empty_transcript_retry_delay_ms delay_for turn_text evaluate
  next_turn_check_delay_ms now r agent_is_speaking m =
      let decision = evaluate now none m in
      if not (is_pending m.state)
      then none
      else if is_nil (turn_text m.state)
      then at_least_one (empty_transcript_retry_delay_ms now r agent_is_speaking m)
      else if decision.should_emit
      then some 0
      else delay_for now m decision.reason

-- The fields of the session that suppress speech over the agent.
pub record Suppression : Type 0 where
  pub suppress_overlap_turn : Bool
  pub suppress_overlap_stop_seen : Bool
  pub suppress_overlap_until_ms : Option ℕ

unfoldable pub should_suppress_overlap_speech : Settings → Bool → Bool
should_suppress_overlap_speech settings agent_is_speaking =
    not settings.interruption_enabled && agent_is_speaking

unfoldable pub cleared_suppression : Suppression
cleared_suppression = record {
  suppress_overlap_turn = false;
  suppress_overlap_stop_seen = false;
  suppress_overlap_until_ms = none;
}

abbrev is_past : ℕ → Option ℕ → Bool
is_past now none = false
is_past now (some until) = ltb until now

-- `transcript.text.strip() or transcript.is_final`
unfoldable pub says_something : TranscriptEvent → Bool
unfolding strip
says_something t = not (is_nil (strip t.content)) || t.is_final

unfoldable pub should_suppress_transcript :
    ℕ → Settings → Bool → TranscriptEvent → Suppression → Suppression × Bool
unfolding should_suppress_overlap_speech cleared_suppression says_something
should_suppress_transcript now settings agent_is_speaking t s =
    if s.suppress_overlap_turn
    then (if is_past now s.suppress_overlap_until_ms
        then (cleared_suppression, false)
        else (s, says_something t))
    else (s, should_suppress_overlap_speech settings agent_is_speaking && says_something t)

unfoldable pub should_accept_transcript_without_vad :
    ℕ → Settings → Bool → TranscriptEvent → Suppression → Suppression × Bool
unfolding should_suppress_transcript strip
should_accept_transcript_without_vad now settings agent_is_speaking t s =
    let (s', suppressed) = should_suppress_transcript now settings agent_is_speaking t s in
    if t.is_final && not (is_nil (strip t.content)) then (s', not suppressed) else (s, false)
