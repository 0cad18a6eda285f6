-- ===== src/Session/Release.antt =====
-- core/session_orchestrator.py: how the session takes a response for finished when the telephone line
-- does not acknowledge the end of its audio (_release_agent_if_estimated_playback_complete). The grace
-- period is a setting; the reason, which is only logged, is left out.
pub mod Estimate
use voice_agent_v.Prelude.{
  ℕ, ◌+◌, Bool, false, ◌&&◌, Option, none, some, leb, if◌then◌else◌, list_eq, nat_eq,
}
use voice_agent_v.Prelude.Dict.{get}
use voice_agent_v.Text.{Text}
use voice_agent_v.Interruption.Sequences.{retire}
use voice_agent_v.Interruption.State.{Manager, ActiveResponse, mark_agent_response_finished}
use voice_agent_v.Playback.Message.{MessagePlayback}
use voice_agent_v.Playback.Tracker.{PlaybackTracker}
use voice_agent_v.Playback.Events.{awaits_completion, mark_estimated_fully_played}
use voice_agent_v.Conversation.Context.{ContextManager, update_assistant_from_playback}

-- The part of the session that knows the active response and what was played of it.
pub record Line (W : Type 0) : Type 0 where
  pub manager : Manager W
  pub playback : PlaybackTracker
  pub context : ContextManager

-- The audio that was sent has been played, and the grace period is over.
unfoldable pub is_due : ℕ → ℕ → MessagePlayback → Bool
is_due now grace p = elim p.started_ms [
  | none ↦ false
  | some start ↦ leb (start + p.audio_ms_sent + grace) now
]

module _ {W : Type 0} where
  unfoldable pub end_response : MessagePlayback → Manager W → Manager W
  unfolding mark_agent_response_finished retire
  end_response p m =
      let m' = mark_agent_response_finished (some p.sequence_id) m in
      record m' { sequences = (retire m'.sequences (some p.sequence_id)).1 }

  -- What follows the mark of the tracker.
  unfoldable pub settled :
      ℕ → Option MessagePlayback × PlaybackTracker → Line W → Option MessagePlayback × Line W
  unfolding end_response update_assistant_from_playback
  settled now (none, k) s = (none, record s { playback = k })
  settled now (some p, k) s = (
    some p,
    record {
      manager = end_response p s.manager;
      playback = k;
      context = update_assistant_from_playback p now s.context;
    },
  )

  unfoldable pub release_message :
      ℕ → ℕ → Line W → Text → Option MessagePlayback → Option MessagePlayback × Line W
  unfolding is_due settled mark_estimated_fully_played
  release_message now grace s id none = (none, s)
  release_message now grace s id (some p) =
      if awaits_completion p && is_due now grace p
      then settled now (mark_estimated_fully_played now id (some now) s.playback) s
      else (none, s)

  unfoldable pub release_active :
      ℕ → ℕ → Line W → Option ActiveResponse → Option MessagePlayback × Line W
  unfolding release_message
  release_active now grace s none = (none, s)
  release_active now grace s (some r) =
      release_message now grace s r.message_id (get s.playback.messages r.message_id)

  unfoldable pub release_agent_if_estimated_playback_complete :
      ℕ → ℕ → Line W → Option MessagePlayback × Line W
  unfolding release_active
  release_agent_if_estimated_playback_complete now grace s =
      release_active now grace s s.manager.active_response
