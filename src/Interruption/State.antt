-- ===== src/Interruption/State.antt =====
-- core/interruption/interruption_manager.py: the state of the interruption manager, what tracks the
-- active response, and the ports that the manager calls.
use voice_agent_v.Prelude.{
  ℕ, ℤ, pos, Bool, true, false, not, ◌&&◌, Option, none, some, List, [], ◌∷◌, ◌++◌, ◌==◌, int_eq,
  option_eq, is_some, ◌||◌, if◌then◌else◌,
}
use voice_agent_v.Text.{Text}
use voice_agent_v.Contracts.{InterruptionStarted, InterruptionRejected, InterruptionReason}
use voice_agent_v.Interruption.Sequences.{SequenceManager}
use voice_agent_v.Interruption.Gate.{OutputGate}
use voice_agent_v.Interruption.Phrases.{PhraseDecision}

pub data Outcome : Type 0 where
  ignored candidate confirmed rejected pending : Outcome

pub data InterruptionEvent : Type 0 where
  started : InterruptionStarted → InterruptionEvent
  refused : InterruptionRejected → InterruptionEvent

pub record Decision : Type 0 where
  pub outcome : Outcome
  pub reason : InterruptionReason
  pub phrase : Option PhraseDecision
  pub event : Option InterruptionEvent

pub record ActiveResponse : Type 0 where
  pub sequence_id : ℤ
  pub response_id : Text
  pub message_id : Text

pub record InterruptionState : Type 0 where
  pub agent_is_speaking : Bool
  pub user_interrupt_start_ms : Option ℕ
  pub candidate_sequence_id : Option ℤ
  pub user_may_be_interrupting : Bool
  pub confirmed_count : ℕ
  pub rejected_count : ℕ
  pub events : List InterruptionEvent
  pub cancellation_errors : List Text

-- What lies outside: what each call does to a world `W` and which exception, if any, it raises. An
-- exception is its text "Class: message".
pub record Ports (W : Type 0) : Type 0 where
  pub clear_playback : W → Option Text × W
  pub tts_cancel : Text → InterruptionReason → W → Option Text × W
  pub llm_cancel : Text → W → Option Text × W
  pub on_confirmed : Option (InterruptionStarted → SequenceManager → W → Option Text × W)

-- The manager with the gate and the sequence manager that it shares with the session.
pub record Manager (W : Type 0) : Type 0 where
  pub state : InterruptionState
  pub active_response : Option ActiveResponse
  pub gate : OutputGate
  pub sequences : SequenceManager
  pub world : W

pub data Result : Type 0 where
  decided : Decision → Result
  raised : Text → Result

abbrev pub plain : Outcome → InterruptionReason → Result
plain o r = decided (record { outcome = o; reason = r; phrase = none; event = none })

unfoldable pub reset_candidate : InterruptionState → InterruptionState
reset_candidate s = record s {
  user_interrupt_start_ms = none;
  candidate_sequence_id = none;
  user_may_be_interrupting = false;
}

abbrev pub sequence_of : Option ActiveResponse → Option ℤ
sequence_of none = none
sequence_of (some r) = some r.sequence_id

-- `self.active_response.sequence_id if self.active_response else 0`
abbrev pub sequence_or_zero : Option ActiveResponse → ℤ
sequence_or_zero none = pos 0
sequence_or_zero (some r) = r.sequence_id

abbrev pub note : InterruptionEvent → InterruptionState → InterruptionState
note e s = record s { events = s.events ++ e ∷ [] }

module _ {W : Type 0} where
  unfoldable pub track_response : ℤ → Text → Text → Manager W → Manager W
  track_response s response message m = record m {
    active_response =
        some (record { sequence_id = s; response_id = response; message_id = message });
  }

  unfoldable pub mark_agent_audio_sent : Option ℤ → Manager W → Manager W
  mark_agent_audio_sent s m =
      if not (is_some m.active_response) || s == sequence_of m.active_response
      then record m { state = record m.state { agent_is_speaking = true } }
      else m

  unfoldable pub mark_agent_response_finished : Option ℤ → Manager W → Manager W
  unfolding reset_candidate
  mark_agent_response_finished s m =
      if not (is_some s) || (not (is_some m.active_response) || s == sequence_of m.active_response)
      then record m {
        state = reset_candidate (record m.state { agent_is_speaking = false });
        active_response = none;
      }
      else m

  unfoldable pub can_consider_interruption : Manager W → Bool
  can_consider_interruption m = is_some m.active_response && m.state.agent_is_speaking
