-- ===== src/Session/Closing.antt =====
-- core/session_orchestrator.py: the end of a call (_maybe_hangup_after_assistant_turn,
-- _request_call_hangup, shutdown, _finalize_closed). The log and the contents of the final record are
-- left out; what the stores, the providers, the queues and the other tasks do are ports.
pub mod Once
use voice_agent_v.Prelude.{
  ℕ, suc, ℤ, pos, negsuc, Bool, true, false, not, ◌&&◌, ◌||◌, Option, none, some, List, [], ◌∷◌,
  ltb, leb, if◌then◌else◌,
}
use voice_agent_v.Text.{Text, text, Unicode}
use voice_agent_v.Playback.Message.{MessagePlayback}
use voice_agent_v.Listener.EndCall.{
  EndCallDecision, EndCallSettings, ListenerPort, Evaluation, absent, decided, raised, evaluate,
}
use voice_agent_v.Session.Cancel.{ActiveLlm}

pub data CallState : Type 0 where
  initial starting listening thinking speaking interrupted closing closed : CallState

-- What lies outside, each with the exception that it may raise. `silence` is
-- `invalidate_pending_output` with the two purges; `await_tasks` cancels the other tasks and waits
-- for them, with their exceptions as results.
pub record CallPorts (W : Type 0) : Type 0 where
  pub silence : W → Option Text × W
  pub llm_cancel : Text → W → Option Text × W
  pub telephony_hangup : Text → W → Option Text × W
  pub save_live_state : W → Option Text × W
  pub send_eos_to_all_queues : W → Option Text × W
  pub stop_providers : Text → W → Option Text × W
  pub await_tasks : W → W
  pub save_call : W → Option Text × W
  pub delete_call_state : W → Option Text × W
  pub stop_logger : W → Option Text × W

pub record Call (W : Type 0) : Type 0 where
  pub state : CallState
  pub shutdown_started : Bool
  pub hangup_started : Bool
  pub end_call_listener_checks : ℕ
  pub end_call_listener_hangups : ℕ
  pub session_ended_ms : Option ℕ
  pub llm : ActiveLlm
  pub world : W

-- The exception that a method raises, if any, and the call as it leaves it.
abbrev pub Outcome : Type 0 → Type 0
Outcome W = Option Text × Call W

unfoldable pub is_closed : CallState → Bool
is_closed CallState.closed = true
is_closed _ = false

-- a <= b on integers.
unfoldable pub int_leb : ℤ → ℤ → Bool
int_leb (pos a) (pos b) = leb a b
int_leb (pos a) (negsuc b) = false
int_leb (negsuc a) (pos b) = true
int_leb (negsuc a) (negsuc b) = leb b a

module _ {W : Type 0} where
  -- Calls in a row, up to the first that raises.
  unfoldable pub in_turn : List (W → Option Text × W) → Option Text × W → Option Text × W
  in_turn [] r = r
  in_turn (f ∷ fs) (some e, w) = (some e, w)
  in_turn (f ∷ fs) (none, w) = in_turn fs (f w)

  unfoldable pub at_world : Call W → Option Text × W → Outcome W
  at_world c (e, w) = (e, record c { world = w })

  unfoldable pub finalize_closed : CallPorts W → ℕ → Call W → Outcome W
  unfolding is_closed at_world in_turn
  finalize_closed ports now c =
      if is_closed c.state
      then (none, c)
      else at_world (record c { state = CallState.closed; session_ended_ms = some now })
          (in_turn (ports.save_call ∷ ports.delete_call_state ∷ ports.stop_logger ∷ [])
            (none, c.world))

  unfoldable pub closed_after : CallPorts W → ℕ → Outcome W → Outcome W
  unfolding finalize_closed
  closed_after ports now (some e, c) = (some e, c)
  closed_after ports now (none, c) =
      finalize_closed ports now (record c { world = ports.await_tasks c.world })

  unfoldable pub closing_calls : CallPorts W → Text → List (W → Option Text × W)
  closing_calls ports reason =
      ports.save_live_state ∷ ports.send_eos_to_all_queues ∷ ports.stop_providers reason ∷ []

  unfoldable pub shutdown : CallPorts W → Text → ℕ → Call W → Outcome W
  unfolding closed_after at_world in_turn closing_calls
  shutdown ports reason now c =
      if c.shutdown_started
      then (none, c)
      else closed_after ports now (
          at_world (record c { shutdown_started = true; state = CallState.closing })
            (in_turn (closing_calls ports reason) (none, c.world)))

  unfoldable pub then_shutdown : CallPorts W → Text → ℕ → Outcome W → Outcome W
  unfolding shutdown
  then_shutdown ports reason now (some e, c) = (some e, c)
  then_shutdown ports reason now (none, c) = shutdown ports reason now c

  unfoldable pub hangup_calls : CallPorts W → Text → Option Text → List (W → Option Text × W)
  hangup_calls ports reason none = ports.telephony_hangup reason ∷ []
  hangup_calls ports reason (some id) = ports.llm_cancel id ∷ ports.telephony_hangup reason ∷ []

  -- The task of the response is cancelled once the output is silenced.
  unfoldable pub after_silence : CallPorts W → Text → ℕ → Outcome W → Outcome W
  unfolding then_shutdown at_world in_turn hangup_calls
  after_silence ports reason now (some e, c) = (some e, c)
  after_silence ports reason now (none, c) = then_shutdown ports reason now (
      at_world (record c { llm = record c.llm { is_running = false } })
        (in_turn (hangup_calls ports reason c.llm.response_id) (none, c.world)))

  unfoldable pub request_call_hangup : CallPorts W → Text → ℕ → Call W → Outcome W
  unfolding after_silence at_world
  request_call_hangup ports reason now c =
      if c.hangup_started
      then (none, c)
      else after_silence ports reason now
          (at_world (record c { hangup_started = true }) (ports.silence c.world))

  module _ ⦃u : Unicode⦄ (settings : EndCallSettings) (llm : ListenerPort W)
      (ports : CallPorts W) where
    -- The decision asks for the end of the call, and is sure enough.
    unfoldable pub is_sure : EndCallDecision → Bool
    unfolding int_leb
    is_sure d =
        d.should_hangup && int_leb settings.end_call_listener_confidence_threshold d.confidence

    -- An exception of the listener is logged only.
    unfoldable pub after_evaluation : ℕ → Evaluation → Call W → Outcome W
    unfolding is_sure request_call_hangup
    after_evaluation now absent c = (none, c)
    after_evaluation now (raised message) c = (none, c)
    after_evaluation now (decided d) c =
        if is_sure d
        then request_call_hangup ports (text "end_call_listener") now
            (record c { end_call_listener_hangups = suc c.end_call_listener_hangups })
        else (none, c)

    -- With the text of the caller's last turn.
    unfoldable pub maybe_hangup_after_assistant_turn :
        ℕ → MessagePlayback → Text → Call W → Outcome W
    unfolding after_evaluation evaluate
    maybe_hangup_after_assistant_turn now playback latest_user_text c =
        let (evaluation, w) = evaluate settings llm playback latest_user_text c.world in
        if c.hangup_started
        then (none, c)
        else after_evaluation now evaluation
            (record c { world = w; end_call_listener_checks = suc c.end_call_listener_checks })
