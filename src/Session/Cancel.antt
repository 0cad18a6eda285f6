-- ===== src/Session/Cancel.antt =====
-- core/session_orchestrator.py: how the session silences what it still had to say, before a new turn
-- of the caller is answered (_invalidate_prior_output_for_new_turn), before it asks for a repetition
-- (_invalidate_pending_output_for_empty_transcript_retry), and when a late transcript changes the turn
-- that is being answered (_cancel_active_response_for_late_transcript).
pub mod Silence
use voice_agent_v.Prelude.{
  ℕ, ℤ, ◌+◌, Bool, true, false, not, ◌&&◌, Option, none, some, List, [], ◌∷◌, is_nil, int_eq,
  if◌then◌else◌,
}
use voice_agent_v.Prelude.Sets.{contains}
use voice_agent_v.Text.{Text, text}
use voice_agent_v.Interruption.Sequences.{invalidate, invalidate_pending}
use voice_agent_v.Interruption.Gate.{block_sequences}
use voice_agent_v.Interruption.State.{Manager, ActiveResponse, mark_agent_response_finished}
use voice_agent_v.Queues.Packet.{AgentPacket}
use voice_agent_v.Queues.Queue.{Queue}
use voice_agent_v.Queues.Purge.{purge_invalid_packets}

-- The part of the session that is silenced: the interruption manager with the sequences and the gate
-- that it shares, the two queues of the voice, and the counters.
pub record Speech (A W : Type 0) : Type 0 where
  pub manager : Manager W
  pub tts_request : Queue (AgentPacket A)
  pub tts_audio : Queue (AgentPacket A)
  pub pending_tts_requests_purged : ℕ
  pub pending_tts_audio_purged : ℕ

-- The calls of the providers, each of which may raise, and what the other tasks make of the session
-- while one of them is awaited.
pub record CancelPorts (A W : Type 0) : Type 0 where
  pub tts_cancel : Text → Text → W → Option Text × W
  pub llm_cancel : Text → W → Option Text × W
  pub meanwhile : Speech A W → Speech A W

-- The response of the language model that is being made.
pub record ActiveLlm : Type 0 where
  pub is_running : Bool
  pub response_id : Option Text
  pub sequence_id : Option ℤ

-- An exception of a provider leaves what was done before it; `broken` is an exception of a queue.
pub data Done (S : Type 0) : Type 0 where
  done : S → Done S
  raised : Text → S → Done S
  broken : Done S

module _ {A W : Type 0} where
  unfoldable pub with_world : W → Speech A W → Speech A W
  with_world w s = record s { manager = record s.manager { world = w } }

  -- A call of a provider, and what follows it.
  unfoldable pub after_call :
      CancelPorts A W
      → Option Text × W
      → (Speech A W → Done (Speech A W))
      → Speech A W
      → Done (Speech A W)
  unfolding with_world
  after_call ports (some e, w) next s = raised e (ports.meanwhile (with_world w s))
  after_call ports (none, w) next s = next (ports.meanwhile (with_world w s))

  unfoldable pub counted_queues :
      Speech A W
      → Option (ℕ × Queue (AgentPacket A))
      → Option (ℕ × Queue (AgentPacket A))
      → Option (Speech A W)
  counted_queues s none a = none
  counted_queues s (some r) none = none
  counted_queues s (some (n, requests)) (some (k, audio)) = some (record s {
    tts_request = requests;
    tts_audio = audio;
    pending_tts_requests_purged = s.pending_tts_requests_purged + n;
    pending_tts_audio_purged = s.pending_tts_audio_purged + k;
  })

  unfoldable pub purge_queues : Speech A W → Option (Speech A W)
  unfolding counted_queues purge_invalid_packets
  purge_queues s =
      counted_queues s (purge_invalid_packets s.manager.sequences s.tts_request)
        (purge_invalid_packets s.manager.sequences s.tts_audio)

  unfoldable pub finished : ActiveResponse → Speech A W → Done (Speech A W)
  unfolding mark_agent_response_finished
  finished r s =
      done (record s { manager = mark_agent_response_finished (some r.sequence_id) s.manager })

  -- The calls for the active response, if its sequence is among the ids.
  unfoldable pub cancel_active :
      CancelPorts A W → Text → List ℤ → Option ActiveResponse → Speech A W → Done (Speech A W)
  unfolding after_call finished
  cancel_active ports reason ids none s = done s
  cancel_active ports reason ids (some r) s =
      if contains r.sequence_id ids
      then after_call ports (ports.tts_cancel r.message_id reason s.manager.world)
          (λ t. after_call ports (ports.llm_cancel r.response_id t.manager.world) (finished r) t) s
      else done s

  unfoldable pub if_purged :
      (Speech A W → Done (Speech A W)) → Option (Speech A W) → Done (Speech A W)
  if_purged next none = broken
  if_purged next (some s) = next s

  -- The ids are invalid and blocked.
  unfoldable pub shut_pending : Speech A W → Speech A W
  unfolding invalidate_pending block_sequences
  shut_pending s =
      let (ids, q) = invalidate_pending s.manager.sequences in
      record s {
        manager = record s.manager { sequences = q; gate = block_sequences s.manager.gate ids };
      }

  -- Both methods are this one; they differ in the reason.
  unfoldable pub cancel_pending : CancelPorts A W → Text → Speech A W → Done (Speech A W)
  unfolding shut_pending if_purged purge_queues cancel_active
  cancel_pending ports reason s =
      let (ids, q) = invalidate_pending s.manager.sequences in
      if is_nil ids
      then done (record s { manager = record s.manager { sequences = q } })
      else if_purged (cancel_active ports reason ids s.manager.active_response)
          (purge_queues (shut_pending s))

  unfoldable pub invalidate_prior_output_for_new_turn :
      CancelPorts A W → Speech A W → Done (Speech A W)
  unfolding cancel_pending
  invalidate_prior_output_for_new_turn ports s = cancel_pending ports (text "new_user_turn") s

  unfoldable pub invalidate_pending_output_for_empty_transcript_retry :
      CancelPorts A W → Speech A W → Done (Speech A W)
  unfolding cancel_pending
  invalidate_pending_output_for_empty_transcript_retry ports s =
      cancel_pending ports (text "empty_transcript_retry") s

  -- The sequence of the response that is being made becomes invalid and blocked.
  unfoldable pub shut_sequence : Option ℤ → Speech A W → Speech A W
  unfolding invalidate block_sequences
  shut_sequence none s = s
  shut_sequence (some n) s = record s {
    manager = record s.manager {
      sequences = (invalidate s.manager.sequences n).1;
      gate = block_sequences s.manager.gate (n ∷ []);
    };
  }

  abbrev stop_llm : CancelPorts A W → Option Text → Speech A W → Done (Speech A W)
  stop_llm ports none s = done s
  stop_llm ports (some id) s = after_call ports (ports.llm_cancel id s.manager.world) done s

  -- The voice first, then the language model.
  unfoldable pub stop_active :
      CancelPorts A W → Option Text → Option ActiveResponse → Speech A W → Done (Speech A W)
  unfolding after_call mark_agent_response_finished
  stop_active ports response none s = stop_llm ports response s
  stop_active ports response (some r) s =
      after_call ports
        (ports.tts_cancel r.message_id (text "late_transcript_repair") s.manager.world)
        (λ t.
          stop_llm ports response
            (record t { manager = mark_agent_response_finished (some r.sequence_id) t.manager }))
        s

  -- What follows the purge: the task is cancelled. The ids of the response are cleared when it ends.
  unfoldable pub stopped_late :
      CancelPorts A W
      → ActiveLlm
      → Option ActiveResponse
      → Option (Speech A W)
      → ActiveLlm × Done (Speech A W)
  unfolding stop_active
  stopped_late ports llm active none = (llm, broken)
  stopped_late ports llm active (some s) =
      (record llm { is_running = false }, stop_active ports llm.response_id active s)

  unfoldable pub cancel_active_response_for_late_transcript :
      CancelPorts A W → ActiveLlm → Speech A W → ActiveLlm × Done (Speech A W)
  unfolding shut_sequence purge_queues stopped_late
  cancel_active_response_for_late_transcript ports llm s =
      stopped_late ports llm s.manager.active_response
        (purge_queues (shut_sequence llm.sequence_id s))
