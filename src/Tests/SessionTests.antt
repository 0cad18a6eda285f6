-- ===== src/Tests/SessionTests.antt =====
-- The queues, the output loop and the times of the turns at concrete data.
use voice_agent_v.Prelude.Dict.{get}
use voice_agent_v.Metrics.Latency.{LatencyTracker, unmarked}
use voice_agent_v.Metrics.Latency.Firsts.{
  Mark, first_audio_sent, end_of_turn, transcript, marks, first_sent, marks-first_sent,
}
use voice_agent_v.Prelude.{
  ℕ, ◌+◌, ℤ, pos, ◌≡◌, refl, ◌⊎◌, true, false, none, some, List, [], ◌∷◌, arith, int_eq,
}
use voice_agent_v.Text.{Text, text}
use voice_agent_v.Interruption.Sequences.{is_valid, create_sequence, invalidate_pending}
use voice_agent_v.Interruption.Sequences.Staleness.{create-Stale}
use voice_agent_v.Interruption.Gate.{
  GateState, OutputGate, blocks, Change, to_send, blocking, wait_until_released, decision_for,
  changes, change, set_send,
}
use voice_agent_v.Queues.Packet.{AgentPacket, eos_packet}
use voice_agent_v.Queues.Queue.{Queue, WellFormed}
use voice_agent_v.Queues.Put.{drop_oldest, put_packet, broadcast_eos}
use voice_agent_v.Queues.Put.Outcomes.{Allowed, put_packet-Allowed}
use voice_agent_v.Queues.Put.Broadcast.{EndAll, broadcast_eos-EndAll}
use voice_agent_v.Queues.Purge.{Purged, purge_invalid_packets, purge_invalid_packets-Purged}
use voice_agent_v.Session.Output.{
  sent, passed, chunk_fate, OutputState, Moment, handle_output, chunk,
}
use voice_agent_v.Session.Output.Fates.{chunk_fate-passed, chunk_fate-blocked_while_waiting}
use voice_agent_v.Session.Output.Account.{Accounted, handle_output-Accounted}
use voice_agent_v.Session.Cancel.{CancelPorts, Speech, cancel_active, cancel_pending}
use voice_agent_v.Session.Cancel.Silence.{Leaves, IsSilent, Gone, Steady, cancel_pending-IsSilent}
use voice_agent_v.Tests.Samples.{
  sequences, sequences-WellFormed, open_gate, speaking, frame, tracker,
}

abbrev packet : ℤ → AgentPacket Text
packet s = record {
  packet_type = text "tts_audio_chunk";
  call_id = text "call";
  turn_id = some 1;
  sequence_id = some s;
  request_id = none;
  timestamp_ms = 1000;
  «data» = [];
  meta = [];
  eos = false;
}

-- A full queue with a packet of the first response and one of the second.
abbrev full_queue : Queue (AgentPacket Text)
full_queue = record {
  maxsize = 2;
  items = packet (pos 1) ∷ packet (pos 2) ∷ [];
  unfinished_tasks = 3;
}

full_queue-WellFormed : WellFormed full_queue
full_queue-WellFormed = record { bounded = λ _. omega arith; pending = omega arith }

put_packet-Allowed_example :
    Allowed drop_oldest full_queue
      (packet (pos 2))
      (put_packet full_queue (packet (pos 2)) drop_oldest)
put_packet-Allowed_example =
    put_packet-Allowed drop_oldest full_queue (packet (pos 2)) full_queue-WellFormed

broadcast_eos-EndAll_example :
    (qs : List (Queue (AgentPacket Text))) × (broadcast_eos 2000 (full_queue ∷ []) (text "call")
      ≡ some qs)
    × EndAll (eos_packet 2000 (text "call")) (full_queue ∷ []) qs
broadcast_eos-EndAll_example =
    broadcast_eos-EndAll 2000 (full_queue ∷ []) (text "call") (full_queue-WellFormed, tt)

purge_invalid_packets-Purged_example :
    (dropped : ℕ) × ((q : Queue (AgentPacket Text)) × ((purge_invalid_packets sequences full_queue
          ≡ some (dropped, q))
        × Purged sequences full_queue dropped q))
purge_invalid_packets-Purged_example =
    purge_invalid_packets-Purged sequences full_queue full_queue-WellFormed

abbrev waiting_gate : OutputGate
waiting_gate = record { state = GateState.wait; blocked_sequence_ids = pos 1 ∷ [] }

abbrev opened : List (List Change)
opened = (to_send ∷ []) ∷ []

chunk_fate-passed_example :
    (is_valid sequences (some (pos 2)) ≡ true)
    × ((blocks waiting_gate (some (pos 2)) ≡ false)
        × ((waiting_gate.state ≡ GateState.send)
            ⊎ ((waiting_gate.state ≡ GateState.wait)
                × ((wait_until_released waiting_gate opened).1.state ≡ GateState.send))))
unfolding chunk_fate is_valid decision_for wait_until_released changes change set_send
chunk_fate-passed_example = chunk_fate-passed sequences waiting_gate opened (some (pos 2)) refl

chunk_fate-blocked_while_waiting_example :
    let rounds = (blocking (pos 2 ∷ []) ∷ to_send ∷ []) ∷ [] in
    (chunk_fate sequences waiting_gate rounds (some (pos 2)) ≡ passed)
    × (blocks (wait_until_released waiting_gate rounds).1 (some (pos 2)) ≡ true)
unfolding is_valid
chunk_fate-blocked_while_waiting_example =
    chunk_fate-blocked_while_waiting sequences waiting_gate (pos 2) refl refl refl

abbrev output : OutputState ℕ
output = record {
  stats = record {
    stale_audio_chunks_dropped = 0;
    blocked_audio_chunks_dropped = 0;
    waited_audio_chunks_dropped = 0;
    audio_chunks_sent = 0;
  };
  tracker = tracker;
  interruption = speaking;
}

abbrev moment : Moment ℕ
moment = record { now = 1100; answer = sent; rounds = []; meanwhile = λ o. o }

handle_output-Accounted_example :
    Accounted 1100 sent
      (chunk_fate sequences open_gate [] (some (pos 2)))
      (some (pos 2))
      frame
      output
      (handle_output moment (chunk (some (pos 2)) frame) output)
handle_output-Accounted_example = handle_output-Accounted moment (some (pos 2)) frame output

-- Audio is sent twice in the first turn, and once in the second.
abbrev times : List Mark
times =
    first_audio_sent (some 1) 2000
    ∷ end_of_turn 2 3000
    ∷ first_audio_sent none 3500
    ∷ transcript (some 1) 3600 true
    ∷ []

abbrev one_sent : LatencyTracker
one_sent = record {
  turns = (1, record unmarked { first_audio_sent_ms = some 1500 }) ∷ [];
  current_turn_id = some 1;
  interruption_count = 0;
  agent_interrupted_user_count = 0;
  audio_drop_count = 0;
  provider_error_count = 0;
}

marks-first_sent_example : first_sent (marks times one_sent) 1 ≡ some 1500
unfolding get
marks-first_sent_example =
    marks-first_sent times one_sent 1 1500 (λ e. absurd (omega (arith, e))) refl

-- The voice's provider raises when it is told to stop, and meanwhile a sequence is made.
abbrev cancel_ports : CancelPorts Text ℕ
cancel_ports = record {
  tts_cancel = λ message reason w. (some (text "RuntimeError: closed"), w + 1);
  llm_cancel = λ response w. (none, w + 1);
  meanwhile = λ s. record s {
    manager = record s.manager { sequences = (create_sequence s.manager.sequences).1 };
  };
}

cancel_ports-Steady : Steady cancel_ports
cancel_ports-Steady n s (stale, blocked) = (create-Stale s.manager.sequences n stale, blocked)

abbrev speech : Speech Text ℕ
speech = record {
  manager = speaking;
  tts_request = full_queue;
  tts_audio = full_queue;
  pending_tts_requests_purged = 0;
  pending_tts_audio_purged = 4;
}

cancel_pending-IsSilent_example :
    (t : Speech Text ℕ) × IsSilent speech t
    × (cancel_pending cancel_ports (text "new_user_turn") speech
        ≡ cancel_active cancel_ports
            (text "new_user_turn")
            (invalidate_pending sequences).0
            speech.manager.active_response
            t)
    × Leaves (Gone (pos 2) speech) (cancel_pending cancel_ports (text "new_user_turn") speech)
cancel_pending-IsSilent_example =
    cancel_pending-IsSilent cancel_ports (text "new_user_turn") speech (pos 2) full_queue-WellFormed
      full_queue-WellFormed sequences-WellFormed cancel_ports-Steady
