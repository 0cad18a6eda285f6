-- ===== src/Queues/Packet.antt =====
-- contracts/packets.py: the envelope of what the tasks send each other. Values of `dict[str, Any]`
-- are of a type that the model leaves open.
use voice_agent_v.Prelude.{ℕ, ℤ, Bool, true, Option, none, List, []}
use voice_agent_v.Text.{Text, text}

pub record AgentPacket (A : Type 0) : Type 0 where
  pub packet_type : Text
  pub call_id : Text
  pub turn_id : Option ℕ
  pub sequence_id : Option ℤ
  pub request_id : Option Text
  pub timestamp_ms : ℕ
  pub «data» : List (Text × A)
  pub meta : List (Text × A)
  pub eos : Bool

-- The packet that ends a queue's task, made at the time `now`, with the default type of packet.
unfoldable pub eos_packet : {A : Type 0} → ℕ → Text → AgentPacket A
eos_packet now call = record {
  packet_type = text "eos";
  call_id = call;
  turn_id = none;
  sequence_id = none;
  request_id = none;
  timestamp_ms = now;
  «data» = [];
  meta = [];
  eos = true;
}
