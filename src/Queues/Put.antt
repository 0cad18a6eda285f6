-- ===== src/Queues/Put.antt =====
-- core/queues/queue_manager.py and backpressure.py: a packet is put into a queue under a policy.
pub mod Outcomes
pub mod Broadcast
use voice_agent_v.Prelude.{
  ℕ, Bool, true, false, not, ◌&&◌, ◌||◌, Option, none, some, List, [], ◌∷◌, if◌then◌else◌,
}
use voice_agent_v.Text.{Text}
use voice_agent_v.Queues.Packet.{AgentPacket, eos_packet}
use voice_agent_v.Queues.Queue.{Queue, full, put_nowait, get_nowait, task_done}

pub data BackpressurePolicy : Type 0 where
  block drop_oldest drop_stale_sequence drop_metrics : BackpressurePolicy

-- How a call of `put_packet` ends: it returned True or False, it waits for room, or it raised.
pub data PutResult (A : Type 0) : Type 0 where
  accepted refused : Queue A → PutResult A
  waiting raised : PutResult A

abbrev pub is_block : BackpressurePolicy → Bool
is_block block = true
is_block _ = false

abbrev pub is_drop_metrics : BackpressurePolicy → Bool
is_drop_metrics drop_metrics = true
is_drop_metrics _ = false

abbrev pub drops_oldest : BackpressurePolicy → Bool
drops_oldest drop_oldest = true
drops_oldest drop_stale_sequence = true
drops_oldest _ = false

module _ {A : Type 0} where
  -- `await queue.put(packet)`
  abbrev pub or_wait : Option (Queue A) → PutResult A
  or_wait none = waiting
  or_wait (some q) = accepted q

  abbrev pub put : A → Queue A → PutResult A
  put p q = or_wait (put_nowait p q)

  abbrev pub or_refuse : Queue A → Option (Queue A) → PutResult A
  or_refuse q none = refused q
  or_refuse q (some q') = accepted q'

  abbrev pub try_put : A → Queue A → PutResult A
  try_put p q = or_refuse q (put_nowait p q)

  -- The oldest packet is taken out and marked as done.
  unfoldable pub make_room : Queue A → Option (Queue A)
  make_room q = elim (get_nowait q) [ none ↦ some q | some (_, q') ↦ task_done q' ]

  abbrev pub put_into : A → Option (Queue A) → PutResult A
  put_into p none = raised
  put_into p (some q) = try_put p q

  unfoldable pub put_packet : Queue A → A → BackpressurePolicy → PutResult A
  put_packet q p policy =
      if is_block policy
      then put p q
      else if is_drop_metrics policy && full q
      then refused q
      else put_into p (if full q && drops_oldest policy then make_room q else some q)

-- The queue as a call leaves it, whose result is not looked at.
abbrev pub left : {A : Type 0} → Queue A → PutResult A → Option (Queue A)
left q (accepted q') = some q'
left q (refused q') = some q'
left q waiting = some q
left q raised = none

abbrev pub and_then : {A : Type 0} → Option A → Option (List A) → Option (List A)
and_then (some x) (some xs) = some (x ∷ xs)
and_then _ _ = none

-- Every queue gets the packet that ends its task, the oldest packet of a full one making room.
unfoldable pub broadcast_eos :
    {A : Type 0} → ℕ → List (Queue (AgentPacket A)) → Text → Option (List (Queue (AgentPacket A)))
broadcast_eos now [] call = some []
broadcast_eos now (q ∷ qs) call =
    and_then (left q (put_packet q (eos_packet now call) drop_oldest)) (broadcast_eos now qs call)
