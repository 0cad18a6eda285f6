-- ===== src/Interruption/Gate.antt =====
-- core/interruption/output_gate.py: the gate that pauses or blocks assistant audio. The condition
-- variable's wait is modelled by what the other tasks do to the gate before the timeout.
pub mod Waiting
use voice_agent_v.Prelude.{
  ℤ, Bool, true, false, Option, none, some, List, [], ◌∷◌, int_eq, if◌then◌else◌,
}
use voice_agent_v.Prelude.Sets.{contains, insert, union}

pub data GateState : Type 0 where
  send wait block : GateState

pub data OutputDecision : Type 0 where
  send wait drop : OutputDecision

pub record OutputGate : Type 0 where
  pub state : GateState
  pub blocked_sequence_ids : List ℤ

unfoldable pub new : OutputGate
new = record { state = GateState.send; blocked_sequence_ids = [] }

abbrev pub blocks : OutputGate → Option ℤ → Bool
blocks g none = false
blocks g (some s) = contains s g.blocked_sequence_ids

by_state : GateState → OutputDecision
by_state GateState.block = drop
by_state GateState.wait = OutputDecision.wait
by_state GateState.send = OutputDecision.send

unfoldable pub decision_for : OutputGate → Option ℤ → OutputDecision
unfolding by_state
decision_for g s = if blocks g s then drop else by_state g.state

unfoldable pub set_send : OutputGate → OutputGate
set_send g = record g { state = GateState.send }

unfoldable pub set_wait : OutputGate → OutputGate
set_wait g = record g { state = GateState.wait }

unfoldable pub set_block : OutputGate → OutputGate
set_block g = record g { state = GateState.block }

unfoldable pub block_sequence : OutputGate → ℤ → OutputGate
unfolding insert
block_sequence g s = record g { blocked_sequence_ids = insert s g.blocked_sequence_ids }

unfoldable pub block_sequences : OutputGate → List ℤ → OutputGate
unfolding union insert
block_sequences g ss = record g { blocked_sequence_ids = union ss g.blocked_sequence_ids }

-- What another task does to the gate.
pub data Change : Type 0 where
  to_send to_wait to_block : Change
  blocking : List ℤ → Change

unfoldable pub change : OutputGate → Change → OutputGate
unfolding set_send set_wait set_block block_sequences
change g to_send = set_send g
change g to_wait = set_wait g
change g to_block = set_block g
change g (blocking ss) = block_sequences g ss

released : GateState → OutputDecision
released GateState.block = drop
released _ = OutputDecision.send

unfoldable pub changes : OutputGate → List Change → OutputGate
unfolding change
changes g [] = g
changes g (c ∷ cs) = changes (change g c) cs

abbrev waiting : GateState → Bool
waiting GateState.wait = true
waiting _ = false

-- What the waiter sees: the changes that are made before each of its wake-ups. It is woken with the
-- gate as the changes so far have left it, and returns once the state is not `wait`; when no wake-up
-- is left, the timeout has passed.
unfoldable pub wait_until_released : OutputGate → List (List Change) → OutputDecision × OutputGate
unfolding released changes
wait_until_released g [] =
    if waiting g.state then (OutputDecision.wait, g) else (released g.state, g)
wait_until_released g (cs ∷ rounds) =
    let later = wait_until_released (changes g cs) rounds in
    if waiting g.state then later else (released g.state, g)
