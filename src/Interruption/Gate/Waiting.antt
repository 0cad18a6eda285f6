-- ===== src/Interruption/Gate/Waiting.antt =====
-- What the gate lets through, at once and after a wait.
use voice_agent_v.Prelude.{ℤ, ◌≡◌, ◌⊎◌, true, false, Option, some, List, [], ◌∷◌, arith, int_eq}
use voice_agent_v.Prelude.Sets.{contains-union}
use voice_agent_v.Interruption.Gate.{
  GateState, OutputDecision, drop, OutputGate, blocks, decision_for, Change, to_send, to_wait,
  to_block, blocking, change, changes, wait_until_released,
}

-- A change blocks further ids and unblocks none.
change-blocks :
    (g : OutputGate) (c : Change) (s : ℤ)
    → blocks g (some s) ≡ true
    → blocks (change g c) (some s) ≡ true
unfolding change
change-blocks g to_send s h = h
change-blocks g to_wait s h = h
change-blocks g to_block s h = h
change-blocks g (blocking ss) s h = ground (arith, contains-union s ss g.blocked_sequence_ids)

-- A blocked id is dropped whatever the other tasks do to the gate before it is asked.
pub blocked_stays_dropped :
    (g : OutputGate) (cs : List Change) (s : ℤ)
    → blocks g (some s) ≡ true
    → decision_for (changes g cs) (some s) ≡ drop
unfolding changes decision_for
blocked_stays_dropped g [] s h = rw h
blocked_stays_dropped g (c ∷ cs) s h =
    blocked_stays_dropped (change g c) cs s (change-blocks g c s h)

-- A chunk is let through at once exactly when the gate is open and its id is not blocked.
pub decision_for-send :
    (g : OutputGate) (s : Option ℤ)
    → (decision_for g s ≡ OutputDecision.send → (g.state ≡ GateState.send) × (blocks g s ≡ false))
      × (g.state ≡ GateState.send → blocks g s ≡ false → decision_for g s ≡ OutputDecision.send)
unfolding decision_for
decision_for-send g s = (ground arith, ground arith)

-- A wait ends in the decision that the gate's last state stands for: `send` when it is open, `drop`
-- when it is blocked, and `wait`, the timeout, when it still waits.
pub wait_until_released_state :
    (g : OutputGate) (rounds : List (List Change))
    → let (d, g') = wait_until_released g rounds in
      ((d ≡ OutputDecision.send) × (g'.state ≡ GateState.send))
      ⊎ (((d ≡ drop) × (g'.state ≡ GateState.block))
          ⊎ ((d ≡ OutputDecision.wait) × (g'.state ≡ GateState.wait)))
unfolding wait_until_released
wait_until_released_state g [] = ground arith
wait_until_released_state g (cs ∷ rounds) =
    ground (arith, wait_until_released_state (changes g cs) rounds)
