-- ===== src/Session/Output/Fates.antt =====
-- Which chunks are sent.
use voice_agent_v.Prelude.{
  ℤ, ◌≡◌, ◌≢◌, ◌⊎◌, true, false, Option, some, List, [], ◌∷◌, arith, int_eq, eq_refl,
}
use voice_agent_v.Prelude.Sets.{contains-union}
use voice_agent_v.Interruption.Sequences.{SequenceManager, is_valid}
use voice_agent_v.Interruption.Gate.{
  GateState, OutputGate, blocks, decision_for, Change, to_send, blocking, wait_until_released,
}
use voice_agent_v.Interruption.Gate.Waiting.{wait_until_released_state}
use voice_agent_v.Session.Output.{passed, chunk_fate}

-- A chunk that is sent belongs to a valid response that the gate did not block when the loop looked at it, and
-- the gate is open, at once or when the wait for it ends.
pub chunk_fate-passed :
    (m : SequenceManager) (g : OutputGate) (rounds : List (List Change)) (s : Option ℤ)
    → chunk_fate m g rounds s ≡ passed
    → (is_valid m s ≡ true)
      × ((blocks g s ≡ false)
          × ((g.state ≡ GateState.send)
              ⊎ ((g.state ≡ GateState.wait)
                  × ((wait_until_released g rounds).1.state ≡ GateState.send))))
unfolding chunk_fate decision_for
chunk_fate-passed m g rounds s h = ground (arith, wait_until_released_state g rounds)

-- A chunk of a response that is no longer valid, or that the gate blocks, is never sent, whatever the other
-- tasks do to the gate while the loop waits.
pub chunk_fate-refused :
    (m : SequenceManager) (g : OutputGate) (rounds : List (List Change)) (s : Option ℤ)
    → (is_valid m s ≡ false) ⊎ (blocks g s ≡ true)
    → chunk_fate m g rounds s ≢ passed
chunk_fate-refused m g rounds s c h = ground (arith, chunk_fate-passed m g rounds s h)

-- If the gate pauses when the loop looks at a chunk of a valid response that it does not block, and another task blocks the
-- response and then opens the gate before the loop wakes up, then the chunk is sent.
pub chunk_fate-blocked_while_waiting :
    (m : SequenceManager) (g : OutputGate) (s : ℤ)
    → is_valid m (some s) ≡ true
    → g.state ≡ GateState.wait
    → blocks g (some s) ≡ false
    → let rounds = (blocking (s ∷ []) ∷ to_send ∷ []) ∷ [] in
      (chunk_fate m g rounds (some s) ≡ passed)
      × (blocks (wait_until_released g rounds).1 (some s) ≡ true)
unfolding chunk_fate decision_for wait_until_released
chunk_fate-blocked_while_waiting m g s v w b =
    ground (arith, contains-union s (s ∷ []) g.blocked_sequence_ids, eq_refl s, v, w, b)
