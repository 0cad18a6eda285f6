-- ===== src/Interruption/Manager/Confirmed.antt =====
-- core/interruption/interruption_manager.py: the state after a confirmed interruption.
use voice_agent_v.Prelude.{
  ℕ, ℤ, ◌≡◌, ◌≢◌, refl, ap, ◌∙◌, Bool-cases, int_beq_iff, inl, inr, true, false, Option, none, some,
  [], ◌==◌, int_eq, arith,
}
use voice_agent_v.Prelude.Sets.{contains-union}
use voice_agent_v.Text.{Text}
use voice_agent_v.Contracts.{TranscriptEvent, InterruptionStarted, InterruptionReason}
use voice_agent_v.Interruption.Sequences.{
  SequenceManager, system_sequence_id, is_valid, invalidate_pending,
}
use voice_agent_v.Interruption.Sequences.Staleness.{invalidate_pending_exact}
use voice_agent_v.Interruption.Gate.{GateState, OutputGate, blocks}
use voice_agent_v.Interruption.Phrases.{PhraseDecision}
use voice_agent_v.Interruption.Manager.{
  Config, confirm, cancel_active_work, cancel_response, notify_by, attempt, shut_output,
}
use voice_agent_v.Interruption.State.{
  Manager, InterruptionState, ActiveResponse, Result, decided, raised, confirmed,
}

-- The state but for the list of errors.
abbrev pub core : InterruptionState → InterruptionState
core s = record s { cancellation_errors = [] }

-- What the ports and the callback cannot reach.
pub record SameShields {W : Type 0} (m k : Manager W) : Type 0 where
  pub gate : k.gate ≡ m.gate
  pub sequences : k.sequences ≡ m.sequences
  pub active : k.active_response ≡ m.active_response
  pub rest : core k.state ≡ core m.state

SameShields-refl : {W : Type 0} (m : Manager W) → SameShields m m
SameShields-refl m = record { gate = refl; sequences = refl; active = refl; rest = refl }

SameShields-trans :
    {W : Type 0} {m k l : Manager W} → SameShields m k → SameShields k l → SameShields m l
SameShields-trans p q = record {
  gate = q.gate ∙ p.gate;
  sequences = q.sequences ∙ p.sequences;
  active = q.active ∙ p.active;
  rest = q.rest ∙ p.rest;
}

abbrev pub IsConfirmed : Result → Type 0
IsConfirmed (decided d) = d.outcome ≡ confirmed
IsConfirmed (raised x) = ⊥

-- No audio of an earlier response can pass: only the system's id is valid, the gate is blocked, and
-- every id that was valid stays blocked when the gate opens again.
pub record IsShut {W : Type 0} (before m : Manager W) : Type 0 where
  pub gate_blocked : m.gate.state ≡ GateState.block
  pub only_system_valid : (s : ℤ) → is_valid m.sequences (some s) ≡ (s == system_sequence_id)
  pub earlier_blocked :
      (s : ℤ)
      → s ≢ system_sequence_id
      → is_valid before.sequences (some s) ≡ true
      → blocks m.gate (some s) ≡ true
  pub no_response : m.active_response ≡ none
  pub not_speaking : m.state.agent_is_speaking ≡ false
  pub no_candidate : m.state.user_may_be_interrupting ≡ false

module _ {W : Type 0} (c : Config W) where
  attempt-shields : (f : W → Option Text × W) (m : Manager W) → SameShields m (attempt c f m)
  unfolding attempt
  attempt-shields f m = record { gate = refl; sequences = refl; active = refl; rest = refl }

  notify_by-shields :
      (f : Option (InterruptionStarted → SequenceManager → W → Option Text × W))
      (e : InterruptionStarted) (m : Manager W)
      → SameShields m (notify_by c f e m)
  unfolding notify_by
  notify_by-shields none e m = SameShields-refl m
  notify_by-shields (some f) e m = attempt-shields (f e m.sequences) m

  cancel_response-shields :
      (a : Option ActiveResponse) (r : InterruptionReason) (m : Manager W)
      → SameShields m (cancel_response c a r m)
  unfolding cancel_response
  cancel_response-shields none r m = SameShields-refl m
  cancel_response-shields (some a) r m =
      SameShields-trans (attempt-shields (c.ports.tts_cancel a.message_id r) m)
        (attempt-shields (c.ports.llm_cancel a.response_id) _)

  cancel-shields :
      (a : Option ActiveResponse) (r : InterruptionReason) (m : Manager W)
      → SameShields m (cancel_active_work c a r m)
  unfolding cancel_active_work
  cancel-shields a r m = elim (Bool-cases c.settings.clear_audio_on_confirmed_interrupt) [
    | inl e ↦ simp e (
        SameShields-trans (cancel_response-shields a r m)
          (attempt-shields c.ports.clear_playback _))
    | inr e ↦ simp e (cancel_response-shields a r m)
  ]

  shut_output-IsShut :
      (now : ℕ) (r : InterruptionReason) (e : TranscriptEvent) (m : Manager W)
      → IsShut m (shut_output c now r e m).1
  unfolding shut_output
  shut_output-IsShut now r e m = record {
    gate_blocked = refl;
    only_system_valid = λ s. (invalidate_pending_exact m.sequences s).0;
    earlier_blocked = λ s ne h. ground (
      arith,
      contains-union s (invalidate_pending m.sequences).0 m.gate.blocked_sequence_ids,
      (invalidate_pending_exact m.sequences s).1,
      int_beq_iff s system_sequence_id,
    );
    no_response = refl;
    not_speaking = refl;
    no_candidate = refl;
  }

  IsShut-shields : {b m k : Manager W} → IsShut b m → SameShields m k → IsShut b k
  IsShut-shields s k = record {
    gate_blocked = ap (λ (g : OutputGate). g.state) k.gate ∙ s.gate_blocked;
    only_system_valid =
        λ t. ap (λ (q : SequenceManager). is_valid q (some t)) k.sequences ∙ s.only_system_valid t;
    earlier_blocked =
        λ t ne h. ap (λ (g : OutputGate). blocks g (some t)) k.gate ∙ s.earlier_blocked t ne h;
    no_response = k.active ∙ s.no_response;
    not_speaking = ap (λ (q : InterruptionState). q.agent_is_speaking) k.rest ∙ s.not_speaking;
    no_candidate =
        ap (λ (q : InterruptionState). q.user_may_be_interrupting) k.rest ∙ s.no_candidate;
  }

  -- What the callback and the cancellations leave of the state that `shut_output` makes.
  pub confirm-shields :
      (now : ℕ) (r : InterruptionReason) (p : PhraseDecision) (e : TranscriptEvent) (m : Manager W)
      → SameShields (shut_output c now r e m).1 (confirm c now r p e m).1
  unfolding confirm
  confirm-shields now r p e m =
      SameShields-trans (notify_by-shields c.ports.on_confirmed _ _)
        (cancel-shields m.active_response r _)

  -- A confirmation decides `confirmed`, whatever the cancellations and the callback do and
  -- whichever of them raise. Afterwards the gate is blocked, exactly the system's id is valid,
  -- every other id that was valid before is blocked at the gate, and there is no active response,
  -- no speaking agent and no candidate.
  pub confirm-IsShut :
      (now : ℕ) (r : InterruptionReason) (p : PhraseDecision) (e : TranscriptEvent) (m : Manager W)
      → IsConfirmed (confirm c now r p e m).0 × IsShut m (confirm c now r p e m).1
  unfolding confirm
  confirm-IsShut now r p e m =
      (refl, IsShut-shields (shut_output-IsShut now r e m) (confirm-shields now r p e m))
