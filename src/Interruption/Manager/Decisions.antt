-- ===== src/Interruption/Manager/Decisions.antt =====
-- Which decision a transcript gets, and what a rejection leaves alone.
use voice_agent_v.Prelude.{
  ℕ, ◌≡◌, refl, ap, ◌∙◌, ◌⊎◌, Bool, is_some, Bool-cases, inl, inr, true, false, ◌&&◌, ◌||◌, Option,
  none, some, arith, leb, if◌then◌else◌,
}
use voice_agent_v.Text.{Unicode}
use voice_agent_v.Contracts.{
  TranscriptEvent, SpeechStart, InterruptionReason, speech_start, long_user_speech,
  backchannel_phrase, force_interrupt_phrase, word_count_threshold,
}
use voice_agent_v.Interruption.Sequences.{is_valid}
use voice_agent_v.Interruption.Manager.Confirmed.{IsShut, confirm-IsShut}
use voice_agent_v.Interruption.Gate.{GateState}
use voice_agent_v.Interruption.Phrases.{PhraseDecision, decide}
use voice_agent_v.Interruption.State.{
  Manager, Result, decided, raised, plain, Outcome, ignored, candidate, confirmed, rejected,
  pending, can_consider_interruption,
}
use voice_agent_v.Interruption.Manager.{
  Config, interruption_audio_ms, implied_start, confirm, reject, judge, handle_transcript,
  handle_speech_start,
}

-- The rule, from the phrase and the settings alone.
abbrev pub verdict : ℕ → PhraseDecision → Outcome
verdict min_words p =
    if p.is_backchannel
    then rejected
    else if p.is_force_interrupt || leb min_words p.word_count
    then confirmed
    else pending

abbrev pub outcome_of : Result → Option Outcome
outcome_of (decided d) = some d.outcome
outcome_of (raised x) = none

abbrev pub HasReason : InterruptionReason → Result → Type 0
HasReason r (decided d) = d.reason ≡ r
HasReason r (raised x) = ⊥

-- The sequences and what is spoken of them are the same.
pub record SameOutput {W : Type 0} (m n : Manager W) : Type 0 where
  pub sequences : n.sequences ≡ m.sequences
  pub active_response : n.active_response ≡ m.active_response
  pub agent_is_speaking : n.state.agent_is_speaking ≡ m.state.agent_is_speaking

SameOutput-refl : {W : Type 0} (m : Manager W) → SameOutput m m
SameOutput-refl m = record { sequences = refl; active_response = refl; agent_is_speaking = refl }

SameOutput-trans :
    {W : Type 0} {k m n : Manager W} → SameOutput k m → SameOutput m n → SameOutput k n
SameOutput-trans a b = record {
  sequences = b.sequences ∙ a.sequences;
  active_response = b.active_response ∙ a.active_response;
  agent_is_speaking = b.agent_is_speaking ∙ a.agent_is_speaking;
}

module _ {W : Type 0} (c : Config W) where
  confirm_outcome :
      (now : ℕ) (r : InterruptionReason) (p : PhraseDecision) (e : TranscriptEvent) (m : Manager W)
      → outcome_of (confirm c now r p e m).0 ≡ some confirmed
  unfolding confirm
  confirm_outcome now r p e m = refl

  reject_outcome :
      (now : ℕ) (r : InterruptionReason) (p : PhraseDecision) (e : TranscriptEvent) (m : Manager W)
      → outcome_of (reject c now r p e m).0 ≡ some rejected
  unfolding reject
  reject_outcome now r p e m = refl

  -- The decision on a transcript follows the rule on its phrase; how long the caller has spoken makes
  -- no difference to it.
  pub judge-verdict :
      (now : ℕ) (e : TranscriptEvent) (p : PhraseDecision) (m : Manager W)
      → outcome_of (judge c now e p m).0 ≡ some (verdict c.settings.min_interrupt_words p)
  unfolding judge confirm reject
  judge-verdict now e p m = ground arith

  -- The reason `long_user_speech` is never given: its test repeats the one before it.
  pub judge_never_long :
      (now : ℕ) (e : TranscriptEvent) (p : PhraseDecision) (m : Manager W)
      → ¬ HasReason long_user_speech (judge c now e p m).0
  unfolding judge confirm reject
  judge_never_long now e p m = ground arith

  -- A transcript that is not considered, because interruption is disabled or the agent is not
  -- speaking, changes nothing and calls no port.
  pub handle_transcript_ignored :
      ⦃u : Unicode⦄ (now : ℕ) (e : TranscriptEvent) (m : Manager W)
      → (c.settings.interruption_enabled && can_consider_interruption m) ≡ false
      → (outcome_of (handle_transcript c now e m).0 ≡ some ignored)
        × ((handle_transcript c now e m).1 ≡ m)
  unfolding handle_transcript
  handle_transcript_ignored now e m h = ground arith

  -- Over a speaking agent a speech start makes a candidate.
  speech_start-candidate :
      (e : SpeechStart) (m : Manager W)
      → (c.settings.interruption_enabled && can_consider_interruption m) ≡ true
      → (c.settings.preemptive_clear_audio ≡ false)
        ⊎ (((w : W) → (c.ports.clear_playback w).0 ≡ none))
      → (handle_speech_start c e m).0 ≡ plain candidate speech_start
  unfolding handle_speech_start
  speech_start-candidate e m h (inl off) = ground arith
  speech_start-candidate e m h (inr quiet) = ground (arith, quiet m.world)

  -- A rejection opens the gate, ends the candidate, and changes neither the sequences, nor the
  -- active response, nor whether the agent speaks, nor the world of the ports.
  pub reject_keeps :
      (now : ℕ) (r : InterruptionReason) (p : PhraseDecision) (e : TranscriptEvent) (m : Manager W)
      → let m' = (reject c now r p e m).1 in
        (m'.gate.state ≡ GateState.send)
        × (m'.sequences ≡ m.sequences)
        × (m'.active_response ≡ m.active_response)
        × (m'.state.agent_is_speaking ≡ m.state.agent_is_speaking)
        × (m'.world ≡ m.world)
        × (m'.state.user_may_be_interrupting ≡ false)
  unfolding reject
  reject_keeps now r p e m = (refl, refl, refl, refl, refl, refl)

  -- What a transcript's decision does to the output.
  abbrev pub Effect : Outcome → Manager W → Manager W → Type 0
  Effect confirmed m m' = IsShut m m'
  Effect rejected m m' = (m'.gate.state ≡ GateState.send) × SameOutput m m'
  Effect pending m m' = SameOutput m m'
  Effect _ m m' = ⊥

  abbrev long : Manager W → TranscriptEvent → Bool
  long m e = leb c.settings.hard_interrupt_after_audio_ms (interruption_audio_ms c m e)

  judge-Effect :
      (now : ℕ) (e : TranscriptEvent) (p : PhraseDecision) (m : Manager W)
      → Effect (verdict c.settings.min_interrupt_words p) m (judge c now e p m).1
  unfolding judge
  judge-Effect now e p m =
      let kept = reject_keeps now backchannel_phrase p e m in
      elim (Bool-cases p.is_backchannel) [
        | inl b ↦ simp b (
          kept.0,
          record { sequences = kept.1; active_response = kept.2; agent_is_speaking = kept.3 },
        )
        | inr b ↦ elim (Bool-cases p.is_force_interrupt) [
          | inl f ↦ simp (b, f) (confirm-IsShut c now force_interrupt_phrase p e m).1
          | inr f ↦ elim (Bool-cases (leb c.settings.min_interrupt_words p.word_count)) [
            | inl w ↦ simp (b, f, w) (confirm-IsShut c now word_count_threshold p e m).1
            | inr w ↦ elim (Bool-cases (long m e)) [
              | inl l ↦ simp (b, f, w, l) (SameOutput-refl m)
              | inr l ↦ simp (b, f, w, l) (SameOutput-refl m)
            ]
          ]
        ]
      ]

  Effect-from : (o : Outcome) (m n m' : Manager W) → SameOutput m n → Effect o n m' → Effect o m m'
  Effect-from confirmed m n m' k s = record {
    gate_blocked = s.gate_blocked;
    only_system_valid = s.only_system_valid;
    earlier_blocked =
        λ t ne v. s.earlier_blocked t ne (ap (λ q. is_valid q (some t)) k.sequences ∙ v);
    no_response = s.no_response;
    not_speaking = s.not_speaking;
    no_candidate = s.no_candidate;
  }
  Effect-from rejected m n m' k (g, s) = (g, SameOutput-trans k s)
  Effect-from pending m n m' k s = SameOutput-trans k s
  Effect-from _ m n m' k s = absurd s

  speech_start-SameOutput :
      (e : SpeechStart) (m : Manager W) → SameOutput m (handle_speech_start c e m).1
  unfolding handle_speech_start
  speech_start-SameOutput e m = record {
    sequences = ground arith;
    active_response = ground arith;
    agent_is_speaking = ground arith;
  }

  -- A transcript over a speaking agent is judged, in a state in which there is a candidate.
  handle_transcript-judge :
      ⦃u : Unicode⦄ (now : ℕ) (e : TranscriptEvent) (m : Manager W)
      → (c.settings.interruption_enabled && can_consider_interruption m) ≡ true
      → (c.settings.preemptive_clear_audio ≡ false)
        ⊎ (((w : W) → (c.ports.clear_playback w).0 ≡ none))
      → (n : Manager W) × SameOutput m n
        × (handle_transcript c now e m ≡ judge c now e (decide c.classifier e.content) n)
  unfolding handle_transcript
  handle_transcript-judge now e m h k =
      let begun = handle_speech_start c (implied_start e) m in
      let able : c.settings.interruption_enabled ≡ true = ground arith in
      let speaks : can_consider_interruption m ≡ true = ground arith in
      elim (Bool-cases (is_some m.state.user_interrupt_start_ms)) [
        | inl started ↦ (m, SameOutput-refl m, simp (able, speaks, started))
        | inr unstarted ↦ (
          begun.1,
          speech_start-SameOutput (implied_start e) m,
          simp (able, speaks, unstarted, speech_start-candidate (implied_start e) m h k),
        )
      ]

  -- If interruption is enabled, the agent speaks a response, and the preemptive clear is off or
  -- raises nothing, then a transcript is rejected if its phrase is a backchannel, and otherwise
  -- confirmed if it is a forced interruption or has enough words, and otherwise left pending,
  -- whether or not a speech start came before it. A confirmation shuts the output: the gate is blocked,
  -- exactly the system's id is valid, and every other id that was valid is blocked at the gate. A
  -- rejection opens the gate; it and a pending decision leave the sequences, the active response and
  -- the speaking agent as they are.
  pub handle_transcript-verdict :
      ⦃u : Unicode⦄ (now : ℕ) (e : TranscriptEvent) (m : Manager W)
      → (c.settings.interruption_enabled && can_consider_interruption m) ≡ true
      → (c.settings.preemptive_clear_audio ≡ false)
        ⊎ (((w : W) → (c.ports.clear_playback w).0 ≡ none))
      → let rule = verdict c.settings.min_interrupt_words (decide c.classifier e.content) in
        (outcome_of (handle_transcript c now e m).0 ≡ some rule)
        × Effect rule m (handle_transcript c now e m).1
  handle_transcript-verdict now e m h k =
      let phrase = decide c.classifier e.content in
      let (n, same, judged) = handle_transcript-judge now e m h k in
      rw judged (
        judge-verdict now e phrase n,
        Effect-from (verdict c.settings.min_interrupt_words phrase) m n (judge c now e phrase n).1
            same (judge-Effect now e phrase n),
      )
