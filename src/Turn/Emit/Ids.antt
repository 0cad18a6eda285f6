-- ===== src/Turn/Emit/Ids.antt =====
-- core/turn_detection/turn_manager.py: the numbers of the emitted turns.
use mathlib.Core.Option.{some-injective, none-ne-some}
use voice_agent_v.Prelude.{
  ℕ, ◌+◌, ◌≡◌, refl, sym, ap, ◌∙◌, inl, inr, false, not, ◌&&◌, Option, none, some, List, [], ◌∷◌,
  arith, is_nil, is_some, length, if◌then◌else◌, Bool-cases,
}
use voice_agent_v.Text.{Text, Unicode, strip}
use voice_agent_v.Contracts.{
  SpeechStart, SpeechStop, TranscriptEvent, SmartTurnResult, UserTurnFinal,
}
use voice_agent_v.Turn.SmartTurn.{ExpectedAnswer, SmartTurnDecision}
use voice_agent_v.Turn.State.{TurnState, fresh, turn_text}
use voice_agent_v.Turn.Manager.{
  TurnManager, set_expected_answer, reset_for_next_turn, discard_current_turn, event_time,
  skip_smart_turn_for_current_turn, handle_speech_start, handle_speech_stop, handle_smart_turn,
  apply_smart_turn,
}
use voice_agent_v.Turn.Evaluate.{evaluate}
use voice_agent_v.Turn.Emit.{
  run_runner, made, is_late_duplicate, add_final, add_transcript, handle_transcript, build_turn,
  emit_turn, force_emit, amend_with, amend_last_emitted_turn,
}

-- The calls of the session on the turn manager.
pub data Call : Type 0 where
  expecting : ExpectedAnswer → Call
  discarding skipping_model : Call
  speech_starts : SpeechStart → Call
  speech_stops : SpeechStop → Call
  transcribed : ℕ → TranscriptEvent → Option ℕ → Call
  judged : ℕ → SmartTurnResult → Call
  emitting forcing : ℕ → Option ℕ → Call
  amending : ℕ → TranscriptEvent → Option ℕ → Call

module _ ⦃u : Unicode⦄ where
  -- The turn that a call emits, if it does; an amendment is no new turn.
  unfoldable pub call : Call → TurnManager → Option UserTurnFinal × TurnManager
  call (expecting a) m = (none, set_expected_answer a m)
  call discarding m = (none, discard_current_turn m)
  call skipping_model m = (none, skip_smart_turn_for_current_turn m)
  call (speech_starts e) m = (none, handle_speech_start e m)
  call (speech_stops e) m = (none, handle_speech_stop e m)
  call (transcribed now e received) m = (none, handle_transcript now e received m)
  call (judged now r) m = (none, handle_smart_turn now r m)
  call (emitting now time) m = emit_turn now time m
  call (forcing now time) m = force_emit now time m
  call (amending now e received) m = (none, (amend_last_emitted_turn now e received m).1)

  abbrev pub with_turn : Option UserTurnFinal → List UserTurnFinal → List UserTurnFinal
  with_turn none ts = ts
  with_turn (some t) ts = t ∷ ts

  unfoldable pub run : TurnManager → List Call → List UserTurnFinal × TurnManager
  run m [] = ([], m)
  run m (c ∷ cs) = let (t, m') = call c m in let (ts, m'') = run m' cs in (with_turn t ts, m'')

  run_runner-ids :
      (now : ℕ) (r : Option (Text → SmartTurnDecision)) (s : TurnState)
      → ((run_runner now r s).turn_id ≡ s.turn_id)
        × ((run_runner now r s).emitted_turn ≡ s.emitted_turn)
  run_runner-ids now none s = (refl, refl)
  run_runner-ids now (some f) s = unfold apply_smart_turn in (refl, refl)

  add_final-ids :
      (now time : ℕ) (e : TranscriptEvent) (m : TurnManager) (s : TurnState)
      → ((add_final now time e m s).turn_id ≡ s.turn_id)
        × ((add_final now time e m s).emitted_turn ≡ s.emitted_turn)
  unfolding add_final
  add_final-ids now time e m s = run_runner-ids now m.smart_turn_runner _

  add_transcript-ids :
      (now time : ℕ) (e : TranscriptEvent) (m : TurnManager) (s : TurnState)
      → ((add_transcript now time e m s).turn_id ≡ s.turn_id)
        × ((add_transcript now time e m s).emitted_turn ≡ s.emitted_turn)
  unfolding add_transcript
  add_transcript-ids now time e m s = elim (Bool-cases (not e.is_final)) [
    | inl i ↦ rw i (refl, refl)
    | inr i ↦ rw i (elim (Bool-cases (is_nil (strip e.content))) [
      | inl n ↦ rw n (refl, refl)
      | inr n ↦ rw n (add_final-ids now time e m s)
    ])
  ]

  transcript-ids :
      (now : ℕ) (e : TranscriptEvent) (received : Option ℕ) (m : TurnManager)
      → ((handle_transcript now e received m).state.turn_id ≡ m.state.turn_id)
        × ((handle_transcript now e received m).state.emitted_turn ≡ m.state.emitted_turn)
  unfolding handle_transcript
  transcript-ids now e received m =
      elim (Bool-cases (
        not (is_some m.state.user_started_ms)
        && is_late_duplicate e.content (event_time now received e) m)) [
          | inl d ↦ rw d (refl, refl)
          | inr d ↦ rw d (add_transcript-ids now (event_time now received e) e m _)
        ]

  amend-ids :
      (now : ℕ) (e : TranscriptEvent) (received : Option ℕ) (m : TurnManager)
      → (amend_last_emitted_turn now e received m).1.state ≡ m.state
  unfolding amend_last_emitted_turn amend_with
  amend-ids now e received m = ground arith

  -- One call: an emitted turn has the next id, which becomes the manager's, and another call keeps it;
  -- and no call leaves the turn marked as emitted.
  pub record Next (m : TurnManager) (r : Option UserTurnFinal × TurnManager) : Type 0 where
    pub numbered : (t : UserTurnFinal) → r.0 ≡ some t → t.turn_id ≡ m.state.turn_id + 1
    pub counted : r.1.state.turn_id ≡ (if is_some r.0 then m.state.turn_id + 1 else m.state.turn_id)
    pub open_again : m.state.emitted_turn ≡ false → r.1.state.emitted_turn ≡ false

  silent-Next :
      (m n : TurnManager)
      → n.state.turn_id ≡ m.state.turn_id
      → (m.state.emitted_turn ≡ false → n.state.emitted_turn ≡ false)
      → Next m (none, n)
  silent-Next m n i o = record {
    numbered = λ t e. absurd (none-ne-some t e);
    counted = i;
    open_again = o;
  }

  same_id : {x y : UserTurnFinal} → some x ≡ some y → y.turn_id ≡ x.turn_id
  same_id {x} {y} e = sym (ap (λ t. t.turn_id) (some-injective x y e))

  build-Next : (now : ℕ) (time : Option ℕ) (m : TurnManager) → Next m (made (build_turn now time m))
  unfolding build_turn reset_for_next_turn fresh
  build-Next now time m = record {
    numbered = λ t e. same_id e;
    counted = refl;
    open_again = λ _. refl;
  }

  emit-Next : (now : ℕ) (time : Option ℕ) (m : TurnManager) → Next m (emit_turn now time m)
  unfolding emit_turn
  emit-Next now time m = elim (Bool-cases (evaluate now time m).should_emit) [
    | inl e ↦ rw e (build-Next now time m)
    | inr e ↦ rw e (silent-Next m m refl (λ o. o))
  ]

  force-Next : (now : ℕ) (time : Option ℕ) (m : TurnManager) → Next m (force_emit now time m)
  unfolding force_emit
  force-Next now time m = elim (Bool-cases (is_nil (turn_text m.state))) [
    | inl e ↦ rw e (silent-Next m m refl (λ o. o))
    | inr e ↦ rw e (build-Next now time m)
  ]

  call-Next : (c : Call) (m : TurnManager) → Next m (call c m)
  unfolding call set_expected_answer discard_current_turn reset_for_next_turn fresh
      skip_smart_turn_for_current_turn handle_speech_start handle_speech_stop handle_smart_turn
  call-Next (expecting a) m = silent-Next m _ refl (λ o. o)
  call-Next discarding m = silent-Next m _ refl (λ _. refl)
  call-Next skipping_model m = silent-Next m _ refl (λ o. o)
  call-Next (speech_starts e) m = silent-Next m _ refl (λ _. refl)
  call-Next (speech_stops e) m = silent-Next m _ refl (λ o. o)
  call-Next (transcribed now e received) m =
      let (i, o) = transcript-ids now e received m in silent-Next m _ i (λ f. o ∙ f)
  call-Next (judged now r) m = silent-Next m _ refl (λ o. o)
  call-Next (emitting now time) m = emit-Next now time m
  call-Next (forcing now time) m = force-Next now time m
  call-Next (amending now e received) m =
      let s = amend-ids now e received m in
      silent-Next m _ (ap (λ s. s.turn_id) s) (λ f. ap (λ s. s.emitted_turn) s ∙ f)

  -- The turns are numbered n + 1, n + 2, and so on.
  unfoldable pub Numbered : ℕ → List UserTurnFinal → Type 0
  Numbered n [] = Unit
  Numbered n (t ∷ ts) = (t.turn_id ≡ n + 1) × Numbered (n + 1) ts

  with_turn-Numbered :
      (r : Option UserTurnFinal) (n k : ℕ) (ts : List UserTurnFinal)
      → ((t : UserTurnFinal) → r ≡ some t → t.turn_id ≡ n + 1)
      → k ≡ (if is_some r then n + 1 else n)
      → Numbered k ts
      → Numbered n (with_turn r ts)
  unfolding Numbered
  with_turn-Numbered none n k ts _ c h = rw (sym c) h
  with_turn-Numbered (some t) n k ts i c h = (i t refl, rw (sym c) h)

  with_turn-length :
      (r : Option UserTurnFinal) (n k : ℕ) (ts : List UserTurnFinal)
      → k ≡ (if is_some r then n + 1 else n)
      → k + length ts ≡ n + length (with_turn r ts)
  with_turn-length none n k ts c = rw c refl
  with_turn-length (some t) n k ts c = omega arith

  -- In any run of calls, the emitted turns are numbered one after the other from the manager's
  -- turn id on, and the manager's turn id is raised by their number.
  pub run-Numbered :
      (cs : List Call) (m : TurnManager)
      → Numbered m.state.turn_id (run m cs).0
        × ((run m cs).1.state.turn_id ≡ m.state.turn_id + length (run m cs).0)
  unfolding run Numbered
  run-Numbered [] m = (_, omega arith)
  run-Numbered (c ∷ cs) m =
      let h = call-Next c m in
      let (n, l) = run-Numbered cs (call c m).1 in
      (
        with_turn-Numbered (call c m).0 _ _ _ h.numbered h.counted n,
        l ∙ with_turn-length (call c m).0 _ _ _ h.counted,
      )

  -- In any run of calls from a manager whose turn is not marked as emitted, it is not marked afterwards,
  -- so that an evaluation never refuses because the turn was already emitted.
  pub run-is_open :
      (cs : List Call) (m : TurnManager)
      → m.state.emitted_turn ≡ false
      → (run m cs).1.state.emitted_turn ≡ false
  unfolding run
  run-is_open [] m o = o
  run-is_open (c ∷ cs) m o = run-is_open cs (call c m).1 ((call-Next c m).open_again o)
