-- ===== src/Turn/Emit/Late.antt =====
-- core/turn_detection/turn_manager.py: transcripts that arrive after their turn was emitted.
use mathlib.Core.Option.{some-injective, none-ne-some}
use voice_agent_v.Prelude.{
  ℕ, ◌+◌, ◌-◌, ◌≤◌, ◌≡◌, ◌≢◌, refl, sym, ap, ◌∙◌, inl, inr, true, false, Option, none, some, arith,
  is_nil, ltb, or_ms, ◌==◌, nat_eq, list_eq, eq_refl, list_beq_iff, ◌⊎◌, Bool-cases,
}
use voice_agent_v.Text.{Text, Unicode, strip}
use voice_agent_v.Contracts.{TranscriptEvent, UserTurnFinal}
use voice_agent_v.Turn.Merge.{dedupe_text, merge_turn_text}
use voice_agent_v.Turn.State.{fresh, turn_text}
use voice_agent_v.Turn.Manager.{TurnManager, reset_for_next_turn, event_time}
use voice_agent_v.Turn.Evaluate.{evaluate}
use voice_agent_v.Turn.Emit.{
  is_late_duplicate, handle_transcript, build_turn, amended, emit_turn, amend_with, amend_last,
  amend_last_emitted_turn,
}

different : {s t : Text} → (s == t) ≡ false → s ≢ t
different {s} {t} d q = ground (arith, (list_beq_iff s t).1 q)

module _ ⦃u : Unicode⦄ where
  build_turn-is_late_duplicate :
      (now : ℕ) (stamp : Option ℕ) (m : TurnManager) (t : Text) (time : ℕ)
      → dedupe_text t ≡ dedupe_text (turn_text m.state)
      → is_nil (dedupe_text t) ≡ false
      → time ≤ or_ms stamp now + m.settings.max_silence_before_force_end_ms
      → is_late_duplicate t time (build_turn now stamp m).1 ≡ true
  unfolding build_turn is_late_duplicate reset_for_next_turn
  build_turn-is_late_duplicate now stamp m t time d n h =
      rw (sym d, n) (rw (eq_refl (dedupe_text t)) (ground arith))

  built_duplicate :
      (now : ℕ) (stamp : Option ℕ) (m : TurnManager) (later : ℕ) (e : TranscriptEvent)
      (received : Option ℕ)
      → dedupe_text e.content ≡ dedupe_text (turn_text m.state)
      → is_nil (dedupe_text e.content) ≡ false
      → event_time later received e ≤ or_ms stamp now + m.settings.max_silence_before_force_end_ms
      → handle_transcript later e received (build_turn now stamp m).1 ≡ (build_turn now stamp m).1
  unfolding handle_transcript
  built_duplicate now stamp m later e received d n h =
      rw (build_turn-is_late_duplicate now stamp m e.content (event_time later received e) d n h)
        (unfold build_turn reset_for_next_turn fresh in refl)

  -- Once a turn was emitted, a transcript that says the same again, up to case, white space and
  -- punctuation, and that comes no later than the settings' longest silence after the turn's end,
  -- leaves the manager unchanged, if it says anything.
  pub emit_turn-duplicate :
      (now : ℕ) (stamp : Option ℕ) (m : TurnManager) (later : ℕ) (e : TranscriptEvent)
      (received : Option ℕ)
      → (evaluate now stamp m).should_emit ≡ true
      → dedupe_text e.content ≡ dedupe_text (turn_text m.state)
      → is_nil (dedupe_text e.content) ≡ false
      → event_time later received e ≤ or_ms stamp now + m.settings.max_silence_before_force_end_ms
      → handle_transcript later e received (emit_turn now stamp m).1 ≡ (emit_turn now stamp m).1
  unfolding emit_turn
  emit_turn-duplicate now stamp m later e received s d n h =
      rw s (built_duplicate now stamp m later e received d n h)

  -- What an amendment gives: the turn as it was numbered and begun, with the late text merged into it
  -- and the transcript's time as its end, which is the last emitted turn from then on.
  pub record Amends (time : ℕ) (e : TranscriptEvent) (m m' : TurnManager) (last t : UserTurnFinal)
      : Type 0 where
    pub same_id : t.turn_id ≡ last.turn_id
    pub same_start : t.start_ms ≡ last.start_ms
    pub merged : t.content ≡ merge_turn_text last.content (strip e.content)
    pub ends_at : t.end_ms ≡ some time
    pub remembered : m'.last_emitted_turn ≡ some t
    pub says_other : dedupe_text t.content ≢ m.last_emitted_text
    pub same_state : m'.state ≡ m.state

  abbrev remember : ℕ → UserTurnFinal → TurnManager → TurnManager
  remember time t m = record m {
    last_emitted_turn = some t;
    last_emitted_text = dedupe_text t.content;
    last_emitted_ms = some time;
  }

  abbrev merged_turn : ℕ → TranscriptEvent → UserTurnFinal → TurnManager → UserTurnFinal
  merged_turn time e last m = amended time e last (merge_turn_text last.content (strip e.content)) m

  amend_with-cases :
      (time last_ms : ℕ) (e : TranscriptEvent) (last : UserTurnFinal) (m : TurnManager)
      → (amend_with time last_ms e last m ≡ (none, m))
        ⊎ ((amend_with time last_ms e last m
              ≡ (some (merged_turn time e last m), remember time (merged_turn time e last m) m))
            × ((dedupe_text (merged_turn time e last m).content == m.last_emitted_text) ≡ false)
            × (time - last_ms ≤ m.settings.max_silence_before_force_end_ms))
  unfolding amend_with
  amend_with-cases time last_ms e last m =
      elim (Bool-cases (ltb m.settings.max_silence_before_force_end_ms (time - last_ms))) [
        | inl a ↦ rw a (inl refl)
        | inr a ↦ rw a (elim (Bool-cases (is_late_duplicate e.content time m)) [
          | inl b ↦ rw b (inl refl)
          | inr b ↦ rw b (elim (Bool-cases (is_nil (strip e.content))) [
            | inl c ↦ rw c (inl refl)
            | inr c ↦
                rw c
                  (elim (Bool-cases (
                    dedupe_text (merge_turn_text last.content (strip e.content))
                    == m.last_emitted_text)) [
                      | inl d ↦ rw d (inl refl)
                      | inr d ↦ rw d (inr (refl, refl, ground arith))
                    ])
          ])
        ])
      ]

  amend_with-Amends :
      (time last_ms : ℕ) (e : TranscriptEvent) (last : UserTurnFinal) (m : TurnManager)
      (t : UserTurnFinal)
      → (amend_with time last_ms e last m).0 ≡ some t
      → Amends time e m (amend_with time last_ms e last m).1 last t
        × (time - last_ms ≤ m.settings.max_silence_before_force_end_ms)
  amend_with-Amends time last_ms e last m t h = elim (amend_with-cases time last_ms e last m) [
    | inl a ↦ absurd (none-ne-some t (sym (ap (λ r. r.0) a) ∙ h))
    | inr (a, d, l) ↦
        let s : merged_turn time e last m ≡ t = some-injective _ _ (sym (ap (λ r. r.0) a) ∙ h) in
        (
          rw (sym s) (
              rw a (record {
                same_id = refl;
                same_start = refl;
                merged = refl;
                ends_at = refl;
                remembered = refl;
                says_other = λ q. different d q;
                same_state = refl;
              })),
          l,
        )
  ]

  amend_last-with :
      (now : ℕ) (e : TranscriptEvent) (received : Option ℕ) (m : TurnManager) (last : UserTurnFinal)
      (last_ms : ℕ)
      → m.last_emitted_turn ≡ some last
      → m.last_emitted_ms ≡ some last_ms
      → amend_last_emitted_turn now e received m
        ≡ amend_with (event_time now received e) last_ms e last m
  unfolding amend_last_emitted_turn
  amend_last-with now e received m last last_ms i j =
      ap (λ l. amend_last l m.last_emitted_ms (event_time now received e) e m) i
      ∙ ap (λ s. amend_last (some last) s (event_time now received e) e m) j

  -- If a transcript amends the last emitted turn, then it comes within the longest silence of the settings
  -- after that turn's end, and the amended turn keeps the number and the beginning, has the late text
  -- merged in and the transcript's time as its end, differs from the last emitted text up to case,
  -- white space and punctuation, and is the last emitted
  -- turn afterwards; the turn being gathered is left alone.
  pub amend_last_emitted_turn-Amends :
      (now : ℕ) (e : TranscriptEvent) (received : Option ℕ) (m : TurnManager)
      (last t : UserTurnFinal) (last_ms : ℕ)
      → m.last_emitted_turn ≡ some last
      → m.last_emitted_ms ≡ some last_ms
      → (amend_last_emitted_turn now e received m).0 ≡ some t
      → Amends (event_time now received e) e m (amend_last_emitted_turn now e received m).1 last t
        × (event_time now received e - last_ms ≤ m.settings.max_silence_before_force_end_ms)
  amend_last_emitted_turn-Amends now e received m last t last_ms i j h =
      let s = amend_last-with now e received m last last_ms i j in
      rw s (
        amend_with-Amends (event_time now received e) last_ms e last m t
          (sym (ap (λ r. r.0) s) ∙ h))
