-- ===== src/Session/TurnCheck/Progress.antt =====
-- What the next look at the turn finds, if nothing is heard until then.
use voice_agent_v.Prelude.{
  ℕ, suc, ◌+◌, ◌-◌, max, ◌≤◌, ◌<◌, ◌≡◌, ◌≢◌, ◌⊎◌, refl, sym, ap, ◌∙◌, Bool, true, false, Option,
  none, some, arith, is_nil, or_ms, inl, inr, Bool-cases,
}
use mathlib.Core.Path.{subst}
use mathlib.Core.Option.{none-ne-some, some-injective}
use voice_agent_v.Text.{Unicode}
use voice_agent_v.Turn.State.{TurnState, turn_text}
use voice_agent_v.Turn.Manager.{TurnManager}
use voice_agent_v.Turn.Evaluate.{
  TurnDecision, TurnReason, evaluate, evaluate_started, by_words, by_signals, silence_ms,
  speech_duration_ms, transcript_age_ms, inside_end_of_turn_grace, unfinalized,
}
use voice_agent_v.Session.TurnCheck.{RetrySettings, is_pending, delay_for, next_turn_check_delay_ms}

module _ ⦃u : Unicode⦄ where
  -- What holds at the time of an evaluation that has a reason to wait.
  abbrev pub Why : ℕ → ℕ → TurnManager → TurnReason → Type 0
  Why ts start m TurnReason.not_enough_silence =
      silence_ms ts m.state < m.settings.min_silence_for_turn_end_ms
  Why ts start m TurnReason.waiting_for_final_transcript =
      transcript_age_ms ts m.state < m.settings.max_silence_before_force_end_ms
  Why ts start m TurnReason.smart_turn_incomplete =
      silence_ms ts m.state < m.settings.max_silence_before_force_end_ms
  Why ts start m TurnReason.incomplete_connector =
      silence_ms ts m.state < m.settings.max_silence_before_force_end_ms
  Why ts start m TurnReason.end_of_turn_grace = inside_end_of_turn_grace ts m ≡ true
  Why ts start m TurnReason.speech_too_short =
      speech_duration_ms ts start m.state < m.settings.min_user_speech_ms
  Why ts start m _ = Unit

  by_signals-Why : (ts start : ℕ) (m : TurnManager) → Why ts start m (by_signals ts m).reason
  unfolding by_signals
  by_signals-Why ts start m = ground arith

  by_words-Why : (ts start : ℕ) (m : TurnManager) → Why ts start m (by_words ts m).reason
  unfolding by_words
  by_words-Why ts start m = ground (arith, by_signals-Why ts start m)

  evaluate_started-Why :
      (ts start : ℕ) (m : TurnManager) → Why ts start m (evaluate_started ts start m).reason
  unfolding evaluate_started
  evaluate_started-Why ts start m = ground (arith, by_words-Why ts start m)

  -- A time that is recorded, not 0 and not in the future.
  abbrev pub IsAt : ℕ → Option ℕ → Type 0
  IsAt now o = (a : ℕ) × (o ≡ some (suc a)) × (suc a ≤ now)

  -- The times that the waiting is measured from. There may be none of speech, in a turn that a
  -- transcript began, and none of the model.
  pub record IsHeard (now : ℕ) (s : TurnState) : Type 0 where
    pub speech : (s.last_speech_ms ≡ none) ⊎ IsAt now s.last_speech_ms
    pub transcript : IsAt now s.last_transcript_ms
    pub smart_turn : (s.smart_turn_ms ≡ none) ⊎ IsAt now s.smart_turn_ms

  module _ (now : ℕ) (m : TurnManager) (heard : IsHeard now m.state) where
    -- The silence is measured from the last speech or, if there was none, from the last transcript.
    silence_from : (a : ℕ) × ((ts : ℕ) → silence_ms ts m.state ≡ ts - suc a) × (suc a ≤ now)
    unfolding silence_ms
    silence_from = elim heard.speech [
      | inl missing ↦ (
        heard.transcript.0,
        λ ts. rw (missing, heard.transcript.1) (ground arith),
        heard.transcript.2,
      )
      | inr (a, at, past) ↦ (a, λ ts. rw at (ground arith), past)
    ]

    silence_at : (ts : ℕ) → silence_ms ts m.state ≡ ts - suc silence_from.0
    silence_at = silence_from.1

    age_at : (ts : ℕ) → transcript_age_ms ts m.state ≡ ts - suc heard.transcript.0
    unfolding transcript_age_ms
    age_at ts = rw (heard.transcript.1) (ground arith)

    true-ne-false : true ≡ false → ⊥
    true-ne-false q = ground arith

    or_ms-suc :
        (c : ℕ) → m.state.smart_turn_ms ≡ some (suc c) → suc c ≡ or_ms m.state.smart_turn_ms now
    or_ms-suc c e = rw e (ground arith)

    silence_later :
        (d bound : ℕ)
        → some (max 1 (bound - silence_ms now m.state)) ≡ some d
        → silence_ms (now + d) m.state < bound
        → ⊥
    silence_later d bound e w = omega (
      arith,
      some-injective (max 1 (bound - silence_ms now m.state)) d e,
      silence_at now,
      silence_at (now + d),
      silence_from.2,
    )

    age_later :
        (d bound : ℕ)
        → some (max 1 (bound - transcript_age_ms now m.state)) ≡ some d
        → transcript_age_ms (now + d) m.state < bound
        → ⊥
    age_later d bound e w = omega (
      arith,
      some-injective (max 1 (bound - transcript_age_ms now m.state)) d e,
      age_at now,
      age_at (now + d),
      heard.transcript.2,
    )

    grace_over :
        (d : ℕ)
        → delay_for now m TurnReason.end_of_turn_grace ≡ some d
        → inside_end_of_turn_grace (now + d) m ≡ false
    unfolding delay_for inside_end_of_turn_grace
    grace_over d e = elim heard.smart_turn [
      | inl missing ↦ rw missing refl
      | inr (c, at, past) ↦
          let wait : max 1 (m.settings.end_of_turn_grace_ms - (now - suc c)) ≡ d =
            ap (λ o. max 1 (m.settings.end_of_turn_grace_ms - (now - o))) (or_ms-suc c at)
            ∙ some-injective
                (max 1 (m.settings.end_of_turn_grace_ms - (now - or_ms m.state.smart_turn_ms now)))
                d e in
          rw at (ground (arith, wait))
    ]

    -- After the delay, the reason for it is gone.
    delay_for-Why :
        (start d : ℕ) (r : TurnReason)
        → r ≢ TurnReason.speech_too_short
        → delay_for now m r ≡ some d
        → Why (now + d) start m r
        → ⊥
    unfolding delay_for
    delay_for-Why start d TurnReason.speech_too_short n e w = n refl
    delay_for-Why start d TurnReason.not_enough_silence n e w =
        silence_later d m.settings.min_silence_for_turn_end_ms e w
    delay_for-Why start d TurnReason.waiting_for_final_transcript n e w =
        age_later d m.settings.max_silence_before_force_end_ms e w
    delay_for-Why start d TurnReason.smart_turn_incomplete n e w =
        silence_later d m.settings.max_silence_before_force_end_ms e w
    delay_for-Why start d TurnReason.incomplete_connector n e w =
        silence_later d m.settings.max_silence_before_force_end_ms e w
    delay_for-Why start d TurnReason.end_of_turn_grace n e w =
        true-ne-false (sym w ∙ grace_over d e)
    delay_for-Why start d _ n e w = absurd (none-ne-some d e)

    silence_still :
        (d e bound : ℕ)
        → some (max 1 (bound - silence_ms now m.state)) ≡ some d
        → silence_ms now m.state < bound
        → e < d
        → silence_ms (now + e) m.state < bound
    silence_still d e bound h w l = omega (
      arith,
      some-injective (max 1 (bound - silence_ms now m.state)) d h,
      silence_at now,
      silence_at (now + e),
      silence_from.2,
    )

    age_still :
        (d e bound : ℕ)
        → some (max 1 (bound - transcript_age_ms now m.state)) ≡ some d
        → transcript_age_ms now m.state < bound
        → e < d
        → transcript_age_ms (now + e) m.state < bound
    age_still d e bound h w l = omega (
      arith,
      some-injective (max 1 (bound - transcript_age_ms now m.state)) d h,
      age_at now,
      age_at (now + e),
      heard.transcript.2,
    )

    grace_still :
        (d e : ℕ)
        → delay_for now m TurnReason.end_of_turn_grace ≡ some d
        → inside_end_of_turn_grace now m ≡ true
        → e < d
        → inside_end_of_turn_grace (now + e) m ≡ true
    unfolding delay_for inside_end_of_turn_grace
    grace_still d e h w l = elim heard.smart_turn [
      | inl missing ↦ absurd (true-ne-false (sym w ∙ rw missing refl))
      | inr (c, at, past) ↦
          let wait : max 1 (m.settings.end_of_turn_grace_ms - (now - suc c)) ≡ d =
            ap (λ o. max 1 (m.settings.end_of_turn_grace_ms - (now - o))) (or_ms-suc c at)
            ∙ some-injective
                (max 1 (m.settings.end_of_turn_grace_ms - (now - or_ms m.state.smart_turn_ms now)))
                d h in
          rw at (ground (arith, wait, rw at at w))
    ]

    -- Before the delay is over, the reason for it is there.
    delay_for-Why_before :
        (start d e : ℕ) (r : TurnReason)
        → r ≢ TurnReason.speech_too_short
        → delay_for now m r ≡ some d
        → Why now start m r
        → e < d
        → Why (now + e) start m r
    unfolding delay_for
    delay_for-Why_before start d e TurnReason.speech_too_short n h w l = absurd (n refl)
    delay_for-Why_before start d e TurnReason.not_enough_silence n h w l =
        silence_still d e m.settings.min_silence_for_turn_end_ms h w l
    delay_for-Why_before start d e TurnReason.waiting_for_final_transcript n h w l =
        age_still d e m.settings.max_silence_before_force_end_ms h w l
    delay_for-Why_before start d e TurnReason.smart_turn_incomplete n h w l =
        silence_still d e m.settings.max_silence_before_force_end_ms h w l
    delay_for-Why_before start d e TurnReason.incomplete_connector n h w l =
        silence_still d e m.settings.max_silence_before_force_end_ms h w l
    delay_for-Why_before start d e TurnReason.end_of_turn_grace n h w l = grace_still d e h w l
    delay_for-Why_before start d e _ n h w l = absurd (none-ne-some d h)

  evaluate-started :
      (ts start : ℕ) (m : TurnManager)
      → m.state.emitted_turn ≡ false
      → m.state.user_started_ms ≡ some start
      → evaluate ts none m ≡ evaluate_started ts start m
  unfolding evaluate
  evaluate-started ts start m e s = simp (e, s)

  delay-of-reason :
      (now : ℕ) (r : RetrySettings) (speaking : Bool) (m : TurnManager) (d : ℕ)
      → next_turn_check_delay_ms now r speaking m ≡ some d
      → is_nil (turn_text m.state) ≡ false
      → (evaluate now none m).should_emit ≡ false
      → delay_for now m (evaluate now none m).reason ≡ some d
  unfolding next_turn_check_delay_ms
  delay-of-reason now r speaking m d h t e = elim (Bool-cases (is_pending m.state)) [
    | inl p ↦ rw (p, t, e) at h
    | inr p ↦ absurd (none-ne-some d (rw p at h))
  ]

  evaluate-Why :
      (ts start : ℕ) (m : TurnManager)
      → m.state.emitted_turn ≡ false
      → m.state.user_started_ms ≡ some start
      → Why ts start m (evaluate ts none m).reason
  evaluate-Why ts start m e s =
      subst (λ k. Why ts start m k) (ap TurnDecision.reason (sym (evaluate-started ts start m e s)))
        (evaluate_started-Why ts start m)

  -- Where the session waits before it looks at a turn with text again, nothing is heard until then,
  -- and the reason to wait is not that the caller spoke too shortly: the reason stays there until the
  -- delay is over, and the next look finds another one or none. So no reason is waited for in vain, and
  -- no look comes too early or too late. The last transcript is at a time that is not 0 and not to
  -- come, and so are the last speech and the last result of the model, if there are any.
  pub next_turn_check_progress :
      (now : ℕ) (r : RetrySettings) (speaking : Bool) (m : TurnManager) (d e start : ℕ)
      → IsHeard now m.state
      → m.state.emitted_turn ≡ false
      → m.state.user_started_ms ≡ some start
      → is_nil (turn_text m.state) ≡ false
      → next_turn_check_delay_ms now r speaking m ≡ some d
      → (evaluate now none m).should_emit ≡ false
      → (evaluate now none m).reason ≢ TurnReason.speech_too_short
      → e < d
      → Why (now + e) start m (evaluate now none m).reason
        × ((evaluate (now + d) none m).reason ≢ (evaluate now none m).reason)
  next_turn_check_progress now r speaking m d e start heard pending begun t h f n l =
      let reason = (evaluate now none m).reason in
      let delay = delay-of-reason now r speaking m d h t f in
      (
        delay_for-Why_before now m heard start d e reason n delay
            (evaluate-Why now start m pending begun) l,
        λ same. delay_for-Why now m heard start d reason n delay (
            subst (λ k. Why (now + d) start m k) same
              (evaluate-Why (now + d) start m pending begun)),
      )

  speech_duration_fixed :
      (ts start stop : ℕ) (m : TurnManager)
      → m.state.last_speech_ms ≡ some (suc stop)
      → speech_duration_ms ts start m.state ≡ suc stop - start
  unfolding speech_duration_ms
  speech_duration_fixed ts start stop m e = rw e (ground arith)

  evaluate_started-short :
      (ts start stop : ℕ) (m : TurnManager)
      → m.state.last_speech_ms ≡ some (suc stop)
      → is_nil (turn_text m.state) ≡ false
      → unfinalized m.state ≡ false
      → suc stop - start < m.settings.min_user_speech_ms
      → evaluate_started ts start m
        ≡ record { should_emit = false; reason = TurnReason.speech_too_short }
  unfolding evaluate_started
  evaluate_started-short ts start stop m spoke t final short =
      rw (t, final) (ground (arith, speech_duration_fixed ts start stop m spoke))

  delay-of-denied :
      (ts : ℕ) (r : RetrySettings) (speaking : Bool) (m : TurnManager)
      → m.state.emitted_turn ≡ false
      → m.state.is_user_speaking ≡ false
      → {start : ℕ} → m.state.user_started_ms ≡ some start
      → is_nil (turn_text m.state) ≡ false
      → evaluate ts none m ≡ record { should_emit = false; reason = TurnReason.speech_too_short }
      → next_turn_check_delay_ms ts r speaking m ≡ delay_for ts m TurnReason.speech_too_short
  unfolding next_turn_check_delay_ms
  delay-of-denied ts r speaking m pending quiet begun t denied =
      let is_waiting : is_pending m.state ≡ true =
        unfold is_pending in simp (pending, quiet, begun) in
      rw (is_waiting, t, denied) refl

  or_ms-zero : (n : ℕ) → or_ms (some n) 0 ≡ n
  or_ms-zero n = ground arith

  delay_for-short :
      (ts start stop : ℕ) (m : TurnManager)
      → m.state.user_started_ms ≡ some start
      → m.state.last_speech_ms ≡ some (suc stop)
      → delay_for ts m TurnReason.speech_too_short
        ≡ some (max 1 (m.settings.min_user_speech_ms - (suc stop - start)))
  unfolding delay_for
  delay_for-short ts start stop m begun spoke = rw begun (
      ap (λ n. some (max 1 (m.settings.min_user_speech_ms - n)))
        (speech_duration_fixed ts (or_ms (some start) 0) stop m spoke
          ∙ ap (λ k. suc stop - k) (or_ms-zero start)))

  -- A turn whose final text is there, but in which the speech that was measured is too short: no time
  -- ends it. At any later time the evaluation still denies it for the same reason, however long the
  -- caller has been silent, and the session only plans the next look.
  pub next_turn_check_stuck :
      (ts : ℕ) (r : RetrySettings) (speaking : Bool) (m : TurnManager) (start stop : ℕ)
      → m.state.emitted_turn ≡ false
      → m.state.is_user_speaking ≡ false
      → m.state.user_started_ms ≡ some start
      → m.state.last_speech_ms ≡ some (suc stop)
      → is_nil (turn_text m.state) ≡ false
      → unfinalized m.state ≡ false
      → suc stop - start < m.settings.min_user_speech_ms
      → (evaluate ts none m ≡ record { should_emit = false; reason = TurnReason.speech_too_short })
        × (next_turn_check_delay_ms ts r speaking m
            ≡ some (max 1 (m.settings.min_user_speech_ms - (suc stop - start))))
  next_turn_check_stuck ts r speaking m start stop pending quiet begun spoke t final short =
      let denied : evaluate ts none m
          ≡ record { should_emit = false; reason = TurnReason.speech_too_short } =
        evaluate-started ts start m pending begun
        ∙ evaluate_started-short ts start stop m spoke t final short in
      (
        denied,
        delay-of-denied ts r speaking m pending quiet begun t denied
            ∙ delay_for-short ts start stop m begun spoke,
      )
