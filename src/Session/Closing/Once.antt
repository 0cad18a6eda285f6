-- ===== src/Session/Closing/Once.antt =====
-- core/session_orchestrator.py: the calls to hang up, and the state that a shutdown leaves.
use mathlib.Core.Path.{subst}
use mathlib.Core.Option.{none-ne-some}
use voice_agent_v.Prelude.{
  ℕ, suc, ◌≡◌, ◌⊎◌, refl, ap, ◌∙◌, Bool, true, false, Option, none, some, List, [], ◌∷◌, arith,
  is_nil, not, ◌&&◌, ◌||◌, Bool-cases, inl, inr,
}
use voice_agent_v.Text.{Text, text, Unicode, strip}
use voice_agent_v.Playback.Message.{MessagePlayback}
use voice_agent_v.Listener.EndCall.{
  EndCallDecision, EndCallSettings, ListenerPort, Evaluation, absent, decided, raised, evaluate,
  end_phrases, evaluate_texts, ask, phrase_decision, looks_like_user_end_intent,
}
use voice_agent_v.Listener.EndCall.Intent.{Says, ends_call, evaluate-Says}
use voice_agent_v.Session.Closing.{
  CallPorts, Call, CallState, is_closed, Outcome, at_world, in_turn, finalize_closed, closed_after,
  shutdown, closing_calls, hangup_calls, then_shutdown, after_silence, request_call_hangup, is_sure,
  after_evaluation, maybe_hangup_after_assistant_turn,
}

-- The fields that count the hangups.
abbrev pub Marks : {W : Type 0} → Call W → Bool → ℕ → Type 0
Marks c h n = (c.hangup_started ≡ h) × (c.end_call_listener_hangups ≡ n)

-- How often the phone's connection has been told to hang up, in a world: each such call counts, and
-- nothing else that is called does.
pub record CountsHangups {W : Type 0} (llm : ListenerPort W) (ports : CallPorts W) (count : W → ℕ)
    : Type 0 where
  pub hangs_up : (reason : Text) (w : W) → count (ports.telephony_hangup reason w).1 ≡ suc (count w)
  pub classifies :
      (prompt : Text) (timeout_ms : ℕ) (w : W)
      → count (llm.classify prompt timeout_ms w).1 ≡ count w
  pub silences : (w : W) → count (ports.silence w).1 ≡ count w
  pub cancels : (id : Text) (w : W) → count (ports.llm_cancel id w).1 ≡ count w
  pub saves_state : (w : W) → count (ports.save_live_state w).1 ≡ count w
  pub sends_eos : (w : W) → count (ports.send_eos_to_all_queues w).1 ≡ count w
  pub stops : (reason : Text) (w : W) → count (ports.stop_providers reason w).1 ≡ count w
  pub awaits : (w : W) → count (ports.await_tasks w) ≡ count w
  pub saves_call : (w : W) → count (ports.save_call w).1 ≡ count w
  pub deletes : (w : W) → count (ports.delete_call_state w).1 ≡ count w
  pub logs : (w : W) → count (ports.stop_logger w).1 ≡ count w

-- One more call to hang up than `n`, or an exception before it.
abbrev pub HungUp : {W : Type 0} → (W → ℕ) → ℕ → Option Text → W → Type 0
HungUp count n e w = (count w ≡ suc n) ⊎ (((x : Text) × (e ≡ some x)) × (count w ≡ n))

module _ {W : Type 0} (ports : CallPorts W) where
  at_world-Marks :
      (c : Call W) (r : Option Text × W) {h : Bool} {n : ℕ}
      → Marks c h n
      → Marks (at_world c r).1 h n
  unfolding at_world
  at_world-Marks c (e, w) k = k

  finalize_closed-Marks :
      (now : ℕ) (c : Call W) {h : Bool} {n : ℕ}
      → Marks c h n
      → Marks (finalize_closed ports now c).1 h n
  unfolding finalize_closed at_world
  finalize_closed-Marks now c k = ground arith

  closed_after-Marks :
      (now : ℕ) (o : Outcome W) {h : Bool} {n : ℕ}
      → Marks o.1 h n
      → Marks (closed_after ports now o).1 h n
  unfolding closed_after
  closed_after-Marks now (some e, c) k = k
  closed_after-Marks now (none, c) k =
      finalize_closed-Marks now (record c { world = ports.await_tasks c.world }) k

  shutdown-Marks :
      (reason : Text) (now : ℕ) (c : Call W) {h : Bool} {n : ℕ}
      → Marks c h n
      → Marks (shutdown ports reason now c).1 h n
  unfolding shutdown
  shutdown-Marks reason now c k = elim (Bool-cases c.shutdown_started) [
    | inl e ↦ simp e k
    | inr e ↦
        let c' = record c { shutdown_started = true; state = CallState.closing } in
        let r = in_turn (closing_calls ports reason) (none, c.world) in
        simp e (closed_after-Marks now (at_world c' r) (at_world-Marks c' r k))
  ]

  then_shutdown-Marks :
      (reason : Text) (now : ℕ) (o : Outcome W) {h : Bool} {n : ℕ}
      → Marks o.1 h n
      → Marks (then_shutdown ports reason now o).1 h n
  unfolding then_shutdown
  then_shutdown-Marks reason now (some e, c) k = k
  then_shutdown-Marks reason now (none, c) k = shutdown-Marks reason now c k

  after_silence-Marks :
      (reason : Text) (now : ℕ) (o : Outcome W) {h : Bool} {n : ℕ}
      → Marks o.1 h n
      → Marks (after_silence ports reason now o).1 h n
  unfolding after_silence
  after_silence-Marks reason now (some e, c) k = k
  after_silence-Marks reason now (none, c) k =
      let c' = record c { llm = record c.llm { is_running = false } } in
      let r = in_turn (hangup_calls ports reason c.llm.response_id) (none, c.world) in
      then_shutdown-Marks reason now (at_world c' r) (at_world-Marks c' r k)

  -- A request leaves its mark, also where one of its calls raises.
  request_call_hangup-Marks :
      (reason : Text) (now : ℕ) (c : Call W) (n : ℕ)
      → c.end_call_listener_hangups ≡ n
      → Marks (request_call_hangup ports reason now c).1 true n
  unfolding request_call_hangup
  request_call_hangup-Marks reason now c n k = elim (Bool-cases c.hangup_started) [
    | inl e ↦ simp e (refl, k)
    | inr e ↦
        let c' = record c { hangup_started = true } in
        let r = ports.silence c.world in
        simp e (after_silence-Marks reason now (at_world c' r) (at_world-Marks c' r (refl, k)))
  ]

  closed_after-started :
      (now : ℕ) (o : Outcome W)
      → o.1.shutdown_started ≡ true
      → (closed_after ports now o).1.shutdown_started ≡ true
  unfolding closed_after finalize_closed at_world
  closed_after-started now (some e, c) k = k
  closed_after-started now (none, c) k = ground arith

  shutdown-started :
      (reason : Text) (now : ℕ) (c : Call W)
      → (shutdown ports reason now c).1.shutdown_started ≡ true
  unfolding shutdown
  shutdown-started reason now c = elim (Bool-cases c.shutdown_started) [
    | inl e ↦ simp e
    | inr e ↦
        let c' = record c { shutdown_started = true; state = CallState.closing } in
        let r = in_turn (closing_calls ports reason) (none, c.world) in
        simp e (closed_after-started now (at_world c' r) (unfold at_world in refl))
  ]

  -- However the first shutdown went, a second one does nothing and raises nothing.
  pub shutdown-shutdown :
      (first second : Text) (now later : ℕ) (c : Call W)
      → let c' = (shutdown ports first now c).1 in shutdown ports second later c' ≡ (none, c')
  shutdown-shutdown first second now later c =
      unfold shutdown in rw (shutdown-started first now c) refl

  module _ ⦃u : Unicode⦄ (settings : EndCallSettings) (llm : ListenerPort W) where
    is_sure-asks :
        (d : EndCallDecision) → is_sure settings llm ports d ≡ true → d.should_hangup ≡ true
    unfolding is_sure
    is_sure-asks d e = ground arith

    -- A call that is being hung up is not checked again.
    pub maybe_hangup_again :
        (now : ℕ) (playback : MessagePlayback) (latest_user_text : Text) (c : Call W)
        → c.hangup_started ≡ true
        → maybe_hangup_after_assistant_turn settings llm ports now playback latest_user_text c
          ≡ (none, c)
    unfolding maybe_hangup_after_assistant_turn
    maybe_hangup_again now playback latest_user_text c e = simp e

    maybe_hangup_open :
        (now : ℕ) (playback : MessagePlayback) (latest_user_text : Text) (c : Call W)
        → c.hangup_started ≡ false
        → let (evaluation, w) = evaluate settings llm playback latest_user_text c.world in
          maybe_hangup_after_assistant_turn settings llm ports now playback latest_user_text c
          ≡ after_evaluation settings llm ports now evaluation
              (record c { world = w; end_call_listener_checks = suc c.end_call_listener_checks })
    unfolding maybe_hangup_after_assistant_turn
    maybe_hangup_open now playback latest_user_text c e = simp e

  module _ ⦃u : Unicode⦄ (settings : EndCallSettings) (llm : ListenerPort W) (count : W → ℕ)
      (h : CountsHangups llm ports count) where
    -- Calls that are not counted.
    abbrev Silent : List (W → Option Text × W) → Type 0
    Silent [] = Unit
    Silent (f ∷ fs) = ((w : W) → count (f w).1 ≡ count w) × Silent fs

    evaluate_texts-count :
        (user assistant : Text) (w : W)
        → count (evaluate_texts settings llm user assistant w).1 ≡ count w
    unfolding evaluate_texts ask
    evaluate_texts-count user assistant w =
        let d = phrase_decision settings.end_call_phrases user assistant in
        elim (Bool-cases (is_nil assistant && is_nil user)) [
          | inl e ↦ rw e refl
          | inr e ↦
              rw e (elim (Bool-cases (d.should_hangup || not (looks_like_user_end_intent user))) [
                | inl f ↦ rw f refl
                | inr f ↦ rw f (h.classifies _ settings.end_call_listener_timeout_ms w)
              ])
        ]

    evaluate-count :
        (p : MessagePlayback) (t : Text) (w : W) → count (evaluate settings llm p t w).1 ≡ count w
    unfolding evaluate
    evaluate-count p t w = elim (Bool-cases settings.end_call_listener_enabled) [
      | inl e ↦ simp e (evaluate_texts-count (strip t) _ w)
      | inr e ↦ simp e
    ]

    in_turn-count :
        (fs : List (W → Option Text × W)) (r : Option Text × W)
        → Silent fs
        → count (in_turn fs r).1 ≡ count r.1
    unfolding in_turn
    in_turn-count [] r k = refl
    in_turn-count (f ∷ fs) (some e, w) k = refl
    in_turn-count (f ∷ fs) (none, w) k = in_turn-count fs (f w) k.1 ∙ k.0 w

    finalize_closed-count :
        (now : ℕ) (c : Call W) → count (finalize_closed ports now c).1.world ≡ count c.world
    unfolding finalize_closed at_world
    finalize_closed-count now c = elim (Bool-cases (is_closed c.state)) [
      | inl e ↦ simp e
      | inr e ↦ simp e (
          in_turn-count (ports.save_call ∷ ports.delete_call_state ∷ ports.stop_logger ∷ [])
            (none, c.world) (h.saves_call, (h.deletes, (h.logs, tt))))
    ]

    closed_after-count :
        (now : ℕ) (o : Outcome W) → count (closed_after ports now o).1.world ≡ count o.1.world
    unfolding closed_after
    closed_after-count now (some e, c) = refl
    closed_after-count now (none, c) =
        finalize_closed-count now (record c { world = ports.await_tasks c.world })
        ∙ h.awaits c.world

    shutdown-count :
        (reason : Text) (now : ℕ) (c : Call W)
        → count (shutdown ports reason now c).1.world ≡ count c.world
    unfolding shutdown at_world
    shutdown-count reason now c = elim (Bool-cases c.shutdown_started) [
      | inl e ↦ simp e
      | inr e ↦ simp e (
          closed_after-count now (
            at_world (record c { shutdown_started = true; state = CallState.closing })
              (in_turn (closing_calls ports reason) (none, c.world)))
          ∙ in_turn-count (closing_calls ports reason) (none, c.world)
              (unfold closing_calls in (h.saves_state, (h.sends_eos, (h.stops reason, tt)))))
    ]

    hangup_calls-HungUp :
        (reason : Text) (response : Option Text) (w : W)
        → let r = in_turn (hangup_calls ports reason response) (none, w) in
          HungUp count (count w) r.0 r.1
    unfolding hangup_calls in_turn
    hangup_calls-HungUp reason none w = inl (h.hangs_up reason w)
    hangup_calls-HungUp reason (some id) w = go (ports.llm_cancel id w) (h.cancels id w)
      where
        go :
            (r : Option Text × W)
            → count r.1 ≡ count w
            → let o = in_turn (ports.telephony_hangup reason ∷ []) r in
              HungUp count (count w) o.0 o.1
        go (some e, v) k = inr ((e, refl), k)
        go (none, v) k = inl (h.hangs_up reason v ∙ ap suc k)

    then_shutdown-HungUp :
        (n : ℕ) (reason : Text) (now : ℕ) (o : Outcome W)
        → HungUp count n o.0 o.1.world
        → let o' = then_shutdown ports reason now o in HungUp count n o'.0 o'.1.world
    unfolding then_shutdown
    then_shutdown-HungUp n reason now (some e, c) k = k
    then_shutdown-HungUp n reason now (none, c) (inl k) = inl (shutdown-count reason now c ∙ k)
    then_shutdown-HungUp n reason now (none, c) (inr ((x, q), k)) = absurd (none-ne-some x q)

    after_silence-HungUp :
        (n : ℕ) (reason : Text) (now : ℕ) (o : Outcome W)
        → count o.1.world ≡ n
        → let o' = after_silence ports reason now o in HungUp count n o'.0 o'.1.world
    unfolding after_silence at_world
    after_silence-HungUp n reason now (some e, c) k = inr ((e, refl), k)
    after_silence-HungUp n reason now (none, c) k =
        let r = in_turn (hangup_calls ports reason c.llm.response_id) (none, c.world) in
        then_shutdown-HungUp n reason now
          (at_world (record c { llm = record c.llm { is_running = false } }) r)
          (subst (λ m. HungUp count m r.0 r.1) k
            (hangup_calls-HungUp reason c.llm.response_id c.world))

    request_call_hangup-HungUp :
        (n : ℕ) (reason : Text) (now : ℕ) (c : Call W)
        → c.hangup_started ≡ false
        → count c.world ≡ n
        → let o = request_call_hangup ports reason now c in HungUp count n o.0 o.1.world
    unfolding request_call_hangup at_world
    request_call_hangup-HungUp n reason now c e k =
        let o = at_world (record c { hangup_started = true }) (ports.silence c.world) in
        simp e (after_silence-HungUp n reason now o (h.silences c.world ∙ k))

    after_evaluation-once :
        (now : ℕ) (e : Evaluation) (c : Call W)
        → Marks c false 0
        → let o = after_evaluation settings llm ports now e c in
          (Marks o.1 false 0 × (count o.1.world ≡ count c.world))
          ⊎ (Marks o.1 true 1 × HungUp count (count c.world) o.0 o.1.world × (ends_call e ≡ true))
    unfolding after_evaluation
    after_evaluation-once now absent c k = inl (k, refl)
    after_evaluation-once now (raised message) c k = inl (k, refl)
    after_evaluation-once now (decided d) c k = elim (Bool-cases (is_sure settings llm ports d)) [
      | inl e ↦
          let c' = record c { end_call_listener_hangups = suc c.end_call_listener_hangups } in
          rw e (
            inr (
              request_call_hangup-Marks (text "end_call_listener") now c' 1 (ap suc k.1),
              request_call_hangup-HungUp (count c.world) (text "end_call_listener") now c' k.0 refl,
              is_sure-asks settings llm d e,
            ))
      | inr e ↦ rw e (inl (k, refl))
    ]

    -- Where the call has not been hung up, the check after a turn of the assistant either leaves it so,
    -- and the phone's connection is not told to hang up; or it marks the call as hung up, for the first
    -- time, and the phone's connection is told so exactly once, unless an exception comes before that.
    -- The second case comes only where the listener is enabled and the caller's latest words hold one
    -- of the phrases that end a call: whatever the language model answers and whichever calls raise,
    -- where no other call than that to hang up counts as one.
    pub maybe_hangup-Says :
        (now : ℕ) (playback : MessagePlayback) (latest_user_text : Text) (c : Call W)
        → Marks c false 0
        → let o =
            maybe_hangup_after_assistant_turn settings llm ports now playback latest_user_text c in
          (Marks o.1 false 0 × (count o.1.world ≡ count c.world))
          ⊎ (Marks o.1 true 1
              × HungUp count (count c.world) o.0 o.1.world
              × (settings.end_call_listener_enabled ≡ true)
              × (Says settings.end_call_phrases (strip latest_user_text)
                  ⊎ Says end_phrases (strip latest_user_text)))
    maybe_hangup-Says now playback latest_user_text c k =
        let r = evaluate settings llm playback latest_user_text c.world in
        let c' = record c {
          world = r.1;
          end_call_listener_checks = suc c.end_call_listener_checks;
        } in
        let o = after_evaluation settings llm ports now r.0 c' in
        let same = evaluate-count playback latest_user_text c.world in
        rw (maybe_hangup_open settings llm now playback latest_user_text c k.0)
          elim (after_evaluation-once now r.0 c' k) [
            | inl (marks, none_counted) ↦ inl (marks, none_counted ∙ same)
            | inr (marks, hung, ends) ↦
                let says = evaluate-Says settings llm playback latest_user_text c.world ends in
                inr (marks, subst (λ n. HungUp count n o.0 o.1.world) same hung, says.0, says.1)
          ]
