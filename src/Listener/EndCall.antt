-- ===== src/Listener/EndCall.antt =====
-- core/listener/end_call_listener.py: EndCallListenerAgent. Confidences are integers of millionths. The
-- language model is a port: what `classify` answers or raises, within the time that it is given.
pub mod Intent
use voice_agent_v.Prelude.{
  ℕ, zero, suc, ◌+◌, ◌-◌, ℤ, pos, negsuc, Bool, true, false, not, ◌&&◌, ◌||◌, Option, none, some,
  List, [], ◌∷◌, ◌++◌, ◌==◌, list_eq, nat_eq, int_eq, any, is_nil, if◌then◌else◌,
}
use voice_agent_v.Prelude.Sets.{contains}
use voice_agent_v.Text.{Text, Unicode, text, strip, casefold}
use voice_agent_v.Playback.Message.{MessagePlayback, source_text}
use voice_agent_v.Playback.Heard.{estimate_heard_text}
use voice_agent_v.Listener.Payload.{Payload, decision_from_payload, or_text}
use voice_agent_v.Listener.Phrases.{normalize_listener_text, contains_phrase}

pub record EndCallDecision : Type 0 where
  pub should_hangup : Bool
  pub confidence : ℤ
  pub reason : Text
  pub source : Text
  pub text : Text

-- The settings that the listener reads.
pub record EndCallSettings : Type 0 where
  pub end_call_listener_enabled : Bool
  pub end_call_listener_confidence_threshold : ℤ
  pub end_call_listener_timeout_ms : ℕ
  pub end_call_phrases : List Text

-- The Hindi phrases stand as the source has them: each byte of their UTF-8 became a character.
unfoldable pub end_phrases : List Text
end_phrases =
    text "bye"
    ∷ text "byy"
    ∷ text "goodbye"
    ∷ text "alvida"
    ∷ text "baay"
    ∷ text "à¤…à¤²à¤µà¤¿à¤¦à¤¾"
    ∷ text "à¤¬à¤¾à¤¯"
    ∷ text "cut call"
    ∷ text "call cut"
    ∷ text "end call"
    ∷ text "call kaat"
    ∷ text "kaat do"
    ∷ text "hang up"
    ∷ text "disconnect"
    ∷ text "à¤•à¥‰à¤² à¤•à¤¾à¤Ÿ"
    ∷ text "à¤•à¤¾à¤Ÿ à¤¦à¥‹"
    ∷ []

unfoldable pub looks_like_user_end_intent : ⦃u : Unicode⦄ → Text → Bool
unfolding normalize_listener_text contains_phrase
looks_like_user_end_intent t =
    let normalized = normalize_listener_text t in
    not (is_nil normalized)
    && any (λ phrase. contains_phrase normalized (normalize_listener_text phrase)) end_phrases

-- The test of one phrase of the settings against the normalized text of the caller.
unfoldable pub is_phrase_of : ⦃u : Unicode⦄ → Text → Text → Bool
unfolding normalize_listener_text contains_phrase
is_phrase_of normalized phrase =
    let p = normalize_listener_text phrase in not (is_nil p) && contains_phrase normalized p

unfoldable pub first_phrase : ⦃u : Unicode⦄ → Text → List Text → Option Text
unfolding is_phrase_of
first_phrase normalized [] = none
first_phrase normalized (phrase ∷ phrases) =
    let rest = first_phrase normalized phrases in
    if is_phrase_of normalized phrase then some phrase else rest

abbrev pub by_phrase : Text → Option Text → EndCallDecision
by_phrase assistant (some phrase) = record {
  should_hangup = true;
  confidence = pos 1000000;
  reason = text "matched_phrase:" ++ phrase;
  source = text "phrase";
  text = assistant;
}
by_phrase assistant none = record {
  should_hangup = false;
  confidence = pos 0;
  reason = text "no_user_end_phrase_match";
  source = text "phrase";
  text = assistant;
}

unfoldable pub phrase_decision : ⦃u : Unicode⦄ → List Text → Text → Text → EndCallDecision
unfolding first_phrase normalize_listener_text
phrase_decision phrases user assistant =
    by_phrase assistant (first_phrase (normalize_listener_text user) phrases)

abbrev prompt : Text → Text → Text
prompt assistant user =
    text "You are a silent call-end listener for a live phone agent. Decide whether the "
    ++ (text "caller's latest user turn clearly asks to end or cut the call. Return JSON "
        ++ (text "only.\n\nLatest user turn: "
            ++ (user
                ++ (text "\nLatest assistant message heard by caller: "
                    ++ (assistant
                        ++ (text
                              "\n\nSet should_hangup true only when the latest user turn clearly contains an "
                            ++ (text
                                  "end-call intent such as cut call, hang up, bye, byy, goodbye, alvida, "
                                ++ (text "à¤…à¤²à¤µà¤¿à¤¦à¤¾, à¤¬à¤¾à¤¯, or a mixed phrase like à¤"
                                    ++ 160 ∷ text "à¥€à¤• à¤¹à¥ˆ bye. "
                                    ++ (text
                                          "Keep it false for thank you, ok, haan, theek hai, acknowledgments, or when "
                                        ++ (text "only the assistant used goodbye words."))))))))))

pub data Answer : Type 0 where
  answered : Payload → Answer
  failed : Text → Answer

-- llm.classify with a timeout in milliseconds; a timeout is an exception too.
pub record ListenerPort (W : Type 0) : Type 0 where
  pub classify : Text → ℕ → W → Answer × W

pub data Evaluation : Type 0 where
  absent : Evaluation
  decided : EndCallDecision → Evaluation
  raised : Text → Evaluation

-- The decision after an answer. The second test of the intent is the source's.
unfoldable pub after_answer : ⦃u : Unicode⦄ → Text → Text → Answer → Evaluation
unfolding decision_from_payload looks_like_user_end_intent
after_answer user assistant (failed message) = raised message
after_answer user assistant (answered p) =
    let v = decision_from_payload p in
    let rejected = v.hangs_up && not (looks_like_user_end_intent user) in
    decided (record {
      should_hangup = if rejected then false else v.hangs_up;
      confidence = if rejected then pos 0 else v.confidence;
      reason = if rejected then text "rejected_without_user_end_intent:" ++ v.reason else v.reason;
      source = text "llm";
      text = assistant;
    })

module _ {W : Type 0} ⦃u : Unicode⦄ (settings : EndCallSettings) (llm : ListenerPort W) where
  unfoldable pub ask : Text → Text → W → Evaluation × W
  unfolding after_answer
  ask user assistant w =
      let (answer, w') =
        llm.classify (prompt assistant user) settings.end_call_listener_timeout_ms w in
      (after_answer user assistant answer, w')

  -- The two texts, without white space at their ends.
  unfoldable pub evaluate_texts : Text → Text → W → Evaluation × W
  unfolding phrase_decision looks_like_user_end_intent ask
  evaluate_texts user assistant w =
      let d = phrase_decision settings.end_call_phrases user assistant in
      if is_nil assistant && is_nil user
      then (absent, w)
      else if d.should_hangup || not (looks_like_user_end_intent user)
      then (decided d, w)
      else ask user assistant w

  unfoldable pub evaluate : MessagePlayback → Text → W → Evaluation × W
  unfolding evaluate_texts strip
  evaluate playback latest_user_text w =
      if settings.end_call_listener_enabled
      then evaluate_texts (strip latest_user_text)
          (or_text (strip (estimate_heard_text playback)) (strip (source_text playback))) w
      else (absent, w)
