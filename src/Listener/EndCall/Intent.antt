-- ===== src/Listener/EndCall/Intent.antt =====
-- Whose words end the call.
use voice_agent_v.Prelude.{
  ◌≡◌, ◌⊎◌, refl, Bool, true, false, not, ◌&&◌, ◌||◌, Option, none, some, List, [], ◌∷◌, list_eq,
  nat_eq, any, is_nil, arith, inl, inr, Bool-cases, eq_refl,
}
use mathlib.Core.Option.{none-ne-some}
use voice_agent_v.Prelude.Sets.{contains}
use voice_agent_v.Text.{Text, Unicode, strip, split}
use voice_agent_v.Playback.Message.{MessagePlayback, source_text}
use voice_agent_v.Playback.Heard.{estimate_heard_text}
use voice_agent_v.Listener.Payload.{or_text}
use voice_agent_v.Listener.Phrases.{normalize_listener_text, contains_phrase}
use voice_agent_v.Listener.Phrases.Windows.{Infix, contains_phrase-Infix}
use voice_agent_v.Listener.EndCall.{
  EndCallSettings, ListenerPort, Evaluation, absent, decided, raised, end_phrases,
  looks_like_user_end_intent, is_phrase_of, first_phrase, by_phrase, phrase_decision,
  evaluate_texts, evaluate,
}

module _ ⦃u : Unicode⦄ where
  -- The words of one of the phrases stand together in the normalized text.
  abbrev pub Says : List Text → Text → Type 0
  Says phrases t =
      (phrase : Text) × (contains phrase phrases ≡ true)
      × Infix (split (normalize_listener_text phrase)) (split (normalize_listener_text t))

  any-member :
      (p : Text → Bool) (xs : List Text)
      → any p xs ≡ true
      → (x : Text) × (contains x xs ≡ true) × (p x ≡ true)
  any-member p [] h = absurd (ground arith)
  any-member p (x ∷ xs) h = elim (Bool-cases (p x)) [
    | inl e ↦ (x, rw (eq_refl x) refl, e)
    | inr e ↦
        let later = any-member p xs (ground arith) in (later.0, rw later.1 (ground arith), later.2)
  ]

  and-left : (a b : Bool) → (a && b) ≡ true → a ≡ true
  and-left a b h = ground arith

  and-right : (a b : Bool) → (a && b) ≡ true → b ≡ true
  and-right a b h = ground arith

  looks_like-Says : (t : Text) → looks_like_user_end_intent t ≡ true → Says end_phrases t
  unfolding looks_like_user_end_intent
  looks_like-Says t h =
      let normalized = normalize_listener_text t in
      let p : Text → Bool = λ phrase. contains_phrase normalized (normalize_listener_text phrase) in
      let m =
        any-member p end_phrases (and-right (not (is_nil normalized)) (any p end_phrases) h) in
      (m.0, m.1, ((contains_phrase-Infix normalized (normalize_listener_text m.0)).0 m.2).1)

  is_phrase_of-Infix :
      (t p : Text)
      → is_phrase_of (normalize_listener_text t) p ≡ true
      → Infix (split (normalize_listener_text p)) (split (normalize_listener_text t))
  unfolding is_phrase_of
  is_phrase_of-Infix t p h =
      let words = normalize_listener_text p in
      let found : contains_phrase (normalize_listener_text t) words ≡ true =
        and-right (not (is_nil words)) (contains_phrase (normalize_listener_text t) words) h in
      ((contains_phrase-Infix (normalize_listener_text t) words).0 found).1

  first_phrase-Says :
      (t : Text) (phrases : List Text) (phrase : Text)
      → first_phrase (normalize_listener_text t) phrases ≡ some phrase
      → Says phrases t
  unfolding first_phrase
  first_phrase-Says t [] phrase h = absurd (none-ne-some phrase h)
  first_phrase-Says t (p ∷ phrases) phrase h =
      elim (Bool-cases (is_phrase_of (normalize_listener_text t) p)) [
        | inl e ↦ (p, rw (eq_refl p) refl, is_phrase_of-Infix t p e)
        | inr e ↦
            let rest : first_phrase (normalize_listener_text t) phrases ≡ some phrase = rw e at h in
            let later = first_phrase-Says t phrases phrase rest in
            (later.0, rw later.1 (ground arith), later.2)
      ]

-- The evaluation asks for the end of the call.
abbrev pub ends_call : Evaluation → Bool
ends_call absent = false
ends_call (decided d) = d.should_hangup
ends_call (raised message) = false

module _ {W : Type 0} ⦃u : Unicode⦄ (settings : EndCallSettings) (llm : ListenerPort W) where
  by_phrase-Says :
      (user assistant : Text) (o : Option Text)
      → ((phrase : Text) → o ≡ some phrase → Says settings.end_call_phrases user)
      → (by_phrase assistant o).should_hangup ≡ true
      → Says settings.end_call_phrases user
  by_phrase-Says user assistant none found h = absurd (ground arith)
  by_phrase-Says user assistant (some phrase) found h = found phrase refl

  phrase_decision-Says :
      (user assistant : Text)
      → (phrase_decision settings.end_call_phrases user assistant).should_hangup ≡ true
      → Says settings.end_call_phrases user
  unfolding phrase_decision
  phrase_decision-Says user assistant h =
      by_phrase-Says user assistant
        (first_phrase (normalize_listener_text user) settings.end_call_phrases)
        (λ phrase. first_phrase-Says user settings.end_call_phrases phrase) h

  or-not : (a b : Bool) → (a || not b) ≡ false → b ≡ true
  or-not a b h = ground arith

  -- Which of the three ways the evaluation of the texts goes.
  evaluate_texts-Says :
      (user assistant : Text) (w : W)
      → ends_call (evaluate_texts settings llm user assistant w).0 ≡ true
      → Says settings.end_call_phrases user ⊎ Says end_phrases user
  unfolding evaluate_texts
  evaluate_texts-Says user assistant w h =
      let d = phrase_decision settings.end_call_phrases user assistant in
      elim (Bool-cases (is_nil assistant && is_nil user)) [
        | inl e ↦ absurd (no_end (rw e at h))
        | inr e ↦ elim (Bool-cases (d.should_hangup || not (looks_like_user_end_intent user))) [
          | inl f ↦ inl (phrase_decision-Says user assistant (rw (e, f) at h))
          | inr f ↦
              inr
                (looks_like-Says user (or-not d.should_hangup (looks_like_user_end_intent user) f))
        ]
      ]
    where
      no_end : false ≡ true → ⊥
      no_end k = ground arith

  -- The call is ended only where the listener is enabled and the caller's latest words hold a phrase
  -- of the settings or of the listener's own list, word for word and next to each other: whatever the
  -- language model answers, and whatever the agent itself has said.
  pub evaluate-Says :
      (playback : MessagePlayback) (latest_user_text : Text) (w : W)
      → ends_call (evaluate settings llm playback latest_user_text w).0 ≡ true
      → (settings.end_call_listener_enabled ≡ true)
        × (Says settings.end_call_phrases (strip latest_user_text)
            ⊎ Says end_phrases (strip latest_user_text))
  unfolding evaluate
  evaluate-Says playback latest_user_text w h =
      elim (Bool-cases settings.end_call_listener_enabled) [
        | inl e ↦ (e, evaluate_texts-Says (strip latest_user_text) _ w (rw e at h))
        | inr e ↦ absurd (ap-absurd (rw e at h))
      ]
    where
      ap-absurd : false ≡ true → ⊥
      ap-absurd k = ground arith

  -- Without such words in the caller's latest turn, the language model is not even asked: the world
  -- stays as it is, no exception is raised and the call goes on.
  pub evaluate_unasked :
      (playback : MessagePlayback) (latest_user_text : Text) (w : W)
      → looks_like_user_end_intent (strip latest_user_text) ≡ false
      → first_phrase (normalize_listener_text (strip latest_user_text)) settings.end_call_phrases
        ≡ none
      → ((evaluate settings llm playback latest_user_text w).1 ≡ w)
        × (ends_call (evaluate settings llm playback latest_user_text w).0 ≡ false)
  unfolding evaluate evaluate_texts phrase_decision
  evaluate_unasked playback latest_user_text w h e =
      let assistant =
        or_text (strip (estimate_heard_text playback)) (strip (source_text playback)) in
      elim (Bool-cases settings.end_call_listener_enabled) [
        | inl f ↦
            rw (f, h, e)
              elim (Bool-cases (is_nil assistant && is_nil (strip latest_user_text))) [
                | inl g ↦ rw g (refl, refl)
                | inr g ↦ rw g (refl, refl)
              ]
        | inr f ↦ rw f (refl, refl)
      ]
