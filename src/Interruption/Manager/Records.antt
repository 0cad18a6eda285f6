-- ===== src/Interruption/Manager/Records.antt =====
-- core/interruption/interruption_manager.py: the manager's counters, its candidate and its events.
use mathlib.Core.Path.{subst}
use voice_agent_v.Prelude.{
  ℕ, ℤ, suc, ◌+◌, ◌≡◌, refl, sym, false, Option, none, some, List, [], ◌∷◌, ◌++◌, arith, is_some,
}
use voice_agent_v.Text.{Text, Unicode}
use voice_agent_v.Contracts.{
  SpeechStart, SpeechStop, TranscriptEvent, InterruptionReason, InterruptionStarted,
  InterruptionRejected, speech_stop_without_confirmation, backchannel_phrase,
  force_interrupt_phrase, word_count_threshold, long_user_speech,
}
use voice_agent_v.Interruption.Phrases.{PhraseDecision, decide}
use voice_agent_v.Interruption.State.{
  Manager, InterruptionState, InterruptionEvent, started, refused, Result, decided, raised, note,
  reset_candidate, track_response, mark_agent_audio_sent, mark_agent_response_finished,
}
use voice_agent_v.Interruption.Manager.{
  Config, implied_start, confirm, shut_output, refuse, go_on, reject, judge, handle_transcript,
  handle_speech_start, handle_speech_stop,
}
use voice_agent_v.Interruption.Manager.Confirmed.{core, confirm-shields}

abbrev pub count_started : List InterruptionEvent → ℕ
count_started [] = 0
count_started (started e ∷ es) = suc (count_started es)
count_started (refused e ∷ es) = count_started es

abbrev pub count_refused : List InterruptionEvent → ℕ
count_refused [] = 0
count_refused (started e ∷ es) = count_refused es
count_refused (refused e ∷ es) = suc (count_refused es)

-- Each counter counts its events, and there is a candidate exactly when it has a start time.
pub record Coherent (s : InterruptionState) : Type 0 where
  pub confirmations : s.confirmed_count ≡ count_started s.events
  pub rejections : s.rejected_count ≡ count_refused s.events
  pub candidate : s.user_may_be_interrupting ≡ is_some s.user_interrupt_start_ms

count_started-append :
    (es : List InterruptionEvent) (e : InterruptionEvent)
    → count_started (es ++ e ∷ []) ≡ count_started es + count_started (e ∷ [])
count_started-append [] e = omega arith
count_started-append (started x ∷ es) e = omega (arith, count_started-append es e)
count_started-append (refused x ∷ es) e = count_started-append es e

count_refused-append :
    (es : List InterruptionEvent) (e : InterruptionEvent)
    → count_refused (es ++ e ∷ []) ≡ count_refused es + count_refused (e ∷ [])
count_refused-append [] e = omega arith
count_refused-append (started x ∷ es) e = count_refused-append es e
count_refused-append (refused x ∷ es) e = omega (arith, count_refused-append es e)

-- The errors do not matter.
core-Coherent : {s t : InterruptionState} → core t ≡ core s → Coherent s → Coherent t
core-Coherent {s} {t} p h =
    let q : Coherent (core t) = subst Coherent (sym p) (record {
      confirmations = h.confirmations;
      rejections = h.rejections;
      candidate = h.candidate;
    }) in
    record { confirmations = q.confirmations; rejections = q.rejections; candidate = q.candidate }

reset-Coherent : (s : InterruptionState) → Coherent s → Coherent (reset_candidate s)
unfolding reset_candidate
reset-Coherent s h = record {
  confirmations = h.confirmations;
  rejections = h.rejections;
  candidate = refl;
}

refused-Coherent :
    (s : InterruptionState) (x : InterruptionRejected)
    → Coherent s
    → Coherent (note (refused x) (record s { rejected_count = s.rejected_count + 1 }))
refused-Coherent s x h = record {
  confirmations = omega (arith, h.confirmations, count_started-append s.events (refused x));
  rejections = omega (arith, h.rejections, count_refused-append s.events (refused x));
  candidate = h.candidate;
}

started-Coherent :
    (s : InterruptionState) (x : InterruptionStarted)
    → Coherent s
    → Coherent (
        note
          (started x)
          (record s { confirmed_count = s.confirmed_count + 1; agent_is_speaking = false }))
started-Coherent s x h = record {
  confirmations = omega (arith, h.confirmations, count_started-append s.events (started x));
  rejections = omega (arith, h.rejections, count_refused-append s.events (started x));
  candidate = h.candidate;
}

module _ {W : Type 0} (c : Config W) where
  speech_start-Coherent :
      (e : SpeechStart) (m : Manager W)
      → Coherent m.state
      → Coherent (handle_speech_start c e m).1.state
  unfolding handle_speech_start
  speech_start-Coherent e m h = ground arith

  refuse-Coherent :
      (now : ℕ) (r : InterruptionReason) (t : Option Text) (p : Option PhraseDecision)
      (m : Manager W)
      → Coherent m.state
      → Coherent (refuse c now r t p m).1.state
  unfolding refuse
  refuse-Coherent now r t p m h = reset-Coherent _ (refused-Coherent m.state _ h)

  speech_stop-Coherent :
      (now : ℕ) (e : SpeechStop) (m : Manager W)
      → Coherent m.state
      → Coherent (handle_speech_stop c now e m).1.state
  unfolding handle_speech_stop
  speech_stop-Coherent now e m h = ground (
    arith,
    reset-Coherent m.state h,
    refuse-Coherent now speech_stop_without_confirmation none none m h,
  )

  reject-Coherent :
      (now : ℕ) (r : InterruptionReason) (p : PhraseDecision) (e : TranscriptEvent) (m : Manager W)
      → Coherent m.state
      → Coherent (reject c now r p e m).1.state
  unfolding reject
  reject-Coherent now r p e m h = refuse-Coherent now r (some e.content) (some p) m h

  shut_output-Coherent :
      (now : ℕ) (r : InterruptionReason) (e : TranscriptEvent) (m : Manager W)
      → Coherent m.state
      → Coherent (shut_output c now r e m).1.state
  unfolding shut_output
  shut_output-Coherent now r e m h = reset-Coherent _ (started-Coherent m.state _ h)

  confirm-Coherent :
      (now : ℕ) (r : InterruptionReason) (p : PhraseDecision) (e : TranscriptEvent) (m : Manager W)
      → Coherent m.state
      → Coherent (confirm c now r p e m).1.state
  confirm-Coherent now r p e m h =
      core-Coherent {s = (shut_output c now r e m).1.state} (confirm-shields c now r p e m).rest
        (shut_output-Coherent now r e m h)

  judge-Coherent :
      (now : ℕ) (e : TranscriptEvent) (p : PhraseDecision) (m : Manager W)
      → Coherent m.state
      → Coherent (judge c now e p m).1.state
  unfolding judge
  judge-Coherent now e p m h = ground (
    arith,
    reject-Coherent now backchannel_phrase p e m h,
    confirm-Coherent now force_interrupt_phrase p e m h,
    confirm-Coherent now word_count_threshold p e m h,
    confirm-Coherent now long_user_speech p e m h,
  )

  go_on-Coherent :
      (r : Result) (f : Manager W → Result × Manager W) (m : Manager W)
      → Coherent m.state
      → Coherent (f m).1.state
      → Coherent (go_on c r f m).1.state
  go_on-Coherent (decided d) f m h k = k
  go_on-Coherent (raised x) f m h k = h

  transcript-Coherent :
      ⦃u : Unicode⦄ (now : ℕ) (e : TranscriptEvent) (m : Manager W)
      → Coherent m.state
      → Coherent (handle_transcript c now e m).1.state
  unfolding handle_transcript
  transcript-Coherent now e m h =
      let p = decide c.classifier e.content in
      let begun = handle_speech_start c (implied_start e) m in
      let h' : Coherent begun.1.state = speech_start-Coherent (implied_start e) m h in
      ground (
        arith,
        judge-Coherent now e p m h,
        go_on-Coherent begun.0 (judge c now e p) begun.1 h' (judge-Coherent now e p begun.1 h'),
      )

-- What the session does with a manager.
pub data Call : Type 0 where
  speech_starts : SpeechStart → Call
  speech_stops : ℕ → SpeechStop → Call
  transcribed : ℕ → TranscriptEvent → Call
  tracked : ℤ → Text → Text → Call
  audio_sent : Option ℤ → Call
  finished : Option ℤ → Call

module _ {W : Type 0} (c : Config W) ⦃u : Unicode⦄ where
  unfoldable pub call : Call → Manager W → Manager W
  call (speech_starts e) m = (handle_speech_start c e m).1
  call (speech_stops now e) m = (handle_speech_stop c now e m).1
  call (transcribed now e) m = (handle_transcript c now e m).1
  call (tracked s response message) m = track_response s response message m
  call (audio_sent s) m = mark_agent_audio_sent s m
  call (finished s) m = mark_agent_response_finished s m

  unfoldable pub calls : List Call → Manager W → Manager W
  unfolding call
  calls [] m = m
  calls (x ∷ xs) m = calls xs (call x m)

  call-Coherent : (x : Call) (m : Manager W) → Coherent m.state → Coherent (call x m).state
  unfolding call
  call-Coherent (speech_starts e) m h = speech_start-Coherent c e m h
  call-Coherent (speech_stops now e) m h = speech_stop-Coherent c now e m h
  call-Coherent (transcribed now e) m h = transcript-Coherent c now e m h
  call-Coherent (tracked s response message) m h = unfold track_response in h
  call-Coherent (audio_sent s) m h = unfold mark_agent_audio_sent in ground arith
  call-Coherent (finished s) m h = unfold mark_agent_response_finished in ground arith

  -- Over any calls, from a state whose counters count its noted events and which has a candidate
  -- exactly if it has a start time, the state stays so.
  pub calls-Coherent :
      (xs : List Call) (m : Manager W) → Coherent m.state → Coherent (calls xs m).state
  unfolding calls
  calls-Coherent [] m h = h
  calls-Coherent (x ∷ xs) m h = calls-Coherent xs (call x m) (call-Coherent x m h)
