-- ===== src/Metrics/Latency/Firsts.antt =====
-- core/metrics/latency_tracker.py: the times that are marked once.
use voice_agent_v.Prelude.{
  ℕ, ◌+◌, ◌≡◌, ◌≢◌, ap, ◌∙◌, inl, inr, Bool, true, false, Option, some, List, [], ◌∷◌, arith,
  nat_eq, ◌==◌, eq→≡, Bool-cases,
}
use voice_agent_v.Prelude.Dict.{get, get-put}
use voice_agent_v.Metrics.Latency.{
  TurnLatency, LatencyTracker, key, or_unmarked, for_turn, keep_first, mark_speech_start,
  mark_speech_stop, mark_llm_start, mark_llm_end, mark_tts_end, mark_final_audio_played,
  mark_clear_sent, mark_clear_ack, mark_llm_first_token, mark_tts_start, mark_tts_first_audio,
  mark_first_audio_sent, mark_first_audio_played, mark_transcript, mark_end_of_turn,
  mark_interruption, mark_audio_drop, mark_provider_error,
}

-- The calls on the tracker.
pub data Mark : Type 0 where
  speech_start speech_stop llm_start llm_end tts_end final_audio_played clear_sent clear_ack
        llm_first_token tts_start tts_first_audio first_audio_sent first_audio_played interruption :
      Option ℕ → ℕ → Mark
  transcript : Option ℕ → ℕ → Bool → Mark
  end_of_turn : ℕ → ℕ → Mark
  audio_drop provider_error : Mark

unfoldable pub mark : Mark → LatencyTracker → LatencyTracker
mark (speech_start turn_id time) = mark_speech_start turn_id time
mark (speech_stop turn_id time) = mark_speech_stop turn_id time
mark (llm_start turn_id time) = mark_llm_start turn_id time
mark (llm_end turn_id time) = mark_llm_end turn_id time
mark (tts_end turn_id time) = mark_tts_end turn_id time
mark (final_audio_played turn_id time) = mark_final_audio_played turn_id time
mark (clear_sent turn_id time) = mark_clear_sent turn_id time
mark (clear_ack turn_id time) = mark_clear_ack turn_id time
mark (llm_first_token turn_id time) = mark_llm_first_token turn_id time
mark (tts_start turn_id time) = mark_tts_start turn_id time
mark (tts_first_audio turn_id time) = mark_tts_first_audio turn_id time
mark (first_audio_sent turn_id time) = mark_first_audio_sent turn_id time
mark (first_audio_played turn_id time) = mark_first_audio_played turn_id time
mark (interruption turn_id time) = mark_interruption turn_id time
mark (transcript turn_id time is_final) = mark_transcript turn_id time is_final
mark (end_of_turn turn_id time) = mark_end_of_turn turn_id time
mark audio_drop = mark_audio_drop
mark provider_error = mark_provider_error

unfoldable pub marks : List Mark → LatencyTracker → LatencyTracker
marks [] t = t
marks (x ∷ xs) t = marks xs (mark x t)

abbrev sent : Option TurnLatency → Option ℕ
sent l = (or_unmarked l).first_audio_sent_ms

-- The time of the first audio that was sent in a turn.
abbrev pub first_sent : LatencyTracker → ℕ → Option ℕ
first_sent t n = (or_unmarked (get t.turns n)).first_audio_sent_ms

abbrev Keeps : ℕ → (TurnLatency → TurnLatency) → Type 0
Keeps time write =
    (l : TurnLatency)
    → l.first_audio_sent_ms ≡ some time
    → (write l).first_audio_sent_ms ≡ some time

for_turn-first_sent :
    (turn_id : Option ℕ) (write : TurnLatency → TurnLatency) (t : LatencyTracker) (n time : ℕ)
    → Keeps time write
    → first_sent t n ≡ some time
    → first_sent (for_turn turn_id write t) n ≡ some time
unfolding for_turn
for_turn-first_sent turn_id write t n time w h =
    let k : ℕ = key turn_id t in
    ap sent (get-put t.turns k n (write (or_unmarked (get t.turns k))))
    ∙ elim (Bool-cases (k == n)) [
      | inl e ↦
          rw e (w (or_unmarked (get t.turns k)) (ap (λ j. sent (get t.turns j)) (eq→≡ k n e) ∙ h))
      | inr e ↦ rw e h
    ]

keep_first-Keeps :
    (time now : ℕ)
    → time ≢ 0
    → Keeps time (λ l. record l { first_audio_sent_ms = keep_first l.first_audio_sent_ms now })
keep_first-Keeps time now p l h = ap (λ o. keep_first o now) h ∙ ground (arith, p)

mark-first_sent :
    (x : Mark) (t : LatencyTracker) (n time : ℕ)
    → time ≢ 0
    → first_sent t n ≡ some time
    → first_sent (mark x t) n ≡ some time
unfolding mark mark_speech_start mark_speech_stop mark_llm_start mark_llm_end mark_tts_end
    mark_final_audio_played mark_clear_sent mark_clear_ack mark_llm_first_token mark_tts_start
    mark_tts_first_audio mark_first_audio_sent mark_first_audio_played mark_transcript
    mark_end_of_turn mark_interruption mark_audio_drop mark_provider_error
mark-first_sent (speech_start i now) t n time p h = for_turn-first_sent i _ t n time (λ l e. e) h
mark-first_sent (speech_stop i now) t n time p h = for_turn-first_sent i _ t n time (λ l e. e) h
mark-first_sent (llm_start i now) t n time p h = for_turn-first_sent i _ t n time (λ l e. e) h
mark-first_sent (llm_end i now) t n time p h = for_turn-first_sent i _ t n time (λ l e. e) h
mark-first_sent (tts_end i now) t n time p h = for_turn-first_sent i _ t n time (λ l e. e) h
mark-first_sent (final_audio_played i now) t n time p h =
    for_turn-first_sent i _ t n time (λ l e. e) h
mark-first_sent (clear_sent i now) t n time p h = for_turn-first_sent i _ t n time (λ l e. e) h
mark-first_sent (clear_ack i now) t n time p h = for_turn-first_sent i _ t n time (λ l e. e) h
mark-first_sent (llm_first_token i now) t n time p h = for_turn-first_sent i _ t n time (λ l e. e) h
mark-first_sent (tts_start i now) t n time p h = for_turn-first_sent i _ t n time (λ l e. e) h
mark-first_sent (tts_first_audio i now) t n time p h = for_turn-first_sent i _ t n time (λ l e. e) h
mark-first_sent (first_audio_sent i now) t n time p h =
    for_turn-first_sent i _ t n time (keep_first-Keeps time now p) h
mark-first_sent (first_audio_played i now) t n time p h =
    for_turn-first_sent i _ t n time (λ l e. e) h
mark-first_sent (interruption i now) t n time p h =
    for_turn-first_sent i _ (record t { interruption_count = t.interruption_count + 1 }) n time
      (λ l e. e) h
mark-first_sent (transcript i now true) t n time p h = for_turn-first_sent i _ t n time (λ l e. e) h
mark-first_sent (transcript i now false) t n time p h =
    for_turn-first_sent i _ t n time (λ l e. e) h
mark-first_sent (end_of_turn i now) t n time p h =
    for_turn-first_sent (some i) (λ l. record l { end_of_turn_decision_ms = some now }) t n time
      (λ l e. e) h
mark-first_sent audio_drop t n time p h = h
mark-first_sent provider_error t n time p h = h

-- Once the time of the first audio sent in a turn is marked, and is not 0, no further marks, of this turn or
-- another, change it.
pub marks-first_sent :
    (xs : List Mark) (t : LatencyTracker) (n time : ℕ)
    → time ≢ 0
    → first_sent t n ≡ some time
    → first_sent (marks xs t) n ≡ some time
unfolding marks
marks-first_sent [] t n time p h = h
marks-first_sent (x ∷ xs) t n time p h =
    marks-first_sent xs (mark x t) n time p (mark-first_sent x t n time p h)
