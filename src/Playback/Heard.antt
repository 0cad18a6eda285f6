-- ===== src/Playback/Heard.antt =====
-- core/playback/playback_tracker.py: the estimate of what the caller has heard of a message. The
-- source divides floats and truncates; that is the quotient of the numbers while
-- `len(text) * played_audio_ms` is below 2 ^ 53.
pub mod Prefix
use voice_agent_v.Prelude.{
  ℕ, suc, ◌+◌, ◌-◌, ◌*◌, ◌/◌, min, Bool, true, false, not, ◌&&◌, Option, none, some, List, [], ◌∷◌,
  ◌++◌, length, take, is_nil, is_some, leb, ◌==◌, nat_eq, if◌then◌else◌,
}
use voice_agent_v.Text.{Text, strip, rstrip, join, is_in, find}
use voice_agent_v.Contracts.{WordTimestamps}
use voice_agent_v.Playback.Message.{MessagePlayback, total_audio_ms, source_text}

abbrev pub since_start : ℕ → Option ℕ → Option ℕ → Option ℕ
since_start total none started = none
since_start total (some stop) none = none
since_start total (some stop) (some start) = some (min total (stop - start))

unfoldable pub played_audio_ms : MessagePlayback → ℕ
unfolding total_audio_ms
played_audio_ms p =
    if is_some p.fully_played_ms
    then total_audio_ms p
    else elim (since_start (total_audio_ms p) p.interrupted_ms p.started_ms) [
      | some ms ↦ ms
      | none ↦ if p.cleared then total_audio_ms p else 0
    ]

-- The words that ended in time; an end that is no number skips its word.
unfoldable pub heard_words : List Text → List (Option ℕ) → ℕ → List Text
heard_words [] ends played = []
heard_words (w ∷ ws) [] played = []
heard_words (w ∷ ws) (none ∷ ends) played = heard_words ws ends played
heard_words (w ∷ ws) (some ms ∷ ends) played =
    let rest = heard_words ws ends played in if leb ms played then w ∷ rest else rest

-- The text up to the end of what was heard, if that is found in it.
unfoldable pub up_to : Text → Text → Text
unfolding find rstrip
up_to t heard = elim (find t heard) [
  | none ↦ heard
  | some i ↦ if is_nil heard then heard else rstrip (take (i + length heard) t)
]

lists_of : WordTimestamps → Option (List Text × List (Option ℕ))
lists_of w = elim w.words [
  | none ↦ none
  | some ws ↦ elim w.ends [ none ↦ none | some es ↦ some (ws, es) ]
]

spoken : Text → List Text → Text
unfolding up_to strip join
spoken t [] = []
spoken t (w ∷ ws) = up_to t (strip (join (32 ∷ []) (w ∷ ws)))

unfoldable pub heard_text_from_word_timestamps : Text → Option WordTimestamps → ℕ → Text
unfolding lists_of spoken heard_words
heard_text_from_word_timestamps t none played = []
heard_text_from_word_timestamps t (some w) played = elim (lists_of w) [
  | none ↦ []
  | some (ws, es) ↦ spoken t (heard_words ws es played)
]

-- The share of the text that the share of the audio stands for.
unfoldable pub heard_chars : ℕ → ℕ → ℕ → ℕ
heard_chars len played total = min len (len * played / total)

unfoldable pub by_share : Text → ℕ → ℕ → Text
unfolding heard_chars rstrip
by_share t total played =
    if total == 0 then [] else rstrip (take (heard_chars (length t) played total) t)

unfoldable pub estimate_heard_text : MessagePlayback → Text
estimate_heard_text p =
    let t = strip (source_text p) in
    let played = played_audio_ms p in
    let timed = heard_text_from_word_timestamps t p.word_timestamps played in
    if is_nil t
    then []
    else if is_some p.fully_played_ms && not p.interrupted
    then t
    else if played == 0
    then []
    else if not (is_nil timed)
    then timed
    else by_share t (total_audio_ms p) played
