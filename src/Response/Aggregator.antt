-- ===== src/Response/Aggregator.antt =====
-- core/response/sentence_aggregator.py: SentenceAggregator. Times are milliseconds; each method
-- that reads the clock takes the reading. seconds_until_flush is in milliseconds here.
pub mod Boundary
pub mod Stream
use voice_agent_v.Prelude.{
  ℕ, zero, suc, ◌+◌, ◌-◌, ◌≡◌, refl, Bool, not, ◌&&◌, ◌||◌, Option, none, some, List, [], ◌∷◌, ◌++◌,
  if◌then◌else◌, ltb, leb, ◌==◌, nat_eq, take, drop, length, is_nil, or_ms,
}
use voice_agent_v.Text.{Text, text, strip, rstrip, ends_with}
use voice_agent_v.Response.Sanitize.{sanitize_for_speech}

abbrev sentence_endings : Text
sentence_endings = text ".?!।"

abbrev pause_markers : Text
pause_markers = text ",;:"

unfoldable pub ends_sentence : Text → Bool
unfolding rstrip ends_with
ends_sentence t = ends_with (rstrip t) sentence_endings

unfoldable pub ends_pause : Text → Bool
unfolding rstrip ends_with
ends_pause t = ends_with (rstrip t) pause_markers

pub record SentenceAggregator : Type 0 where
  pub min_chars : ℕ
  pub max_chars : ℕ
  pub timeout_ms : ℕ
  pub buffer : List Text
  pub started_ms : Option ℕ

-- "".join(texts)
unfoldable pub concat : List Text → Text
concat [] = []
concat (t ∷ ts) = t ++ concat ts

unfoldable pub current_text : SentenceAggregator → Text
unfolding concat
current_text a = concat a.buffer

-- The last blank behind a character, or the character itself.
abbrev pub rfind_step : ℕ → Option ℕ → Option ℕ
rfind_step c (some i) = some (suc i)
rfind_step c none = if c == 32 then some 0 else none

-- t.rfind(" "), with `none` for -1
unfoldable pub rfind_blank : Text → Option ℕ
rfind_blank [] = none
rfind_blank (c ∷ cs) = rfind_step c (rfind_blank cs)

unfoldable pub emptied : SentenceAggregator → SentenceAggregator
emptied a = record a { buffer = []; started_ms = none }

unfoldable pub flush : SentenceAggregator → SentenceAggregator × Text
unfolding emptied sanitize_for_speech current_text
flush a = (emptied a, sanitize_for_speech (current_text a))

-- The text from a boundary on stays, and waits from the time `later`.
unfoldable pub split_at : ℕ → SentenceAggregator → ℕ → SentenceAggregator × Text
unfolding sanitize_for_speech current_text strip
split_at later a i =
    let remainder = drop i (current_text a) in
    (
      record a {
        buffer = remainder ∷ [];
        started_ms = if is_nil (strip remainder) then none else some later;
      },
      sanitize_for_speech (take i (current_text a)),
    )

unfoldable pub flush_at : ℕ → SentenceAggregator → Option ℕ → SentenceAggregator × Text
unfolding flush split_at
flush_at later a none = flush a
flush_at later a (some zero) = flush a
flush_at later a (some (suc i)) = split_at later a (suc i)

unfoldable pub flush_at_word_boundary : ℕ → SentenceAggregator → SentenceAggregator × Text
unfolding flush_at rfind_blank current_text
flush_at_word_boundary later a = flush_at later a (rfind_blank (take a.max_chars (current_text a)))

-- The buffer with one more token, and the time of the first.
unfoldable pub stored : ℕ → Text → SentenceAggregator → SentenceAggregator
stored ts token a = record a {
  buffer = a.buffer ++ token ∷ [];
  started_ms = some (elim a.started_ms [ none ↦ ts | some started ↦ started ]);
}

abbrev one : SentenceAggregator × Text → SentenceAggregator × List Text
one r = (r.0, r.1 ∷ [])

-- The chunk that is ready after a token, if one is.
unfoldable pub ready : ℕ → SentenceAggregator → SentenceAggregator × List Text
unfolding current_text ends_sentence ends_pause flush flush_at_word_boundary
ready later a =
    let t = current_text a in
    if is_nil t
    then (a, [])
    else if ends_sentence t
    then one (flush a)
    else if leb a.max_chars (length t)
    then one (flush_at_word_boundary later a)
    else if leb a.min_chars (length t) && ends_pause t
    then one (flush a)
    else (a, [])

-- `later` is the reading of the clock that a cut at a word boundary makes.
unfoldable pub add : Text → Option ℕ → ℕ → ℕ → SentenceAggregator → SentenceAggregator × List Text
unfolding stored ready
add token timestamp now later a =
    if is_nil token then (a, []) else ready later (stored (or_ms timestamp now) token a)

abbrev flushed : SentenceAggregator × Text → SentenceAggregator × Option Text
flushed r = (r.0, some r.1)

-- The time at which the buffer is due.
unfoldable pub deadline : SentenceAggregator → Option ℕ
deadline a =
    if is_nil a.buffer
    then none
    else elim a.started_ms [ none ↦ none | some started ↦ some (started + a.timeout_ms) ]

abbrev flush_after : SentenceAggregator → ℕ → Option ℕ → SentenceAggregator × Option Text
flush_after a ts none = (a, none)
flush_after a ts (some due) = if ltb ts due then (a, none) else flushed (flush a)

-- `ts_ms - started < timeout` on the integers.
unfoldable pub flush_due : Option ℕ → ℕ → SentenceAggregator → SentenceAggregator × Option Text
unfolding deadline flush
flush_due timestamp now a = flush_after a (or_ms timestamp now) (deadline a)

abbrev wait_of : ℕ → Option ℕ → Option ℕ
wait_of ts none = none
wait_of ts (some due) = some (due - ts)

-- max(0, timeout - (ts_ms - started))
unfoldable pub seconds_until_flush : Option ℕ → ℕ → SentenceAggregator → Option ℕ
unfolding deadline
seconds_until_flush timestamp now a = wait_of (or_ms timestamp now) (deadline a)
