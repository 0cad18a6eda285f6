-- ===== src/Tests/ResponseTests.antt =====
-- The text of a response, the phrases that end a call and the record of the conversation at concrete
-- data.
use voice_agent_v.Prelude.{
  ◌<◌, ◌≡◌, ◌↔◌, refl, true, false, none, some, List, [], ◌∷◌, ◌++◌, length, take, drop, map,
  is_nil, list_eq, nat_eq,
}
use voice_agent_v.Prelude.Sets.{contains}
use voice_agent_v.Text.{Text, text, ascii, split, join, strip}
use voice_agent_v.Response.Sanitize.{sanitize_for_speech}
use voice_agent_v.Response.Sanitize.Spoken.{IsPlain, sanitize_for_speech-spoken}
use voice_agent_v.Response.Aggregator.{
  SentenceAggregator, concat, current_text, emptied, flush_due, seconds_until_flush, rfind_blank,
  flush_at_word_boundary,
}
use voice_agent_v.Response.Aggregator.Boundary.{
  IsLastBlank-rfind_blank, flush_at_word_boundary_words,
}
use voice_agent_v.Response.Aggregator.Stream.{
  Event, arrived, timed_out, aggregate_token_stream, yielded, tokens,
}
use voice_agent_v.Response.Aggregator.Stream.Conservation.{aggregate_token_stream_conserves}
use voice_agent_v.Response.Aggregator.Stream.Waiting.{flush_due-waited}
use voice_agent_v.Listener.Phrases.{contains_phrase}
use voice_agent_v.Listener.Phrases.Windows.{Infix, contains_phrase-Infix}

no_marks : IsPlain (text " haan \n ji. ")
no_marks = record {
  no_back_quote = refl;
  no_hash = refl;
  no_star = refl;
  no_underscore = refl;
  no_minus = refl;
  no_plus = refl;
}

sanitize_for_speech-spoken_example :
    (contains 96 (sanitize_for_speech (text "- **haan**  `ji`")) ≡ false)
    × (sanitize_for_speech (text "- **haan**  `ji`")
        ≡ join (32 ∷ []) (split (sanitize_for_speech (text "- **haan**  `ji`"))))
    × (sanitize_for_speech (text " haan \n ji. ") ≡ join (32 ∷ []) (split (text " haan \n ji. ")))
sanitize_for_speech-spoken_example =
    sanitize_for_speech-spoken (text "- **haan**  `ji`") (text " haan \n ji. ") no_marks

-- A text is longer than the limit of 12 characters.
abbrev long_text : SentenceAggregator
long_text = record {
  min_chars = 8;
  max_chars = 12;
  timeout_ms = 500;
  buffer = text "aap kaise " ∷ text "hain ji" ∷ [];
  started_ms = some 1000;
}

long_text_boundary : rfind_blank (take 12 (current_text long_text)) ≡ some 9
unfolding rfind_blank current_text
long_text_boundary = refl

flush_at_word_boundary_words_example :
    let (a', emitted) = flush_at_word_boundary 1100 long_text in
    let before = take 9 (current_text long_text) in
    (emitted ≡ sanitize_for_speech before)
    × (length before < 12)
    × (current_text a' ≡ drop 9 (current_text long_text))
    × (split (current_text long_text) ≡ split before ++ split (current_text a'))
flush_at_word_boundary_words_example =
    flush_at_word_boundary_words 1100 long_text 8
      (IsLastBlank-rfind_blank (take 12 (current_text long_text)) 9 long_text_boundary)

abbrev stream : List Event
stream =
    arrived (text "Namaste") 1000 1000
    ∷ arrived (text "! Aap") 1100 1100
    ∷ timed_out 1700
    ∷ arrived (text " kaise hain") 1800 1800
    ∷ []

aggregate_token_stream_conserves_example :
    (raws : List Text) × (aggregate_token_stream 80 160 500 stream
      ≡ yielded (map sanitize_for_speech raws))
    × (concat raws ≡ tokens stream)
aggregate_token_stream_conserves_example = aggregate_token_stream_conserves 80 160 500 stream

-- The chunks of the stream.
stream_chunks :
    aggregate_token_stream 80 160 500 stream ≡ text "Namaste! Aap" ∷ text "kaise hain" ∷ []
unfolding aggregate_token_stream
stream_chunks = refl

long_text_waits : seconds_until_flush none 1200 long_text ≡ some 300
unfolding seconds_until_flush
long_text_waits = refl

flush_due-waited_example :
    (flush_due none 1520 long_text
      ≡ (emptied long_text, some (sanitize_for_speech (current_text long_text))))
    × (seconds_until_flush none 1520 (emptied long_text) ≡ none)
flush_due-waited_example = flush_due-waited 1200 300 20 long_text long_text_waits

contains_phrase-Infix_example :
    (contains_phrase (text "ok call kaat do") (text "kaat do") ≡ true) ↔ (
      (is_nil (split (text "kaat do")) ≡ false)
      × Infix (split (text "kaat do")) (split (text "ok call kaat do")))
contains_phrase-Infix_example = contains_phrase-Infix (text "ok call kaat do") (text "kaat do")

-- A phrase inside a longer word is not found.
not_in_word : contains_phrase (text "baybye") (text "bye") ≡ false
unfolding contains_phrase voice_agent_v.Text.is_space
not_in_word = refl
