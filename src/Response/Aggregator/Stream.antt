-- ===== src/Response/Aggregator/Stream.antt =====
-- core/response/sentence_aggregator.py: aggregate_token_stream, as a run over what its loop gets
-- from the queue. The end of the list is the `None` that the producer puts last.
mod Pieces
pub mod Conservation
pub mod Waiting
use voice_agent_v.Prelude.{
  ℕ, Option, none, some, List, [], ◌∷◌, ◌++◌, not, is_nil, select, length, is_some, leb, ◌&&◌,
}
use voice_agent_v.Text.{Text}
use voice_agent_v.Response.Aggregator.{SentenceAggregator, add, flush_due, flush}

pub data Event : Type 0 where
  arrived : Text → ℕ → ℕ → Event
  timed_out : ℕ → Event

-- `if chunk: yield chunk`
unfoldable pub yielded : List Text → List Text
yielded ts = select (λ t. not (is_nil t)) ts

abbrev pub all_of : Option Text → List Text
all_of none = []
all_of (some t) = t ∷ []

-- One round of the loop: the chunks before the test.
unfoldable pub round : Event → SentenceAggregator → SentenceAggregator × List Text
unfolding add flush_due
round (arrived token now later) a = add token none now later a
round (timed_out now) a = let (b, chunk) = flush_due none now a in (b, all_of chunk)

unfoldable pub aggregate : List Event → SentenceAggregator → List Text
unfolding round yielded flush
aggregate [] a = yielded ((flush a).1 ∷ [])
aggregate (e ∷ es) a =
    let (b, chunks) = round e a in let rest = aggregate es b in yielded chunks ++ rest

unfoldable pub start : ℕ → ℕ → ℕ → SentenceAggregator
start least most wait = record {
  min_chars = least;
  max_chars = most;
  timeout_ms = wait;
  buffer = [];
  started_ms = none;
}

unfoldable pub aggregate_token_stream : ℕ → ℕ → ℕ → List Event → List Text
unfolding aggregate start
aggregate_token_stream least most wait es = aggregate es (start least most wait)

-- The text that the model has streamed.
unfoldable pub tokens : List Event → Text
tokens [] = []
tokens (arrived token now later ∷ es) = token ++ tokens es
tokens (timed_out now ∷ es) = tokens es
