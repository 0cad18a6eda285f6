-- ===== src/Response/Aggregator/Stream/Conservation.antt =====
-- The stream of tokens and the chunks that leave the aggregator.
use voice_agent_v.Prelude.{
  ℕ, ◌≡◌, refl, sym, ap, ◌∙◌, List, [], ◌∷◌, ◌++◌, map, append-nil, append_assoc, not, Bool, is_nil,
  select, Bool-cases, inl, inr,
}
use voice_agent_v.Text.{Text}
use voice_agent_v.Response.Sanitize.{sanitize_for_speech}
use voice_agent_v.Response.Aggregator.{SentenceAggregator, concat, current_text, flush}
use voice_agent_v.Response.Aggregator.Stream.{
  Event, arrived, timed_out, round, yielded, aggregate, start, aggregate_token_stream, tokens,
}
use voice_agent_v.Response.Aggregator.Stream.Pieces.{Pieces, round-Pieces, concat-append}

map-append {ℓ κ} :
    {A : Type ℓ} {B : Type κ} (f : A → B) (xs ys : List A) → map f (xs ++ ys) ≡ map f xs ++ map f ys
map-append f [] ys = refl
map-append f (x ∷ xs) ys = rw (map-append f xs ys)

select-append {ℓ} :
    {A : Type ℓ} (p : A → Bool) (xs ys : List A) → select p (xs ++ ys) ≡ select p xs ++ select p ys
select-append p [] ys = refl
select-append p (x ∷ xs) ys = elim (Bool-cases (p x)) [
  | inl e ↦ rw (e, select-append p xs ys) refl
  | inr e ↦ rw (e, select-append p xs ys) refl
]

yielded-map :
    (xs ys : List Text)
    → yielded (map sanitize_for_speech (xs ++ ys))
      ≡ yielded (map sanitize_for_speech xs) ++ yielded (map sanitize_for_speech ys)
unfolding yielded
yielded-map xs ys =
    ap yielded (map-append sanitize_for_speech xs ys)
    ∙ select-append (λ t. not (is_nil t)) (map sanitize_for_speech xs) (map sanitize_for_speech ys)

tokens-cons : (e : Event) (es : List Event) → tokens (e ∷ es) ≡ tokens (e ∷ []) ++ tokens es
unfolding tokens
tokens-cons (arrived token now later) es = rw (append-nil token)
tokens-cons (timed_out now) es = refl

-- Pieces of a round in front of pieces of the rest of the run.
Pieces-append :
    (t u w : Text) (chunks : List Text) (raws' : List Text)
    → (p : Pieces t chunks u) → concat raws' ≡ u ++ w
    → concat (p.0 ++ raws') ≡ t ++ w
Pieces-append t u w chunks raws' p e =
    concat-append p.0 raws'
    ∙ rw e (sym (append_assoc (concat p.0) u w) ∙ ap (λ (s : Text). s ++ w) p.2)

pub aggregate-Pieces :
    (es : List Event) (a : SentenceAggregator)
    → (raws : List Text) × (aggregate es a ≡ yielded (map sanitize_for_speech raws))
      × (concat raws ≡ current_text a ++ tokens es)
unfolding aggregate tokens
aggregate-Pieces [] a = (current_text a ∷ [], unfold flush in refl, unfold concat in refl)
aggregate-Pieces (e ∷ es) a =
    let p = round-Pieces e a in
    let later = aggregate-Pieces es (round e a).0 in
    (
      p.0 ++ later.0,
      rw (p.1, later.1) (sym (yielded-map p.0 later.0)),
      rw (tokens-cons e es, ← append_assoc (current_text a) (tokens (e ∷ [])) (tokens es))
          (Pieces-append (current_text a ++ tokens (e ∷ [])) (current_text (round e a).0)
            (tokens es) (round e a).1 later.0 p later.2),
    )

-- The chunks that leave the aggregator are the sanitized texts of consecutive pieces of the text
-- that the model has streamed, whatever times the tokens and the timeouts come at: no character is
-- lost, sent twice or moved, and only a piece of which nothing is to be spoken sends no chunk.
pub aggregate_token_stream_conserves :
    (least most wait : ℕ) (es : List Event)
    → (raws : List Text) × (aggregate_token_stream least most wait es
        ≡ yielded (map sanitize_for_speech raws))
      × (concat raws ≡ tokens es)
unfolding aggregate_token_stream
aggregate_token_stream_conserves least most wait es =
    unfold start current_text concat in aggregate-Pieces es (start least most wait)
