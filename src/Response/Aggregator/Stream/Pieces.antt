-- ===== src/Response/Aggregator/Stream/Pieces.antt =====
-- A round passes pieces of the text on: what it sends is their sanitized texts, and with what is
-- left in the buffer they are the text before the round and the new token.
use voice_agent_v.Prelude.{
  ℕ, zero, suc, ◌≡◌, refl, sym, ◌∙◌, Option, none, some, List, [], ◌∷◌, ◌++◌, map, append-nil,
  append_assoc, take-append-drop, take, Bool-cases, inl, inr, is_nil, leb, length, ltb, or_ms, ◌&&◌,
  Option-cases,
}
use voice_agent_v.Text.{Text}
use voice_agent_v.Response.Sanitize.{sanitize_for_speech}
use voice_agent_v.Response.Aggregator.{
  SentenceAggregator, concat, current_text, rfind_blank, emptied, flush, split_at, flush_at,
  flush_at_word_boundary, stored, ready, add, deadline, flush_due, ends_sentence, ends_pause,
}
use voice_agent_v.Response.Aggregator.Stream.{Event, arrived, timed_out, all_of, round, tokens}

pub concat-append : (xs ys : List Text) → concat (xs ++ ys) ≡ concat xs ++ concat ys
unfolding concat
concat-append [] ys = refl
concat-append (x ∷ xs) ys = rw (concat-append xs ys, append_assoc)

-- The chunks stand for pieces of the text `t`, and `rest` is left.
abbrev pub Pieces : Text → List Text → Text → Type 0
Pieces t chunks rest =
    (raws : List Text) × (chunks ≡ map sanitize_for_speech raws) × (concat raws ++ rest ≡ t)

flush-Pieces :
    (a : SentenceAggregator) → Pieces (current_text a) ((flush a).1 ∷ []) (current_text (flush a).0)
unfolding flush current_text concat emptied
flush-Pieces a = (current_text a ∷ [], refl, simp (append-nil))

split_at-Pieces :
    (later : ℕ) (a : SentenceAggregator) (i : ℕ)
    → Pieces (current_text a) ((split_at later a i).1 ∷ []) (current_text (split_at later a i).0)
unfolding split_at current_text concat
split_at-Pieces later a i =
    (take i (current_text a) ∷ [], refl, simp (append-nil, take-append-drop i (current_text a)))

flush_at-Pieces :
    (later : ℕ) (a : SentenceAggregator) (o : Option ℕ)
    → Pieces (current_text a) ((flush_at later a o).1 ∷ []) (current_text (flush_at later a o).0)
unfolding flush_at
flush_at-Pieces later a none = flush-Pieces a
flush_at-Pieces later a (some zero) = flush-Pieces a
flush_at-Pieces later a (some (suc i)) = split_at-Pieces later a (suc i)

ready-Pieces :
    (later : ℕ) (a : SentenceAggregator)
    → Pieces (current_text a) (ready later a).1 (current_text (ready later a).0)
unfolding ready flush_at_word_boundary
ready-Pieces later a =
    let t = current_text a in
    let kept : Pieces t [] t = ([], refl, unfold concat in refl) in
    elim (Bool-cases (is_nil t)) [
      | inl e ↦ rw e kept
      | inr e ↦ rw e elim (Bool-cases (ends_sentence t)) [
        | inl s ↦ rw s (flush-Pieces a)
        | inr s ↦ rw s elim (Bool-cases (leb a.max_chars (length t))) [
          | inl m ↦ rw m (flush_at-Pieces later a (rfind_blank (take a.max_chars t)))
          | inr m ↦ rw m elim (Bool-cases (leb a.min_chars (length t) && ends_pause t)) [
            | inl p ↦ rw p (flush-Pieces a)
            | inr p ↦ rw p kept
          ]
        ]
      ]
    ]

current_text-stored :
    (ts : ℕ) (token : Text) (a : SentenceAggregator)
    → current_text (stored ts token a) ≡ current_text a ++ token
unfolding current_text stored
current_text-stored ts token a =
    concat-append a.buffer (token ∷ []) ∙ unfold concat in rw (append-nil token)

add-Pieces :
    (token : Text) (timestamp : Option ℕ) (now later : ℕ) (a : SentenceAggregator)
    → Pieces
        (current_text a ++ token)
        (add token timestamp now later a).1
        (current_text (add token timestamp now later a).0)
unfolding add
add-Pieces [] timestamp now later a = ([], refl, unfold concat in sym (append-nil (current_text a)))
add-Pieces (c ∷ cs) timestamp now later a =
    rw (← current_text-stored (or_ms timestamp now) (c ∷ cs) a)
      (ready-Pieces later (stored (or_ms timestamp now) (c ∷ cs) a))

flush_due-Pieces :
    (timestamp : Option ℕ) (now : ℕ) (a : SentenceAggregator)
    → Pieces
        (current_text a)
        (all_of (flush_due timestamp now a).1)
        (current_text (flush_due timestamp now a).0)
unfolding flush_due
flush_due-Pieces timestamp now a =
    let kept : Pieces (current_text a) [] (current_text a) = ([], refl, unfold concat in refl) in
    elim (Option-cases (deadline a)) [
      | inl e ↦ rw e kept
      | inr (due, e) ↦ rw e elim (Bool-cases (ltb (or_ms timestamp now) due)) [
        | inl l ↦ rw l kept
        | inr l ↦ rw l (flush-Pieces a)
      ]
    ]

pub round-Pieces :
    (e : Event) (a : SentenceAggregator)
    → Pieces (current_text a ++ tokens (e ∷ [])) (round e a).1 (current_text (round e a).0)
unfolding round tokens
round-Pieces (arrived token now later) a = rw (append-nil token) (add-Pieces token none now later a)
round-Pieces (timed_out now) a = rw (append-nil (current_text a)) (flush_due-Pieces none now a)
