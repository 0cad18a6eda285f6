-- ===== src/Response/Sanitize/Spoken.antt =====
-- core/response/sentence_aggregator.py: sanitize_for_speech as a whole, of any text and of one without
-- marks.
use voice_agent_v.Prelude.{
  ℕ, zero, suc, ◌≡◌, refl, sym, ap, ◌∙◌, Bool, true, false, none, [], ◌∷◌, arith, ◌==◌, nat_eq,
  drop,
}
use voice_agent_v.Prelude.Sets.{contains}
use voice_agent_v.Text.{Text, is_space, text, starts_with, split, join}
use voice_agent_v.Response.Sanitize.{
  Pattern, re_sub, splice, literal, fenced, span, heading, heading_of, item, item_of, substitute,
  unmarked, sanitize_for_speech,
}
use voice_agent_v.Response.Sanitize.Blanks.{sanitize_for_speech_lem, split-sanitize_for_speech}
use voice_agent_v.Response.Sanitize.Marks.{sanitize_for_speech-Free}

-- No character of the text is one of the marks ` # * _ - + that the patterns begin with.
pub record IsPlain (t : Text) : Type 0 where
  pub no_back_quote : contains 96 t ≡ false
  pub no_hash : contains 35 t ≡ false
  pub no_star : contains 42 t ≡ false
  pub no_underscore : contains 95 t ≡ false
  pub no_minus : contains 45 t ≡ false
  pub no_plus : contains 43 t ≡ false

IsPlain-rest : (c : ℕ) (t : Text) → IsPlain (c ∷ t) → IsPlain t
IsPlain-rest c t h = record {
  no_back_quote = ground (arith, h.no_back_quote);
  no_hash = ground (arith, h.no_hash);
  no_star = ground (arith, h.no_star);
  no_underscore = ground (arith, h.no_underscore);
  no_minus = ground (arith, h.no_minus);
  no_plus = ground (arith, h.no_plus);
}

IsPlain-drop : (n : ℕ) (t : Text) → IsPlain t → IsPlain (drop n t)
IsPlain-drop zero t h = h
IsPlain-drop (suc n) [] h = h
IsPlain-drop (suc n) (c ∷ t) h = IsPlain-drop n t (IsPlain-rest c t h)

-- The pattern has no match in a plain text.
abbrev Fails : Pattern → Type 0
Fails m = (b : Bool) (t : Text) → IsPlain t → m b t ≡ none

re_sub-Fails :
    (m : Pattern) (r : Text) (t : Text) (b : Bool) → Fails m → IsPlain t → re_sub m r b 0 t ≡ t
unfolding re_sub splice
re_sub-Fails m r [] b f h = refl
re_sub-Fails m r (c ∷ t) b f h =
    rw (f b (c ∷ t) h)
      (ap (λ (u : Text). c ∷ u) (re_sub-Fails m r t (c == 10) f (IsPlain-rest c t h)))

substitute-Fails : (m : Pattern) (r t : Text) → Fails m → IsPlain t → substitute m r t ≡ t
unfolding substitute
substitute-Fails m r t f h = re_sub-Fails m r t true f h

starts_with-absent : (x : ℕ) (s t : Text) → contains x t ≡ false → starts_with t (x ∷ s) ≡ false
unfolding starts_with
starts_with-absent x s [] h = refl
starts_with-absent x s (c ∷ t) h = ground (arith, h)

literal-Fails :
    (x : ℕ) (s : Text) → ((t : Text) → IsPlain t → contains x t ≡ false) → Fails (literal (x ∷ s))
unfolding literal
literal-Fails x s k b t h = rw (starts_with-absent x s t (k t h)) refl

fenced-Fails : Fails fenced
unfolding fenced
fenced-Fails b t h = rw (starts_with-absent 96 (text "``") t h.no_back_quote) refl

span-absent : (x : ℕ) (t : Text) → contains x t ≡ false → span (λ c. c == x) t ≡ 0
unfolding span
span-absent x [] h = refl
span-absent x (c ∷ t) h = ground (arith, h)

heading_of-plain : (n : ℕ) (t : Text) → IsPlain t → heading_of n t ≡ none
unfolding heading_of
heading_of-plain n t h = rw (span-absent 35 t h.no_hash) (ground arith)

heading-Fails : Fails heading
unfolding heading
heading-Fails b t h = ground (
  arith,
  heading_of-plain (span is_space t) (drop (span is_space t) t)
      (IsPlain-drop (span is_space t) t h),
)

item_of-plain : (n : ℕ) (t : Text) → IsPlain t → item_of n t ≡ none
unfolding item_of
item_of-plain n [] h = refl
item_of-plain n (c ∷ t) h = ground (arith, h.no_star, h.no_minus, h.no_plus)

item-Fails : Fails item
unfolding item
item-Fails b t h = ground (
  arith,
  item_of-plain (span is_space t) (drop (span is_space t) t) (IsPlain-drop (span is_space t) t h),
)

unmarked-plain : (t : Text) → IsPlain t → unmarked t ≡ t
unfolding unmarked
unmarked-plain t h =
    rw
      (
        substitute-Fails fenced (text " ") t fenced-Fails h,
        substitute-Fails (literal (text "`")) [] t (literal-Fails 96 [] (λ u k. k.no_back_quote)) h,
        substitute-Fails heading [] t heading-Fails h,
        substitute-Fails item [] t item-Fails h,
        substitute-Fails (literal (text "**")) [] t (literal-Fails 42 (text "*") (λ u k. k.no_star))
            h,
        substitute-Fails (literal (text "__")) [] t
            (literal-Fails 95 (text "_") (λ u k. k.no_underscore)) h,
      )
      refl

-- What is spoken of any text has no back quote and is its own words joined by one blank each, so that no
-- other white space is in it and none at its ends. Of a text without the characters ` # * _ - + it is
-- all the words of the text, joined so.
pub sanitize_for_speech-spoken :
    (t plain : Text)
    → IsPlain plain
    → (contains 96 (sanitize_for_speech t) ≡ false)
      × (sanitize_for_speech t ≡ join (32 ∷ []) (split (sanitize_for_speech t)))
      × (sanitize_for_speech plain ≡ join (32 ∷ []) (split plain))
sanitize_for_speech-spoken t plain h = (
  sanitize_for_speech-Free t,
  sanitize_for_speech_lem t ∙ ap (join (32 ∷ [])) (sym (split-sanitize_for_speech t)),
  sanitize_for_speech_lem plain ∙ ap (λ u. join (32 ∷ []) (split u)) (unmarked-plain plain h),
)
