-- ===== src/Response/Sanitize/Blanks.antt =====
-- core/response/sentence_aggregator.py: the last step of sanitize_for_speech, which is about white
-- space, and the words of the text.
use voice_agent_v.Prelude.{
  ℕ, ◌≡◌, refl, ap, Bool, true, false, List, [], ◌∷◌, inl, inr, Bool-cases, if◌then◌else◌, is_nil,
  ◌==◌, nat_eq,
}
use voice_agent_v.Text.{
  Text, is_space, text, runs, words_by, close, not_space, split, split-join, split-IsWord, join,
  lstrip_by, rstrip_by, strip_by,
}
use voice_agent_v.Response.Sanitize.{re_sub, span, blanks, unmarked, sanitize_for_speech}

-- The words behind the begin of a text, the first of which may be empty.
parts : Text → List Text
unfolding runs
parts cs = (runs not_space cs).0 ∷ (runs not_space cs).1

words : Text → List Text
unfolding runs
words cs = close (runs not_space cs).0 (runs not_space cs).1

collapse : Bool → ℕ → Text → Text
unfolding re_sub
collapse b k cs = re_sub blanks (text " ") b k cs

join-cons :
    (s : Text) (c : ℕ) (w : Text) (ws : List Text) → join s ((c ∷ w) ∷ ws) ≡ c ∷ join s (w ∷ ws)
unfolding join
join-cons s c w [] = refl
join-cons s c w (v ∷ ws) = refl

module _ (c : ℕ) (cs : Text) (h : is_space c ≡ false) where
  collapse-word : (b : Bool) → collapse b 0 (c ∷ cs) ≡ c ∷ collapse (c == 10) 0 cs
  unfolding collapse blanks span
  collapse-word b = rw h refl

  parts-word : join (32 ∷ []) (parts (c ∷ cs)) ≡ c ∷ join (32 ∷ []) (parts cs)
  unfolding parts
  parts-word = rw h (join-cons (32 ∷ []) c (runs not_space cs).0 (runs not_space cs).1)

  words-word : words (c ∷ cs) ≡ parts (c ∷ cs)
  unfolding parts words
  words-word = rw h refl

  span-word : span is_space (c ∷ cs) ≡ 0
  unfolding span
  span-word = rw h refl

  join-words-word : join (32 ∷ []) ([] ∷ words (c ∷ cs)) ≡ 32 ∷ c ∷ join (32 ∷ []) (parts cs)
  join-words-word =
      rw words-word (unfold join parts in ap (λ (t : Text). 32 ∷ t) (unfold parts in parts-word))

  rstrip-word : (t : Text) → rstrip_by is_space (c ∷ t) ≡ c ∷ rstrip_by is_space t
  unfolding rstrip_by
  rstrip-word t = rw h refl

module _ (c : ℕ) (cs : Text) (h : is_space c ≡ true) where
  collapse-blank :
      (b : Bool) → collapse b 0 (c ∷ cs) ≡ 32 ∷ collapse (c == 10) (span is_space cs) cs
  unfolding collapse blanks span
  collapse-blank b = rw h refl

  parts-blank : parts (c ∷ cs) ≡ [] ∷ words cs
  unfolding parts words
  parts-blank = rw h refl

  collapse-rest :
      (b : Bool)
      → collapse b (span is_space (c ∷ cs)) (c ∷ cs) ≡ collapse (c == 10) (span is_space cs) cs
  unfolding collapse span
  collapse-rest b = rw h refl

  words-blank : words (c ∷ cs) ≡ words cs
  unfolding words
  words-blank = rw h refl

-- Behind a run of white space that a blank stands for.
rstrip-blank :
    (t : Text)
    → rstrip_by is_space (32 ∷ t)
      ≡ (if is_nil (rstrip_by is_space t) then [] else 32 ∷ rstrip_by is_space t)
unfolding rstrip_by is_space
rstrip-blank t = refl

collapse_lem :
    (cs : Text) (b : Bool)
    → (rstrip_by is_space (collapse b 0 cs) ≡ join (32 ∷ []) (parts cs))
      × (rstrip_by is_space (32 ∷ collapse b (span is_space cs) cs)
          ≡ join (32 ∷ []) ([] ∷ words cs))
collapse_lem [] b = unfold collapse parts words rstrip_by is_space join in (refl, refl)
collapse_lem (c ∷ cs) b = elim (Bool-cases (is_space c)) [
  | inl h ↦ (
    rw (collapse-blank c cs h b, parts-blank c cs h) (collapse_lem cs (c == 10)).1,
    rw (collapse-rest c cs h b, words-blank c cs h) (collapse_lem cs (c == 10)).1,
  )
  | inr h ↦ (
    rw (
      collapse-word c cs h b,
      parts-word c cs h,
      rstrip-word c cs h (collapse (c == 10) 0 cs),
      (collapse_lem cs (c == 10)).0,
    ),
    rw (
      span-word c cs h,
      collapse-word c cs h b,
      rstrip-blank (c ∷ collapse (c == 10) 0 cs),
      rstrip-word c cs h (collapse (c == 10) 0 cs),
      (collapse_lem cs (c == 10)).0,
      join-words-word c cs h,
    ),
  )
]

-- Without the white space in front.
lstrip-blank : (t : Text) → lstrip_by is_space (32 ∷ t) ≡ lstrip_by is_space t
unfolding lstrip_by is_space
lstrip-blank t = refl

lstrip-word : (c : ℕ) (t : Text) → is_space c ≡ false → lstrip_by is_space (c ∷ t) ≡ c ∷ t
unfolding lstrip_by
lstrip-word c t h = rw h refl

strip-collapse-word :
    (c : ℕ) (cs : Text) (b : Bool)
    → is_space c ≡ false
    → strip_by is_space (collapse b 0 (c ∷ cs)) ≡ join (32 ∷ []) (words (c ∷ cs))
unfolding strip_by
strip-collapse-word c cs b h =
    rw (collapse-word c cs h b, lstrip-word c (collapse (c == 10) 0 cs) h, words-word c cs h)
      (rw (← collapse-word c cs h b) (collapse_lem (c ∷ cs) b).0)

strip-collapse :
    (cs : Text) (b : Bool)
    → (strip_by is_space (collapse b 0 cs) ≡ join (32 ∷ []) (words cs))
      × (strip_by is_space (collapse b (span is_space cs) cs) ≡ join (32 ∷ []) (words cs))
unfolding strip_by
strip-collapse [] b = unfold collapse words lstrip_by rstrip_by join in (refl, refl)
strip-collapse (c ∷ cs) b = elim (Bool-cases (is_space c)) [
  | inl h ↦ (
    rw
        (
          collapse-blank c cs h b,
          words-blank c cs h,
          lstrip-blank (collapse (c == 10) (span is_space cs) cs),
        )
        (strip-collapse cs (c == 10)).1,
    rw (collapse-rest c cs h b, words-blank c cs h) (strip-collapse cs (c == 10)).1,
  )
  | inr h ↦ (strip-collapse-word c cs b h, rw (span-word c cs h) (strip-collapse-word c cs b h))
]

-- What is spoken is the words of the unmarked text, joined by one blank each.
pub sanitize_for_speech_lem :
    (t : Text) → sanitize_for_speech t ≡ join (32 ∷ []) (split (unmarked t))
unfolding sanitize_for_speech split words words_by collapse
sanitize_for_speech_lem t = (strip-collapse (unmarked t) true).0

-- Its words are those of the unmarked text: none is cut, joined or lost by the white space.
pub split-sanitize_for_speech : (t : Text) → split (sanitize_for_speech t) ≡ split (unmarked t)
split-sanitize_for_speech t =
    rw (sanitize_for_speech_lem t) (split-join (split (unmarked t)) (split-IsWord (unmarked t)))
