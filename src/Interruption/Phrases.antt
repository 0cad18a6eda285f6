-- ===== src/Interruption/Phrases.antt =====
-- core/interruption/phrase_classifier.py: force phrases and backchannels at the start of a transcript.
pub mod Longest
use voice_agent_v.Prelude.{
  ℕ, Bool, true, false, not, ◌&&◌, ◌||◌, Option, none, some, List, [], ◌∷◌, ◌++◌, map, ◌==◌, nat_eq,
  list_eq, length, is_nil, leb, is_some, if◌then◌else◌,
}
use voice_agent_v.Prelude.Sets.{insert}
use voice_agent_v.Text.{Text, Unicode, strip_chars, starts_with}
use voice_agent_v.Turn.Rules.{normalize_text, word_count, edge_punctuation}

pub record PhraseDecision : Type 0 where
  pub content : Text
  pub normalized_text : Text
  pub word_count : ℕ
  pub is_force_interrupt : Bool
  pub is_backchannel : Bool
  pub matched_phrase : Option Text

pub record PhraseClassifier : Type 0 where
  pub force_interrupt_phrases : List Text
  pub backchannel_phrases : List Text

-- sorted(phrases, key=len, reverse=True): a stable insertion, longest first.
unfoldable pub insert_longest : Text → List Text → List Text
insert_longest p [] = p ∷ []
insert_longest p (q ∷ qs) =
    let rest = insert_longest p qs in if leb (length q) (length p) then p ∷ (q ∷ qs) else q ∷ rest

unfoldable pub sort_longest : List Text → List Text
unfolding insert_longest
sort_longest [] = []
sort_longest (p ∷ ps) = insert_longest p (sort_longest ps)

-- The phrase is the whole text, or is followed by a blank.
unfoldable pub matches : Text → Text → Bool
unfolding starts_with
matches t p = t == p || starts_with t (p ++ 32 ∷ [])

unfoldable pub first_match : Text → List Text → Option Text
unfolding matches
first_match t [] = none
first_match t (p ∷ ps) = let rest = first_match t ps in if matches t p then some p else rest

unfoldable pub match_phrase : Text → List Text → Option Text
unfolding first_match sort_longest
match_phrase t phrases = if is_nil t then none else first_match t (sort_longest phrases)

-- `a or b` on optional texts: the empty text is as good as `None`.
abbrev pub or_text : Option Text → Option Text → Option Text
or_text none b = b
or_text (some []) b = b
or_text (some (c ∷ cs)) b = some (c ∷ cs)

module _ ⦃u : Unicode⦄ where
  unfoldable pub normal_form : Text → Text
  unfolding normalize_text strip_chars
  normal_form t = strip_chars edge_punctuation (normalize_text t)

  -- frozenset(...)
  unfoldable pub normalize_phrases : List Text → List Text
  unfolding normal_form insert
  normalize_phrases [] = []
  normalize_phrases (p ∷ ps) = insert (normal_form p) (normalize_phrases ps)

  unfoldable pub new : List Text → List Text → PhraseClassifier
  unfolding normalize_phrases
  new force backchannel = record {
    force_interrupt_phrases = normalize_phrases force;
    backchannel_phrases = normalize_phrases backchannel;
  }

  unfoldable pub decide : PhraseClassifier → Text → PhraseDecision
  unfolding normal_form match_phrase word_count
  decide k t =
      let normalized = normal_form t in
      let matched_force = match_phrase normalized k.force_interrupt_phrases in
      let matched_backchannel = match_phrase normalized k.backchannel_phrases in
      record {
        content = t;
        normalized_text = normalized;
        word_count = word_count normalized;
        is_force_interrupt = is_some matched_force;
        is_backchannel = not (is_some matched_force) && is_some matched_backchannel;
        matched_phrase = or_text matched_force matched_backchannel;
      }
