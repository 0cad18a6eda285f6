-- ===== src/Turn/Rules.antt =====
-- core/turn_detection/rules.py: the normal form of a transcript, its words, and the phrase tables.
use voice_agent_v.Prelude.{
  ℕ, Bool, false, ◌||◌, Option, none, some, List, [], ◌∷◌, ◌==◌, nat_eq, list_eq, length, get_last?,
}
use voice_agent_v.Prelude.Sets.{contains}
use voice_agent_v.Text.{
  Text, text, Unicode, casefold, strip, split, join, words_by, strip_chars, ends_with,
}

abbrev pub incomplete_endings : List Text
incomplete_endings =
    text "aur"
    ∷ text "ki"
    ∷ text "ke"
    ∷ text "to"
    ∷ text "phir"
    ∷ text "matlab"
    ∷ text "jaise"
    ∷ text "kyunki"
    ∷ text "but"
    ∷ text "and"
    ∷ text "so"
    ∷ text "because"
    ∷ text "then"
    ∷ text "actually"
    ∷ []

abbrev pub complete_short_answers : List Text
complete_short_answers =
    text "haan"
    ∷ text "ha"
    ∷ text "nahi"
    ∷ text "nahin"
    ∷ text "yes"
    ∷ text "no"
    ∷ text "ji"
    ∷ text "ok"
    ∷ text "okay"
    ∷ text "theek hai"
    ∷ text "thik hai"
    ∷ text "kal"
    ∷ text "aaj"
    ∷ text "abhi"
    ∷ []

abbrev pub terminal_punctuation : Text
terminal_punctuation = text ".?!।"

-- The characters that the rules strip from a normal form.
abbrev pub edge_punctuation : Text
edge_punctuation = text ".,!?। "

module _ ⦃u : Unicode⦄ where
  unfoldable pub normalize_text : Text → Text
  unfolding casefold strip split join
  normalize_text t = join (32 ∷ []) (split (strip (casefold t)))

  -- `_WORD_RE` is [\w']+.
  unfoldable pub words : Text → List Text
  unfolding normalize_text words_by
  words t = words_by (λ c. u.is_word c || c == 39) (normalize_text t)

  unfoldable pub word_count : Text → ℕ
  unfolding words
  word_count t = length (words t)

  abbrev ends_in : List Text → Option Text → Bool
  ends_in table none = false
  ends_in table (some w) = contains w table

  unfoldable pub ends_with_incomplete_connector : Text → Bool
  unfolding words
  ends_with_incomplete_connector t = ends_in incomplete_endings (get_last? (words t))

  unfoldable pub is_complete_short_answer : Text → Bool
  unfolding normalize_text strip_chars
  is_complete_short_answer t =
      contains (strip_chars edge_punctuation (normalize_text t)) complete_short_answers

  unfoldable pub has_terminal_punctuation : Text → Bool
  unfolding normalize_text ends_with
  has_terminal_punctuation t = ends_with (normalize_text t) terminal_punctuation
