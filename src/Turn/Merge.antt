-- ===== src/Turn/Merge.antt =====
-- core/turn_detection/turn_manager.py: joining two pieces of a transcript.
pub mod Overlap
use voice_agent_v.Prelude.{
  ℕ, zero, suc, ◌-◌, min, Bool, true, false, Option, none, some, List, [], ◌∷◌, ◌++◌, map, length,
  take, drop, is_nil, ◌==◌, nat_eq, list_eq, if◌then◌else◌,
}
use voice_agent_v.Text.{Text, text, Unicode, strip, split, join, is_in, strip_chars}
use voice_agent_v.Turn.Rules.{normalize_text, edge_punctuation}

-- The characters that `merge_turn_text` strips, as the source spells them: where the other rules have
-- the danda, it has that character's UTF-8 bytes read as Latin-1.
abbrev pub merge_punctuation : Text
merge_punctuation = text ".,!?à¥¤ "

-- The longest overlap, of `n` words at most, of the end of one list and the beginning of another.
unfoldable pub overlap_from : ℕ → List Text → List Text → ℕ
overlap_from zero xs ys = 0
overlap_from (suc n) xs ys =
    let rest = overlap_from n xs ys in
    if drop (length xs - suc n) xs == take (suc n) ys then suc n else rest

module _ ⦃u : Unicode⦄ where
  unfoldable pub merge_norm : Text → Text
  merge_norm t = strip_chars merge_punctuation (normalize_text t)

  unfoldable pub dedupe_text : Text → Text
  dedupe_text t = strip_chars edge_punctuation (normalize_text t)

  -- The words of the two texts, those that they overlap in written once.
  unfoldable pub merge_words : Text → Text → Text
  merge_words existing addition =
      let xs = split existing in
      let ys = split addition in
      let xs_norm = map merge_norm xs in
      let ys_norm = map merge_norm ys in
      let n = overlap_from (min (length xs_norm) (length ys_norm)) xs_norm ys_norm in
      if n == 0 then strip (existing ++ 32 ∷ addition) else strip (join (32 ∷ []) (xs ++ drop n ys))

  unfoldable pub merge_turn_text : Text → Text → Text
  merge_turn_text existing addition =
      let e = strip existing in
      let a = strip addition in
      if is_nil e
      then a
      else if is_nil a
      then e
      else if is_in (merge_norm a) (merge_norm e)
      then e
      else if is_in (merge_norm e) (merge_norm a)
      then a
      else merge_words e a
