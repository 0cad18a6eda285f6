-- ===== src/Response/Aggregator/Boundary.antt =====
-- Where a long text is cut.
use voice_agent_v.Prelude.{
  ℕ, zero, suc, ◌<◌, ◌≤◌, ◌≡◌, refl, sym, ap, ◌∙◌, Option, none, some, [], ◌∷◌, ◌++◌, arith, take,
  drop, length, length-take, append-nil, take-append-drop, inl, inr, ◌==◌, nat_eq, eq→≡, Bool-cases,
}
use mathlib.Core.Option.{none-ne-some, some-injective}
use voice_agent_v.Text.{Text, split, split-append}
use voice_agent_v.Response.Sanitize.{sanitize_for_speech}
use voice_agent_v.Response.Aggregator.{
  SentenceAggregator, concat, current_text, rfind_blank, rfind_step, split_at, flush_at,
  flush_at_word_boundary,
}

-- A blank stands at the position, which lies in the text.
abbrev pub BlankAt : Text → ℕ → Type 0
BlankAt t i = (i < length t) × ((rest : Text) × (drop i t ≡ 32 ∷ rest))

rfind_step-BlankAt :
    (c : ℕ) (cs : Text) (i : ℕ) (o : Option ℕ)
    → ((j : ℕ) → o ≡ some j → BlankAt cs j)
    → rfind_step c o ≡ some i
    → BlankAt (c ∷ cs) i
rfind_step-BlankAt c cs i none behind h = elim (Bool-cases (c == 32)) [
  | inl e ↦ let z : i ≡ 0 = ground arith in rw (z, eq→≡ c 32 e) (omega arith, (cs, refl))
  | inr e ↦ ground arith
]
rfind_step-BlankAt c cs i (some j) behind h =
    rw (sym (some-injective (suc j) i h)) (omega (arith, (behind j refl).0), (behind j refl).1)

rfind_blank-BlankAt : (t : Text) (i : ℕ) → rfind_blank t ≡ some i → BlankAt t i
unfolding rfind_blank
rfind_blank-BlankAt [] i h = absurd (none-ne-some i h)
rfind_blank-BlankAt (c ∷ cs) i h =
    rfind_step-BlankAt c cs i (rfind_blank cs) (rfind_blank-BlankAt cs) h

drop-take :
    (i n : ℕ) (t rest : Text)
    → drop i (take n t) ≡ 32 ∷ rest
    → (rest' : Text) × (drop i t ≡ 32 ∷ rest')
drop-take zero zero t rest h = absurd (ground arith)
drop-take (suc i) zero t rest h = absurd (ground arith)
drop-take zero (suc n) [] rest h = absurd (ground arith)
drop-take (suc i) (suc n) [] rest h = absurd (ground arith)
drop-take zero (suc n) (c ∷ t) rest h = (t, ground arith)
drop-take (suc i) (suc n) (c ∷ t) rest h = drop-take i n t rest h

current_text-split_at :
    (later : ℕ) (a : SentenceAggregator) (i : ℕ)
    → current_text (split_at later a i).0 ≡ drop i (current_text a)
unfolding current_text split_at concat
current_text-split_at later a i = append-nil (drop i (concat a.buffer))

-- A blank in front adds no word.
split-blank : (t : Text) → split (32 ∷ t) ≡ split t
unfolding split
split-blank t = split-append [] t

split-at-blank : (s u rest : Text) → u ≡ 32 ∷ rest → split (s ++ u) ≡ split s ++ split u
split-at-blank s u rest e = rw e (rw (split-append s rest, split-blank rest))

-- The last blank of a text.
pub record IsLastBlank (t : Text) (i : ℕ) : Type 0 where
  pub blank : BlankAt t i
  pub last : (j : ℕ) → BlankAt t j → j ≤ i

rfind_step-some : (c k : ℕ) (o : Option ℕ) → o ≡ some k → rfind_step c o ≡ some (suc k)
rfind_step-some c k none e = absurd (none-ne-some k e)
rfind_step-some c k (some j) e = ap (λ n. some (suc n)) (some-injective j k e)

rfind_step-blank : (o : Option ℕ) → (k : ℕ) × (rfind_step 32 o ≡ some k)
rfind_step-blank none = (0, refl)
rfind_step-blank (some k) = (suc k, refl)

-- The search finds a blank that is not before a given one.
rfind_blank-last : (t : Text) (j : ℕ) → BlankAt t j → (k : ℕ) × ((rfind_blank t ≡ some k) × (j ≤ k))
unfolding rfind_blank
rfind_blank-last [] j (l, at) = absurd (omega (arith, l))
rfind_blank-last (c ∷ cs) zero (l, (rest, at)) =
    let (k, e) = rfind_step-blank (rfind_blank cs) in
    let is_blank : c ≡ 32 = ground (arith, at) in
    (k, (ap (λ d. rfind_step d (rfind_blank cs)) is_blank ∙ e, omega arith))
rfind_blank-last (c ∷ cs) (suc j) (l, at) =
    let (k, (e, b)) = rfind_blank-last cs j (omega (arith, l), at) in
    (suc k, (rfind_step-some c k (rfind_blank cs) e, omega (arith, b)))

rfind_blank-IsLastBlank : (t : Text) (i : ℕ) → IsLastBlank t i → rfind_blank t ≡ some i
rfind_blank-IsLastBlank t i h =
    let (k, (e, b)) = rfind_blank-last t i h.blank in
    let same : k ≡ i = omega (arith, b, h.last k (rfind_blank-BlankAt t k e)) in e ∙ ap some same

-- What the search finds is the last blank.
pub IsLastBlank-rfind_blank : (t : Text) (i : ℕ) → rfind_blank t ≡ some i → IsLastBlank t i
IsLastBlank-rfind_blank t i h = record {
  blank = rfind_blank-BlankAt t i h;
  last = λ j b.
      let (k, (e, l)) = rfind_blank-last t j b in omega (arith, l, some-injective k i (sym e ∙ h));
}

-- Where the first characters of the buffered text, as many as the limit allows, have a last blank, and
-- this is not the first character: the chunk that is emitted is the text before it, made fit to be
-- spoken, which is shorter than the limit; the text from it on stays in the buffer; and no word is cut,
-- since the words of the text are those of the two pieces.
pub flush_at_word_boundary_words :
    (later : ℕ) (a : SentenceAggregator) (i : ℕ)
    → IsLastBlank (take a.max_chars (current_text a)) (suc i)
    → let (a', emitted) = flush_at_word_boundary later a in
      let before = take (suc i) (current_text a) in
      (emitted ≡ sanitize_for_speech before)
      × (length before < a.max_chars)
      × (current_text a' ≡ drop (suc i) (current_text a))
      × (split (current_text a) ≡ split before ++ split (current_text a'))
unfolding flush_at_word_boundary flush_at
flush_at_word_boundary_words later a i last =
    let t = current_text a in
    let h = rfind_blank-IsLastBlank (take a.max_chars t) (suc i) last in
    let at = last.blank in
    let (rest, cut) = drop-take (suc i) a.max_chars t at.1.0 at.1.1 in
    (
      rw h (unfold split_at in refl),
      omega (arith, at.0, length-take a.max_chars t, length-take (suc i) t),
      rw h (current_text-split_at later a (suc i)),
      ap split (sym (take-append-drop (suc i) t))
          ∙ rw (h, current_text-split_at later a (suc i))
              (split-at-blank (take (suc i) t) (drop (suc i) t) rest cut),
    )
