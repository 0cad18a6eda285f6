-- ===== src/Turn/Merge/Overlap.antt =====
-- core/turn_detection/turn_manager.py: the overlap that `merge_turn_text` removes, and the words it keeps.
use native.Mathlib.Numerals.{unary_clauses}
use voice_agent_v.Prelude.{
  ℕ, zero, suc, ◌-◌, ◌≤◌, min, ◌≡◌, refl, sym, ◌∙◌, inl, inr, false, List, [], ◌∷◌, ◌++◌, map,
  length, take, drop, is_nil, ◌==◌, nat_eq, list_eq, list_beq_iff, eq→≡, arith, Bool-cases, All,
}
use voice_agent_v.Text.{
  Text, Unicode, strip, split, join, is_in, split-append, split-join, split-strip, split-IsWord,
}
use voice_agent_v.Turn.Merge.{overlap_from, merge_norm, merge_words, merge_turn_text}

-- The last `k` words of one list are the first `k` of another.
abbrev pub Overlaps : ℕ → List Text → List Text → Type 0
Overlaps k xs ys = drop (length xs - k) xs ≡ take k ys

drop-length : (xs : List Text) → drop (length xs) xs ≡ []
drop-length [] = refl
drop-length (x ∷ xs) = drop-length xs

below_failed :
    (k n : ℕ) (xs ys : List Text) (r : ℕ)
    → (drop (length xs - suc n) xs == take (suc n) ys) ≡ false
    → k ≤ suc n
    → Overlaps k xs ys
    → (k ≤ n → k ≤ r)
    → k ≤ r
below_failed k n xs ys r e h i f = elim (Bool-cases (k == suc n)) [
  | inl c ↦
      let s : drop (length xs - suc n) xs ≡ take (suc n) ys = rw (sym (eq→≡ k (suc n) c)) i in
      let t = (list_beq_iff (drop (length xs - suc n) xs) (take (suc n) ys)).1 s in cc
  | inr c ↦ f (ground arith)
]

-- `l` is the greatest number of words, up to `n`, in which the lists overlap.
pub record IsLongest (l n : ℕ) (xs ys : List Text) : Type 0 where
  pub bounded : l ≤ n
  pub overlaps : Overlaps l xs ys
  pub longest : (k : ℕ) → k ≤ n → Overlaps k xs ys → k ≤ l

overlap_from-IsLongest : (n : ℕ) (xs ys : List Text) → IsLongest (overlap_from n xs ys) n xs ys
unfolding overlap_from
overlap_from-IsLongest zero xs ys = record {
  bounded = omega arith;
  overlaps = simp unary_clauses (drop-length xs);
  longest = λ k h _. h;
}
overlap_from-IsLongest (suc n) xs ys =
    let rest = overlap_from-IsLongest n xs ys in
    elim (Bool-cases (drop (length xs - suc n) xs == take (suc n) ys)) [
      | inl e ↦ rw e (record { bounded = omega arith; overlaps = eq→≡ _ _ e; longest = λ k h _. h })
      | inr e ↦ rw e (record {
        bounded = omega (arith, rest.bounded);
        overlaps = rest.overlaps;
        longest = λ k h i. below_failed k n xs ys _ e h i (λ b. rest.longest k b i);
      })
    ]

All-append : (P : Text → Type 0) (xs ys : List Text) → All P xs → All P ys → All P (xs ++ ys)
All-append P [] ys h k = k
All-append P (x ∷ xs) ys h k = (h.0, All-append P xs ys h.1 k)

All-drop : (P : Text → Type 0) (n : ℕ) (xs : List Text) → All P xs → All P (drop n xs)
All-drop P zero xs h = h
All-drop P (suc n) [] h = h
All-drop P (suc n) (x ∷ xs) h = All-drop P n xs h.1

length-map : (f : Text → Text) (xs : List Text) → length (map f xs) ≡ length xs
length-map f [] = refl
length-map f (x ∷ xs) = omega (arith, length-map f xs)

module _ ⦃u : Unicode⦄ where
  -- The number of words that the end of one text and the beginning of another share.
  abbrev overlap : Text → Text → ℕ
  overlap e a =
      overlap_from (min (length (map merge_norm (split e))) (length (map merge_norm (split a))))
        (map merge_norm (split e)) (map merge_norm (split a))

  merge_words-split :
      (e a : Text) → split (merge_words e a) ≡ split e ++ drop (overlap e a) (split a)
  unfolding merge_words
  merge_words-split e a = elim (Bool-cases (overlap e a == 0)) [
    | inl h ↦ rw h (rw (eq→≡ (overlap e a) 0 h) (split-strip (e ++ 32 ∷ a) ∙ split-append e a))
    | inr h ↦ rw h (
        split-strip (join (32 ∷ []) (split e ++ drop (overlap e a) (split a)))
        ∙ split-join _ (
            All-append _ (split e) _ (split-IsWord e)
              (All-drop _ (overlap e a) (split a) (split-IsWord a))))
  ]

  -- Where neither text is empty or contains the other, the words of the merged text are those of the
  -- first and, behind them, those of the second without its first `n`, where `n` is the greatest
  -- number of words, as they are compared, that are both the last of the first text and the first of
  -- the second.
  pub merge_turn_text-split :
      (e a : Text)
      → is_nil (strip e) ≡ false
      → is_nil (strip a) ≡ false
      → is_in (merge_norm (strip a)) (merge_norm (strip e)) ≡ false
      → is_in (merge_norm (strip e)) (merge_norm (strip a)) ≡ false
      → (n : ℕ) × IsLongest n
          (min (length (split e)) (length (split a)))
          (map merge_norm (split e))
          (map merge_norm (split a))
        × (split (merge_turn_text e a) ≡ split e ++ drop n (split a))
  unfolding merge_turn_text
  merge_turn_text-split e a i j k l = (
    overlap e a,
    rw (← length-map merge_norm (split e), ← length-map merge_norm (split a))
        (overlap_from-IsLongest _ _ _),
    rw (i, j, k, l)
        (merge_words-split (strip e) (strip a) ∙ rw (split-strip e, split-strip a) refl),
  )
