-- ===== src/Listener/Phrases/Windows.antt =====
-- core/listener/end_call_listener.py: the search by positions, and words that stand together.
use voice_agent_v.Prelude.{
  ℕ, zero, suc, ◌+◌, ◌-◌, ◌≤◌, ◌<◌, ◌≡◌, ◌↔◌, refl, sym, ap, ◌∙◌, Bool, true, false, List, [], ◌∷◌,
  ◌++◌, ◌==◌, list_eq, nat_eq, any, take, drop, length, length-append, take-append-drop, is_nil,
  arith, eq→≡, eq_refl, Bool-cases, inl, inr,
}
use voice_agent_v.Text.{Text, split}
use voice_agent_v.Listener.Phrases.{count_from, window, has_window, contains_phrase}

any-count_from_sound :
    (p : ℕ → Bool) (i n : ℕ) → any p (count_from i n) ≡ true → (k : ℕ) × (p k ≡ true)
unfolding count_from
any-count_from_sound p i zero h = absurd (ground arith)
any-count_from_sound p i (suc n) h = elim (Bool-cases (p i)) [
  | inl e ↦ (i, e)
  | inr e ↦ any-count_from_sound p (suc i) n (ground arith)
]

any-count_from_complete :
    (p : ℕ → Bool) (i n k : ℕ) → i ≤ k → k < i + n → p k ≡ true → any p (count_from i n) ≡ true
unfolding count_from
any-count_from_complete p i zero k l h e = absurd (omega arith)
any-count_from_complete p i (suc n) k l h e = elim (Bool-cases (k == i)) [
  | inl same ↦ rw (← eq→≡ k i same, e) refl
  | inr differs ↦
      let later : any p (count_from (suc i) n) ≡ true =
        any-count_from_complete p (suc i) n k (ground arith) (omega arith) e in
      ground arith
]

module _ {ℓ} {A : Type ℓ} where
  take-append : (xs ys : List A) → take (length xs) (xs ++ ys) ≡ xs
  take-append [] ys = refl
  take-append (x ∷ xs) ys = rw (take-append xs ys)

  drop-append : (xs ys : List A) → drop (length xs) (xs ++ ys) ≡ ys
  drop-append [] ys = refl
  drop-append (x ∷ xs) ys = drop-append xs ys

has_window-split :
    (ts ps : List Text)
    → has_window ts ps ≡ true
    → (before after : List Text) × (ts ≡ before ++ (ps ++ after))
unfolding has_window window
has_window-split ts ps h =
    let (i, e) = any-count_from_sound (window ts ps) 0 (length ts + 1 - length ps) h in
    (
      take i ts,
      drop (length ps) (drop i ts),
      sym (take-append-drop i ts)
          ∙ ap (λ (us : List Text). take i ts ++ us)
              (sym (take-append-drop (length ps) (drop i ts))
                ∙ ap (λ (us : List Text). us ++ drop (length ps) (drop i ts))
                    (eq→≡ (take (length ps) (drop i ts)) ps e)),
    )

has_window-append : (before ps after : List Text) → has_window (before ++ (ps ++ after)) ps ≡ true
unfolding has_window window
has_window-append before ps after =
    let ts = before ++ (ps ++ after) in
    any-count_from_complete (window ts ps) 0 (length ts + 1 - length ps) (length before)
      (omega arith) (omega (arith, length-append before (ps ++ after), length-append ps after))
      (rw (drop-append before (ps ++ after), take-append ps after) (eq_refl ps))

abbrev pub Infix : List Text → List Text → Type 0
Infix ps ts = (before after : List Text) × (ts ≡ before ++ (ps ++ after))

has_window-Infix : (ts ps : List Text) → (has_window ts ps ≡ true) ↔ Infix ps ts
has_window-Infix ts ps = (has_window-split ts ps, λ f. rw f.2 (has_window-append f.0 ps f.1))

infix-nonempty : (ts ps : List Text) → is_nil ps ≡ false → Infix ps ts → is_nil ts ≡ false
infix-nonempty [] [] h f = h
infix-nonempty [] (p ∷ ps) h f =
    absurd (omega (arith, ap length f.2, length-append f.0 ((p ∷ ps) ++ f.1)))
infix-nonempty (t ∷ ts) ps h f = refl

-- A phrase is found in a text exactly if it has a word and its words stand in the text next to each
-- other, in their order: never inside a longer word, and never across other words.
pub contains_phrase-Infix :
    (t p : Text)
    → (contains_phrase t p ≡ true) ↔ ((is_nil (split p) ≡ false) × Infix (split p) (split t))
unfolding contains_phrase
contains_phrase-Infix t p =
    ground (arith, has_window-Infix (split t) (split p), infix-nonempty (split t) (split p))
