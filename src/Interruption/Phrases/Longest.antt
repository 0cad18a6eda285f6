-- ===== src/Interruption/Phrases/Longest.antt =====
-- core/interruption/phrase_classifier.py: which of several phrases is matched.
use voice_agent_v.Prelude.{
  ℕ, ◌≤◌, ◌≡◌, refl, sym, ◌∙◌, list_beq_iff, inl, inr, true, false, ◌||◌, none, some, List, [], ◌∷◌,
  arith, ◌==◌, nat_eq, list_eq, length, is_nil, leb, All, Bool-cases,
}
use voice_agent_v.Prelude.Sets.{contains}
use voice_agent_v.Text.{Text}
use voice_agent_v.Interruption.Phrases.{
  insert_longest, sort_longest, matches, first_match, match_phrase,
}

-- Longest first.
abbrev pub IsSorted : List Text → Type 0
IsSorted [] = Unit
IsSorted (p ∷ ps) = All (λ q. length q ≤ length p) ps × IsSorted ps

All-insert :
    (n : ℕ) (p : Text) (ps : List Text)
    → length p ≤ n
    → All (λ q. length q ≤ n) ps
    → All (λ q. length q ≤ n) (insert_longest p ps)
unfolding insert_longest
All-insert n p [] h k = (h, tt)
All-insert n p (q ∷ qs) h k = elim (Bool-cases (leb (length q) (length p))) [
  | inl e ↦ rw e (h, k)
  | inr e ↦ rw e (k.0, All-insert n p qs h k.1)
]

All-mono :
    (m n : ℕ) (ps : List Text) → m ≤ n → All (λ q. length q ≤ m) ps → All (λ q. length q ≤ n) ps
All-mono m n [] h k = tt
All-mono m n (p ∷ ps) h k = (omega arith, All-mono m n ps h k.1)

insert-IsSorted : (p : Text) (ps : List Text) → IsSorted ps → IsSorted (insert_longest p ps)
unfolding insert_longest
insert-IsSorted p [] s = (tt, tt)
insert-IsSorted p (q ∷ qs) s = elim (Bool-cases (leb (length q) (length p))) [
  | inl e ↦ rw e ((ground arith, All-mono (length q) (length p) qs (ground arith) s.0), s)
  | inr e ↦ rw e (All-insert (length q) p qs (ground arith) s.0, insert-IsSorted p qs s.1)
]

sort-IsSorted : (ps : List Text) → IsSorted (sort_longest ps)
unfolding sort_longest
sort-IsSorted [] = tt
sort-IsSorted (p ∷ ps) = insert-IsSorted p (sort_longest ps) (sort-IsSorted ps)

contains-insert_longest :
    (r p : Text) (ps : List Text) → contains r (insert_longest p ps) ≡ (r == p || contains r ps)
unfolding insert_longest
contains-insert_longest r p [] = refl
contains-insert_longest r p (q ∷ qs) = ground (arith, contains-insert_longest r p qs)

contains-sort : (r : Text) (ps : List Text) → contains r (sort_longest ps) ≡ contains r ps
unfolding sort_longest
contains-sort r [] = refl
contains-sort r (p ∷ ps) =
    ground (arith, contains-insert_longest r p (sort_longest ps), contains-sort r ps)

at_most :
    (n : ℕ) (q : Text) (ps : List Text)
    → All (λ r. length r ≤ n) ps
    → contains q ps ≡ true
    → length q ≤ n
at_most n q [] a h = cc
at_most n q (p ∷ ps) a h = ground (arith, list_beq_iff q p, at_most n q ps a.1)

first_match_longest :
    (t : Text) (ps : List Text) (p q : Text)
    → IsSorted ps
    → first_match t ps ≡ some p
    → contains q ps ≡ true
    → matches t q ≡ true
    → length q ≤ length p
unfolding first_match
first_match_longest t [] p q s f c m = cc
first_match_longest t (r ∷ ps) p q s f c m =
    ground (arith, list_beq_iff q r, at_most (length r) q ps s.0, first_match_longest t ps p q s.1)

first_match_sound :
    (t : Text) (ps : List Text) (p : Text)
    → first_match t ps ≡ some p
    → (contains p ps ≡ true) × (matches t p ≡ true)
unfolding first_match
first_match_sound t [] p f = cc
first_match_sound t (r ∷ ps) p f = ground (arith, list_beq_iff p r, first_match_sound t ps p)

first_match_complete :
    (t : Text) (ps : List Text) (q : Text)
    → first_match t ps ≡ none
    → contains q ps ≡ true
    → matches t q ≡ false
unfolding first_match
first_match_complete t [] q f c = cc
first_match_complete t (r ∷ ps) q f c =
    ground (arith, list_beq_iff q r, first_match_complete t ps q)

found_by_sort :
    (t : Text) (phrases : List Text) (p : Text)
    → match_phrase t phrases ≡ some p
    → first_match t (sort_longest phrases) ≡ some p
unfolding match_phrase
found_by_sort t phrases p h = ground arith

-- If a phrase is matched, and a phrase of the classifier fits the text, then the matched one is one of the
-- phrases, fits the text, and is no shorter than the other.
pub match_phrase_longest :
    (t : Text) (phrases : List Text) (p q : Text)
    → match_phrase t phrases ≡ some p
    → contains q phrases ≡ true
    → matches t q ≡ true
    → (contains p phrases ≡ true) × (matches t p ≡ true) × (length q ≤ length p)
match_phrase_longest t phrases p q h c m =
    let found = found_by_sort t phrases p h in
    let (member, fits) = first_match_sound t (sort_longest phrases) p found in
    (
      sym (contains-sort p phrases) ∙ member,
      fits,
      first_match_longest t (sort_longest phrases) p q (sort-IsSorted phrases) found
          (contains-sort q phrases ∙ c) m,
    )

-- If a text that is not empty is not matched, then no phrase of the classifier fits it.
pub match_phrase_complete :
    (t : Text) (phrases : List Text) (q : Text)
    → is_nil t ≡ false
    → match_phrase t phrases ≡ none
    → contains q phrases ≡ true
    → matches t q ≡ false
unfolding match_phrase
match_phrase_complete t phrases q n h c =
    first_match_complete t (sort_longest phrases) q (ground arith) (contains-sort q phrases ∙ c)
