-- ===== src/Text/Split.antt =====
-- str.split() and "sep".join(words), with the maximal runs of characters that both `split` and
-- `re.findall` of a class of characters return.
use voice_agent_v.Prelude.{
  ℕ, ◌≡◌, refl, sym, ap, ◌∙◌, Bool, true, false, not, List, [], ◌∷◌, ◌++◌, arith, is_nil, inl, inr,
  if◌then◌else◌, Bool-cases, All, append-nil,
}
use voice_agent_v.Text.Chars.{Text, is_space}
use voice_agent_v.Text.Strip.{lstrip_by, rstrip_by, strip_by, strip}

-- A run that has ended: an empty one is no word.
abbrev pub close : Text → List Text → List Text
close [] ws = ws
close (c ∷ cs) ws = (c ∷ cs) ∷ ws

-- The run that the text begins with, and the words behind it.
unfoldable pub runs : (ℕ → Bool) → Text → Text × List Text
runs p [] = ([], [])
runs p (c ∷ cs) = let (w, ws) = runs p cs in if p c then (c ∷ w, ws) else ([], close w ws)

unfoldable pub words_by : (ℕ → Bool) → Text → List Text
unfolding runs
words_by p cs = let (w, ws) = runs p cs in close w ws

abbrev pub not_space : ℕ → Bool
not_space c = not (is_space c)

-- t.split()
unfoldable pub split : Text → List Text
unfolding words_by
split = words_by not_space

-- sep.join(words)
unfoldable pub join : Text → List Text → Text
join sep [] = []
join sep (w ∷ []) = w
join sep (w ∷ (v ∷ ws)) = w ++ (sep ++ join sep (v ∷ ws))

-- A word of a class: not empty, and all its characters in the class.
abbrev pub IsWord : (ℕ → Bool) → Text → Type 0
IsWord p w = (is_nil w ≡ false) × All (λ c. p c ≡ true) w

module _ (p : ℕ → Bool) where
  close-IsWord :
      (w : Text) (ws : List Text)
      → All (λ c. p c ≡ true) w
      → All (IsWord p) ws
      → All (IsWord p) (close w ws)
  close-IsWord [] ws h k = k
  close-IsWord (c ∷ w) ws h k = ((refl, h), k)

  runs-IsWord : (cs : Text) → All (λ c. p c ≡ true) (runs p cs).0 × All (IsWord p) (runs p cs).1
  unfolding runs
  runs-IsWord [] = (tt, tt)
  runs-IsWord (c ∷ cs) = elim (Bool-cases (p c)) [
    | inl h ↦ rw h ((h, (runs-IsWord cs).0), (runs-IsWord cs).1)
    | inr h ↦
        rw h (tt, close-IsWord (runs p cs).0 (runs p cs).1 (runs-IsWord cs).0 (runs-IsWord cs).1)
  ]

  -- The words are words of the class.
  pub words_by-IsWord : (cs : Text) → All (IsWord p) (words_by p cs)
  unfolding words_by
  words_by-IsWord cs =
      close-IsWord (runs p cs).0 (runs p cs).1 (runs-IsWord cs).0 (runs-IsWord cs).1

  runs-word :
      (w cs : Text)
      → All (λ c. p c ≡ true) w
      → runs p (w ++ cs) ≡ (w ++ (runs p cs).0, (runs p cs).1)
  unfolding runs
  runs-word [] cs h = refl
  runs-word (c ∷ w) cs h = rw (runs-word w cs h.1) (rw h.0 refl)

  runs-whole : (w : Text) → All (λ c. p c ≡ true) w → runs p w ≡ (w, [])
  unfolding runs
  runs-whole [] h = refl
  runs-whole (c ∷ w) h = rw (runs-whole w h.1) (rw h.0 refl)

  words_by-whole : (w : Text) → IsWord p w → words_by p w ≡ w ∷ []
  unfolding words_by
  words_by-whole [] h = cc
  words_by-whole (c ∷ w) h = rw (runs-whole (c ∷ w) h.1) refl

  runs-separator : (c : ℕ) (cs : Text) → p c ≡ false → runs p (c ∷ cs) ≡ ([], words_by p cs)
  unfolding words_by
  runs-separator c cs h = rw h

  words_by-separator : (c : ℕ) (cs : Text) → p c ≡ false → words_by p (c ∷ cs) ≡ words_by p cs
  unfolding words_by
  words_by-separator c cs h = rw h refl

  words_by-word :
      (w : Text) (c : ℕ) (cs : Text)
      → IsWord p w
      → p c ≡ false
      → words_by p (w ++ c ∷ cs) ≡ w ∷ words_by p cs
  words_by-word [] c cs h k = cc
  words_by-word (x ∷ w) c cs h k =
      unfold words_by in rw (runs-word (x ∷ w) (c ∷ cs) h.1, runs-separator c cs k, append-nil) refl

  close-append : (w : Text) (us vs : List Text) → close w (us ++ vs) ≡ close w us ++ vs
  close-append [] us vs = refl
  close-append (c ∷ w) us vs = refl

  runs-append :
      (c : ℕ) (xs ys : Text)
      → p c ≡ false
      → runs p (xs ++ c ∷ ys) ≡ ((runs p xs).0, (runs p xs).1 ++ words_by p ys)
  unfolding runs
  runs-append c [] ys h = runs-separator c ys h
  runs-append c (x ∷ xs) ys h = elim (Bool-cases (p x)) [
    | inl e ↦ rw (runs-append c xs ys h) (rw e refl)
    | inr e ↦
        rw (runs-append c xs ys h)
          (rw e (ap (λ ws. ([], ws)) (close-append (runs p xs).0 (runs p xs).1 (words_by p ys))))
  ]

  -- Two texts with a character outside the class between them have the words of both.
  pub words_by-append :
      (c : ℕ) (xs ys : Text)
      → p c ≡ false
      → words_by p (xs ++ c ∷ ys) ≡ words_by p xs ++ words_by p ys
  words_by-append c xs ys h =
      unfold words_by in
      rw (runs-append c xs ys h) (close-append (runs p xs).0 (runs p xs).1 (words_by p ys))

  -- Joined by a character outside the class, the words come back.
  pub words_by-join :
      (c : ℕ) (ws : List Text)
      → p c ≡ false
      → All (IsWord p) ws
      → words_by p (join (c ∷ []) ws) ≡ ws
  unfolding join
  words_by-join c [] k h = unfold words_by in refl
  words_by-join c (w ∷ []) k h = words_by-whole w h.0
  words_by-join c (w ∷ (v ∷ ws)) k h =
      words_by-word w c (join (c ∷ []) (v ∷ ws)) h.0 k
      ∙ ap (λ (t : List Text). w ∷ t) (words_by-join c (v ∷ ws) k h.1)

  -- Characters outside the class at either end make no difference.
  words_by-lstrip :
      (q : ℕ → Bool) (cs : Text)
      → ((c : ℕ) → q c ≡ true → p c ≡ false)
      → words_by p (lstrip_by q cs) ≡ words_by p cs
  unfolding lstrip_by
  words_by-lstrip q [] h = refl
  words_by-lstrip q (c ∷ cs) h = elim (Bool-cases (q c)) [
    | inl e ↦ rw e (words_by-lstrip q cs h ∙ sym (words_by-separator c cs (h c e)))
    | inr e ↦ rw e refl
  ]

  runs-rstrip :
      (q : ℕ → Bool) (cs : Text)
      → ((c : ℕ) → q c ≡ true → p c ≡ false)
      → runs p (rstrip_by q cs) ≡ runs p cs
  unfolding rstrip_by runs
  runs-rstrip q [] h = refl
  runs-rstrip q (c ∷ cs) h = ground (arith, runs-rstrip q cs h, h c)

  pub words_by-strip :
      (q : ℕ → Bool) (cs : Text)
      → ((c : ℕ) → q c ≡ true → p c ≡ false)
      → words_by p (strip_by q cs) ≡ words_by p cs
  unfolding strip_by
  words_by-strip q cs h =
      unfold words_by in
      ap (λ (r : Text × List Text). close r.0 r.1) (runs-rstrip q (lstrip_by q cs) h)
      ∙ words_by-lstrip q cs h

pub split-append : (s t : Text) → split (s ++ 32 ∷ t) ≡ split s ++ split t
unfolding split is_space
split-append s t = words_by-append not_space 32 s t refl

-- The words of a text are those of the text without white space at its ends.
pub split-strip : (cs : Text) → split (strip cs) ≡ split cs
unfolding split strip
split-strip cs = words_by-strip not_space is_space cs (λ c h. rw h)

-- Words joined by one blank come back.
pub split-join : (ws : List Text) → All (IsWord not_space) ws → split (join (32 ∷ []) ws) ≡ ws
unfolding split is_space
split-join ws h = words_by-join not_space 32 ws refl h

pub split-IsWord : (cs : Text) → All (IsWord not_space) (split cs)
unfolding split
split-IsWord cs = words_by-IsWord not_space cs
