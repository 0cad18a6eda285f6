-- ===== src/Text/Prefix.antt =====
-- One text begins another.
use voice_agent_v.Prelude.{
  ℕ, zero, suc, ◌≤◌, ◌≡◌, refl, ap, Bool, false, ◌&&◌, [], ◌∷◌, arith, is_nil, take, length, inl,
  inr, Bool-cases,
}
use voice_agent_v.Text.Chars.{Text, is_space}
use voice_agent_v.Text.Strip.{rstrip_by, rstrip}

abbrev pub IsPrefix : Text → Text → Type 0
IsPrefix [] t = Unit
IsPrefix (c ∷ s) [] = ⊥
IsPrefix (c ∷ s) (d ∷ t) = (c ≡ d) × IsPrefix s t

pub IsPrefix-refl : (t : Text) → IsPrefix t t
IsPrefix-refl [] = tt
IsPrefix-refl (c ∷ t) = (refl, IsPrefix-refl t)

pub IsPrefix-trans : (s t u : Text) → IsPrefix s t → IsPrefix t u → IsPrefix s u
IsPrefix-trans [] t u p q = tt
IsPrefix-trans (c ∷ s) [] u p q = absurd p
IsPrefix-trans (c ∷ s) (d ∷ t) [] p q = absurd q
IsPrefix-trans (c ∷ s) (d ∷ t) (e ∷ u) p q = (cc, IsPrefix-trans s t u p.1 q.1)

pub IsPrefix-take : (n : ℕ) (t : Text) → IsPrefix (take n t) t
IsPrefix-take zero t = tt
IsPrefix-take (suc n) [] = tt
IsPrefix-take (suc n) (c ∷ t) = (refl, IsPrefix-take n t)

module _ (p : ℕ → Bool) where
  IsPrefix-rstrip_by : (t : Text) → IsPrefix (rstrip_by p t) t
  unfolding rstrip_by
  IsPrefix-rstrip_by [] = tt
  IsPrefix-rstrip_by (c ∷ t) = elim (Bool-cases (p c && is_nil (rstrip_by p t))) [
    | inl e ↦ rw e tt
    | inr e ↦ rw e (refl, IsPrefix-rstrip_by t)
  ]

  is_nil-prefix : (s t : Text) → IsPrefix s t → is_nil s ≡ false → is_nil t ≡ false
  is_nil-prefix [] t h e = cc
  is_nil-prefix (c ∷ s) [] h e = absurd h
  is_nil-prefix (c ∷ s) (d ∷ t) h e = refl

  still_there :
      (c d : ℕ) (s t : Text)
      → c ≡ d
      → IsPrefix s t
      → (p c && is_nil s) ≡ false
      → (p d && is_nil t) ≡ false
  still_there c d s t same h e = ground (arith, is_nil-prefix s t h, ap p same)

  -- Stripping on the right keeps the order of prefixes.
  rstrip_by_mono : (s t : Text) → IsPrefix s t → IsPrefix (rstrip_by p s) (rstrip_by p t)
  unfolding rstrip_by
  rstrip_by_mono [] t h = tt
  rstrip_by_mono (c ∷ s) [] h = absurd h
  rstrip_by_mono (c ∷ s) (d ∷ t) h =
      let rest = rstrip_by_mono s t h.1 in
      elim (Bool-cases (p c && is_nil (rstrip_by p s))) [
        | inl e ↦ rw e tt
        | inr e ↦ rw (e, still_there c d (rstrip_by p s) (rstrip_by p t) h.0 rest e) (h.0, rest)
      ]

pub IsPrefix-rstrip : (t : Text) → IsPrefix (rstrip t) t
unfolding rstrip
IsPrefix-rstrip t = IsPrefix-rstrip_by is_space t

pub rstrip_mono : (s t : Text) → IsPrefix s t → IsPrefix (rstrip s) (rstrip t)
unfolding rstrip
rstrip_mono s t h = rstrip_by_mono is_space s t h

pub take_mono : (m n : ℕ) (t : Text) → m ≤ n → IsPrefix (take m t) (take n t)
take_mono zero n t h = tt
take_mono (suc m) zero t h = absurd (omega arith)
take_mono (suc m) (suc n) [] h = tt
take_mono (suc m) (suc n) (c ∷ t) h = (refl, take_mono m n t (omega arith))

pub length-prefix : (s t : Text) → IsPrefix s t → length s ≤ length t
length-prefix [] t h = omega arith
length-prefix (c ∷ s) [] h = absurd h
length-prefix (c ∷ s) (d ∷ t) h = omega (arith, length-prefix s t h.1)
