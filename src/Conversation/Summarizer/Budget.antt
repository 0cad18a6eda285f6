-- ===== src/Conversation/Summarizer/Budget.antt =====
-- The budget of the summary, and what is dropped to keep it.
use voice_agent_v.Prelude.{
  ℕ, zero, suc, ◌≤◌, ◌<◌, ◌≡◌, refl, true, false, List, [], ◌∷◌, leb, length, drop, arith,
  Bool-cases, inl, inr, leb→le, if◌then◌else◌, is_nil,
}
use voice_agent_v.Text.{Text, text, strip, join}
use voice_agent_v.Conversation.Summarizer.{
  SummaryTurn, newline, fit, splitlines, trim_summary, update, pieces,
}

-- The first `k` lines are dropped until the rest fits: it does, and with any fewer dropped it does
-- not.
pub record IsCut (n k : ℕ) (ls : List Text) : Type 0 where
  pub fits : length (join newline (drop k ls)) ≤ n
  pub needed : (j : ℕ) → j < k → n < length (join newline (drop j ls))

IsCut-suc :
    (n k : ℕ) (l : Text) (ls : List Text)
    → n < length (join newline (l ∷ ls))
    → IsCut n k ls
    → IsCut n (suc k) (l ∷ ls)
IsCut-suc n k l ls h c = record { fits = c.fits; needed = needed }
  where
    needed : (j : ℕ) → j < suc k → n < length (join newline (drop j (l ∷ ls)))
    needed zero b = h
    needed (suc j) b = c.needed j (omega (arith, b))

fit-IsCut : (n : ℕ) (ls : List Text) → (k : ℕ) × (IsCut n k ls × (fit n ls ≡ drop k ls))
unfolding fit
fit-IsCut n [] = (
  0,
  (record { fits = unfold join in omega arith; needed = λ j b. absurd (omega (arith, b)) }, refl),
)
fit-IsCut n (l ∷ ls) = elim (Bool-cases (leb (length (join newline (l ∷ ls))) n)) [
  | inl e ↦ rw e (
    0,
    (
      record {
        fits = leb→le (length (join newline (l ∷ ls))) n e;
        needed = λ j b. absurd (omega (arith, b));
      },
      refl,
    ),
  )
  | inr e ↦
      let (k, (c, d)) = fit-IsCut n ls in rw e (suc k, (IsCut-suc n k l ls (ground arith) c, d))
]

leb-lt : (a b : ℕ) → b < a → leb a b ≡ false
leb-lt a b h = ground arith

le-leb : (a b : ℕ) → a ≤ b → leb a b ≡ true
le-leb a b h = ground arith

-- A summary that is too long loses its first lines, whole lines only, and no more of them than it
-- takes for the rest to fit. The last resort of the source, to keep the last characters of what is
-- left, is never taken.
pub trim_summary_drops :
    (summary : Text) (n : ℕ)
    → 0 < n
    → n < length summary
    → (k : ℕ) × IsCut n k (splitlines summary)
      × (trim_summary summary n ≡ join (text "\n") (drop k (splitlines summary)))
unfolding trim_summary
trim_summary_drops summary n p h =
    let (k, (c, d)) = fit-IsCut n (splitlines summary) in
    (
      k,
      c,
      rw
          (
            leb-lt n 0 p,
            leb-lt (length summary) n h,
            d,
            le-leb (length (join newline (drop k (splitlines summary)))) n c.fits,
          )
          refl,
    )

length-trim_summary : (summary : Text) (n : ℕ) → length (trim_summary summary n) ≤ n
unfolding trim_summary
length-trim_summary summary zero = omega arith
length-trim_summary summary (suc n) = elim (Bool-cases (leb (length summary) (suc n))) [
  | inl e ↦ rw (leb-lt (suc n) 0 (omega arith), e) (leb→le (length summary) (suc n) e)
  | inr e ↦
      let (k, c, d) = trim_summary_drops summary (suc n) (omega arith) (ground arith) in rw d c.fits
]

-- The summary is never longer than its budget, whatever is added to it.
pub length-update :
    (n : ℕ) (current : Text) (turns : List SummaryTurn) → length (update n current turns) ≤ n
unfolding update
length-update n current turns =
    length-trim_summary
      (join newline (if is_nil (strip current) then pieces turns else strip current ∷ pieces turns))
      n
