-- ===== src/Audio/Mulaw/RoundTrip.antt =====
-- audio/converter.py: the code of a decoded byte.
use voice_agent_v.Prelude.{
  ℕ, zero, suc, ◌<◌, ◌≡◌, ◌≢◌, refl, inl, inr, Bool, true, ◌&&◌, ◌||◌, arith, ◌==◌, nat_eq, eq→≡,
  Bool-cases,
}
use voice_agent_v.Audio.Mulaw.{
  decoded_sample, linear_sample_to_mulaw, code_of_magnitude, mulaw_segment, segment_from,
}

abbrev comes_back : ℕ → Bool
comes_back b = b == 127 || linear_sample_to_mulaw (decoded_sample b) == b

abbrev all_below : (ℕ → Bool) → ℕ → Bool
all_below p zero = true
all_below p (suc n) = p n && all_below p n

below-all : (p : ℕ → Bool) (n b : ℕ) → all_below p n ≡ true → b < n → p b ≡ true
below-all p zero b h l = absurd (omega (arith, l))
below-all p (suc n) b h l = elim (Bool-cases (b == n)) [
  | inl e ↦ rw (eq→≡ b n e) (ground (arith, h))
  | inr e ↦ below-all p n b (ground (arith, h)) (ground (arith, l))
]

bytes_come_back : all_below comes_back 256 ≡ true
unfolding decoded_sample linear_sample_to_mulaw code_of_magnitude mulaw_segment segment_from
bytes_come_back = refl

-- A byte that is not 127 is the code of the sample that it decodes to. (Both 127 and 255 decode to 0.)
pub linear_sample_to_mulaw-decoded_sample :
    (b : ℕ) → b < 256 → b ≢ 127 → linear_sample_to_mulaw (decoded_sample b) ≡ b
linear_sample_to_mulaw-decoded_sample b l n =
    let h = below-all comes_back 256 b bytes_come_back l in eq→≡ _ _ (ground (arith, h, n))
