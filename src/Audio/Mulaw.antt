-- ===== src/Audio/Mulaw.antt =====
-- audio/converter.py: the mu-law code of one sample. The bit operations are written as arithmetic: a byte's
-- complement is its difference from 255, a shift a product or quotient, a mask of the low bits a
-- remainder, and an exclusive or of seven bits with ones a difference from 127 or 255.
pub mod RoundTrip
use voice_agent_v.Prelude.{
  ℕ, zero, suc, ◌+◌, ◌-◌, ◌*◌, ◌/◌, ◌%◌, ◌^◌, min, ℤ, pos, negsuc, Bool, true, false, List, [], ◌∷◌,
  leb, if◌then◌else◌, map,
}

abbrev pub mulaw_bias : ℕ
mulaw_bias = 132

abbrev pub mulaw_clip : ℕ
mulaw_clip = 32635

abbrev pub mulaw_segment_ends : List ℕ
mulaw_segment_ends = 255 ∷ 511 ∷ 1023 ∷ 2047 ∷ 4095 ∷ 8191 ∷ 16383 ∷ 32767 ∷ []

-- The index, from `index` on, of the first end that is not below the sample.
unfoldable pub segment_from : ℕ → List ℕ → ℕ → ℕ
segment_from index [] sample = 7
segment_from index (end ∷ ends) sample =
    let rest = segment_from (index + 1) ends sample in if leb sample end then index else rest

unfoldable pub mulaw_segment : ℕ → ℕ
mulaw_segment = segment_from 0 mulaw_segment_ends

-- The seven low bits of the code of a magnitude, before they are inverted.
unfoldable pub code_of_magnitude : ℕ → ℕ
code_of_magnitude n =
    let sample = min n mulaw_clip + mulaw_bias in
    let segment = mulaw_segment sample in segment * 16 + sample / 2 ^ (segment + 3) % 16

unfoldable pub linear_sample_to_mulaw : ℤ → ℕ
linear_sample_to_mulaw (pos n) = 255 - code_of_magnitude n
linear_sample_to_mulaw (negsuc n) = 127 - code_of_magnitude (suc n)

abbrev pub negated : ℕ → ℤ
negated zero = pos 0
negated (suc n) = negsuc n

-- The sample of one byte.
unfoldable pub decoded_sample : ℕ → ℤ
decoded_sample value =
    let decoded = 255 - value in
    let exponent = decoded / 16 % 8 in
    let mantissa = decoded % 16 in
    let sample = (mantissa * 8 + mulaw_bias) * 2 ^ exponent - mulaw_bias in
    if leb 128 decoded then negated sample else pos sample
