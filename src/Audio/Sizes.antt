-- ===== src/Audio/Sizes.antt =====
-- audio/converter.py: how many bytes a codec takes for a time, and back. `none` stands for the
-- ValueError of a codec without a fixed size. The sample rates are multiples of 1000, so that the
-- bytes for a millisecond are a whole number, and `round` acts on a quotient of naturals only.
use voice_agent_v.Prelude.{
  ℕ, ◌+◌, ◌*◌, ◌/◌, ◌%◌, Option, none, some, List, length, replicate, ltb, ◌==◌, nat_eq,
  if◌then◌else◌,
}
use voice_agent_v.Contracts.{AudioCodec, mulaw_8k, pcm16_8k, pcm16_16k, opus_16k, opus_48k}

unfoldable pub sample_rate_for_codec : AudioCodec → ℕ
sample_rate_for_codec mulaw_8k = 8000
sample_rate_for_codec pcm16_8k = 8000
sample_rate_for_codec pcm16_16k = 16000
sample_rate_for_codec opus_16k = 16000
sample_rate_for_codec opus_48k = 48000

unfoldable pub bytes_per_sample : AudioCodec → Option ℕ
bytes_per_sample mulaw_8k = some 1
bytes_per_sample pcm16_8k = some 2
bytes_per_sample pcm16_16k = some 2
bytes_per_sample _ = none

abbrev pub scaled : ℕ → Option ℕ → Option ℕ
scaled n none = none
scaled n (some k) = some (n * k / 1000)

unfoldable pub bytes_per_ms : AudioCodec → ℕ → Option ℕ
bytes_per_ms codec channels =
    scaled (sample_rate_for_codec codec * channels) (bytes_per_sample codec)

-- round(n / d): to the nearest number, and halfway to the even one.
unfoldable pub round_quotient : ℕ → ℕ → ℕ
round_quotient n d =
    let q = n / d in
    let r = n % d in
    if ltb (r + r) d then q else if ltb d (r + r) then q + 1 else if q % 2 == 0 then q else q + 1

abbrev pub duration_at : ℕ → Option ℕ → Option ℕ
duration_at n none = none
duration_at n (some per_ms) = some (if per_ms == 0 then 0 else round_quotient n per_ms)

unfoldable pub duration_ms_for_bytes : List ℕ → AudioCodec → ℕ → Option ℕ
duration_ms_for_bytes bytes codec channels =
    duration_at (length bytes) (bytes_per_ms codec channels)

abbrev pub silence_of : AudioCodec → ℕ → Option (List ℕ)
silence_of mulaw_8k n = some (replicate n 255)
silence_of pcm16_8k n = some (replicate n 0)
silence_of pcm16_16k n = some (replicate n 0)
silence_of _ n = none

abbrev pub silence_at : AudioCodec → ℕ → Option ℕ → Option (List ℕ)
silence_at codec ms none = none
silence_at codec ms (some per_ms) = silence_of codec (per_ms * ms)

unfoldable pub silence_bytes : AudioCodec → ℕ → ℕ → Option (List ℕ)
silence_bytes codec ms channels = silence_at codec ms (bytes_per_ms codec channels)
