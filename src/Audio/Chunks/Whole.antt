-- ===== src/Audio/Chunks/Whole.antt =====
-- audio/chunker.py: what the chunks of a frame have to do with the frame.
use mathlib.Core.Option.{some-injective, none-ne-some}
use voice_agent_v.Prelude.{
  ℕ, zero, suc, ◌+◌, ◌-◌, ◌*◌, ◌≤◌, ◌≡◌, refl, sym, ap, ◌∙◌, inl, inr, Bool, true, false, not,
  Option, none, some, List, [], ◌∷◌, ◌++◌, arith, is_nil, length, length-append, length-take,
  length-drop, length-replicate, take-append-drop, take, drop, replicate, All, ltb, ◌==◌, nat_eq,
  append_assoc, append-nil, if◌then◌else◌, Bool-cases, Option-cases,
}
use voice_agent_v.Contracts.{
  AudioCodec, mulaw_8k, pcm16_8k, pcm16_16k, opus_16k, opus_48k, AudioFrame,
}
use voice_agent_v.Audio.Sizes.{
  bytes_per_sample, bytes_per_ms, duration_ms_for_bytes, silence_bytes, scaled, duration_at,
  silence_of, silence_at, sample_rate_for_codec,
}
use voice_agent_v.Audio.Chunks.{
  positive, times, chunk_size_bytes, filled, with_duration, with_silence, chunk_frame, then_chunks,
  yielded, chunks_from, chunk_audio_frame,
}

abbrev pub joined : List AudioFrame → List ℕ
joined [] = []
joined (f ∷ fs) = f.bytes ++ joined fs

-- A codec with bytes for a millisecond has a duration of any bytes and a silence of any time.
silence_of-length :
    (codec : AudioCodec) (n k : ℕ)
    → bytes_per_sample codec ≡ some k
    → (s : List ℕ) × (silence_of codec n ≡ some s) × (length s ≡ n)
unfolding bytes_per_sample
silence_of-length mulaw_8k n k h = (replicate n 255, refl, length-replicate n 255)
silence_of-length pcm16_8k n k h = (replicate n 0, refl, length-replicate n 0)
silence_of-length pcm16_16k n k h = (replicate n 0, refl, length-replicate n 0)
silence_of-length opus_16k n k h = cc
silence_of-length opus_48k n k h = cc

-- A piece of the data is filled up to the size, where the chunks are padded.
IsFilled : AudioFrame → ℕ → Bool → ℕ → List ℕ → Type 0
IsFilled f ms pad size piece =
    (filler : List ℕ) × (d : ℕ) × (filled f ms pad size piece ≡ some (piece ++ filler, d))
    × (length filler ≡ (if pad then size - length piece else 0))

module _ (f : AudioFrame) (ms k : ℕ) (h : bytes_per_ms f.codec f.channels ≡ some k) where
  duration-some :
      (piece : List ℕ) → (d : ℕ) × (duration_ms_for_bytes piece f.codec f.channels ≡ some d)
  unfolding duration_ms_for_bytes
  duration-some piece = (_, ap (duration_at (length piece)) h)

  silence-some : (s : List ℕ) × (silence_bytes f.codec ms f.channels ≡ some s) × (length s ≡ k * ms)
  unfolding silence_bytes bytes_per_ms
  silence-some = elim (Option-cases (bytes_per_sample f.codec)) [
    | inl n ↦
        absurd
          (none-ne-some k (sym (ap (scaled (sample_rate_for_codec f.codec * f.channels)) n) ∙ h))
    | inr (j, e) ↦
        let (s, i, l) = silence_of-length f.codec (k * ms) j e in
        (s, ap (silence_at f.codec ms) h ∙ i, l)
  ]

  filled_lem :
      (pad : Bool) (piece : List ℕ) → length piece ≤ k * ms → IsFilled f ms pad (k * ms) piece
  unfolding IsFilled filled
  filled_lem pad piece b = elim (Bool-cases (not (ltb (length piece) (k * ms)))) [
    | inl e ↦ rw e ([], ms, ap (λ p. some (p, ms)) (sym (append-nil piece)), ground arith)
    | inr e ↦ rw e (elim (Bool-cases (not pad)) [
      | inl n ↦
          let (d, i) = duration-some piece in
          rw n (
            [],
            d,
            ap (with_duration piece) i ∙ ap (λ p. some (p, d)) (sym (append-nil piece)),
            ground arith,
          )
      | inr n ↦
          let (s, i, l) = silence-some in
          rw n (
            take (k * ms - length piece) s,
            ms,
            ap (with_silence piece (k * ms) ms) i,
            ground (arith, length-take (k * ms - length piece) s),
          )
    ])
  ]

-- A chunk has at most `size` bytes, and at least that many where the chunks are padded, or one.
abbrev pub Sized : Bool → ℕ → AudioFrame → Type 0
Sized pad size c = ((if pad then size else 1) ≤ length c.bytes) × (length c.bytes ≤ size)

-- The chunks are those of some data, with less than a chunk of padding behind it, or none.
abbrev pub Whole : Bool → ℕ → List ℕ → Option (List AudioFrame) → Type 0
Whole pad size data_bytes r =
    (cs : List AudioFrame) × (filler : List ℕ) × (r ≡ some cs)
    × (joined cs ≡ data_bytes ++ filler)
    × (length filler ≤ (if pad then size - 1 else 0))
    × All (Sized pad size) cs

chunks_from-nil :
    (fuel : ℕ) (f : AudioFrame) (ms : ℕ) (pad : Bool) (size offset time : ℕ)
    → chunks_from fuel f ms pad size offset time [] ≡ some []
unfolding chunks_from
chunks_from-nil zero f ms pad size offset time = refl
chunks_from-nil (suc fuel) f ms pad size offset time = refl

is_nil-drop :
    (n : ℕ) (xs : List ℕ) → is_nil (drop n xs) ≡ true → (drop n xs ≡ []) × (take n xs ≡ xs)
is_nil-drop zero [] h = (refl, refl)
is_nil-drop zero (x ∷ xs) h = cc
is_nil-drop (suc n) [] h = (refl, refl)
is_nil-drop (suc n) (x ∷ xs) h = let (d, t) = is_nil-drop n xs h in (d, ap (λ l. x ∷ l) t)

more_left : (n : ℕ) (xs : List ℕ) → is_nil (drop n xs) ≡ false → n ≤ length xs
more_left zero xs h = omega arith
more_left (suc n) [] h = cc
more_left (suc n) (x ∷ xs) h = omega (arith, more_left n xs h)

length-zero : (xs : List ℕ) → length xs ≡ 0 → xs ≡ []
length-zero [] h = refl
length-zero (x ∷ xs) h = absurd (omega (arith, h))

positive-some : (r : Option ℕ) (n : ℕ) → positive r ≡ some n → (r ≡ some n) × (1 ≤ n)
positive-some none n h = absurd (none-ne-some n h)
positive-some (some zero) n h = absurd (none-ne-some n h)
positive-some (some (suc m)) n h = (h, ground (arith, some-injective (suc m) n h))

size-some :
    (f : AudioFrame) (ms size : ℕ)
    → chunk_size_bytes f ms ≡ some size
    → (k : ℕ) × (bytes_per_ms f.codec f.channels ≡ some k) × (size ≡ k * ms) × (1 ≤ k * ms)
unfolding chunk_size_bytes
size-some f ms size h = elim (Bool-cases (ms == 0)) [
  | inl z ↦ absurd (none-ne-some size (rw z at h))
  | inr z ↦
      let (t, p) = positive-some (times ms (bytes_per_ms f.codec f.channels)) size (rw z at h) in
      elim (Option-cases (bytes_per_ms f.codec f.channels)) [
        | inl n ↦ absurd (none-ne-some size (sym (ap (times ms) n) ∙ t))
        | inr (k, e) ↦
            let q : k * ms ≡ size = some-injective (k * ms) size (sym (ap (times ms) e) ∙ t) in
            (k, e, sym q, omega (arith, p, q))
      ]
]

module _ (f : AudioFrame) (ms k : ℕ) (h : bytes_per_ms f.codec f.channels ≡ some k)
    (pos : 1 ≤ k * ms) (pad : Bool) where
  sized :
      (pad : Bool) (piece filler : List ℕ)
      → 1 ≤ length piece
      → length piece ≤ k * ms
      → length filler ≡ (if pad then k * ms - length piece else 0)
      → ((if pad then k * ms else 1) ≤ length (piece ++ filler))
        × (length (piece ++ filler) ≤ k * ms)
  sized pad piece filler a b l = ground (arith, length-append piece filler)

  first_chunk :
      (fuel offset time : ℕ) (x : ℕ) (xs : List ℕ)
      → ((o t : ℕ)
          → Whole pad
              (k * ms)
              (drop (k * ms) (x ∷ xs))
              (chunks_from fuel f ms pad (k * ms) o t (drop (k * ms) (x ∷ xs))))
      → Whole pad (k * ms) (x ∷ xs) (chunks_from (suc fuel) f ms pad (k * ms) offset time (x ∷ xs))
  unfolding chunks_from IsFilled
  first_chunk fuel offset time x xs later =
      let size : ℕ = k * ms in
      let piece : List ℕ = take size (x ∷ xs) in
      let (filler, d, e, l) =
        filled_lem f ms k h pad piece (omega (arith, length-take (k * ms) (x ∷ xs))) in
      let go = λ (r : Option (List ℕ × ℕ)).
        yielded f offset time r
          (λ t. chunks_from fuel f ms pad size (offset + size) t (drop size (x ∷ xs))) in
      let c : AudioFrame = chunk_frame f offset time (piece ++ filler) d in
      elim (Bool-cases (is_nil (drop (k * ms) (x ∷ xs)))) [
        | inl n ↦
            let (dn, tn) = is_nil-drop size (x ∷ xs) n in
            (
              c ∷ [],
              filler,
              ap go e
                  ∙ ap (then_chunks c) (
                      ap (λ r. chunks_from fuel f ms pad size (offset + size) (time + d) r) dn
                      ∙ chunks_from-nil fuel f ms pad size (offset + size) (time + d)),
              append-nil (piece ++ filler) ∙ ap (λ t. t ++ filler) tn,
              ground (arith, length-take (k * ms) (x ∷ xs)),
              (
                sized pad piece filler (omega (arith, length-take (k * ms) (x ∷ xs)))
                    (omega (arith, length-take (k * ms) (x ∷ xs))) l,
                tt,
              ),
            )
        | inr n ↦
            let (cs, fl, ec, j, b, a) = later (offset + size) (time + d) in
            let full = more_left size (x ∷ xs) n in
            let fz : filler ≡ [] =
              length-zero filler (ground (arith, length-take (k * ms) (x ∷ xs))) in
            (
              c ∷ cs,
              fl,
              ap go e ∙ ap (then_chunks c) ec,
              ap (λ t. (piece ++ t) ++ joined cs) fz
                  ∙ ap (λ t. t ++ joined cs) (append-nil piece)
                  ∙ ap (λ t. piece ++ t) j
                  ∙ sym (append_assoc piece (drop size (x ∷ xs)) fl)
                  ∙ ap (λ t. t ++ fl) (take-append-drop size (x ∷ xs)),
              b,
              (
                sized pad piece filler (omega (arith, length-take (k * ms) (x ∷ xs)))
                    (omega (arith, length-take (k * ms) (x ∷ xs))) l,
                a,
              ),
            )
      ]

  chunks_from-Whole :
      (fuel offset time : ℕ) (rest : List ℕ)
      → length rest ≤ fuel
      → Whole pad (k * ms) rest (chunks_from fuel f ms pad (k * ms) offset time rest)
  chunks_from-Whole fuel offset time [] b =
      ([], [], chunks_from-nil fuel f ms pad (k * ms) offset time, refl, omega arith, tt)
  chunks_from-Whole zero offset time (x ∷ xs) b = absurd (omega (arith, b))
  chunks_from-Whole (suc fuel) offset time (x ∷ xs) b = first_chunk fuel offset time x xs (λ o t.
      chunks_from-Whole fuel o t (drop (k * ms) (x ∷ xs))
        (omega (arith, length-drop (k * ms) (x ∷ xs))))

-- If the size of a chunk is positive, then cutting a frame into chunks does not raise. The chunks have that many bytes at
-- most, and exactly that many where they are padded and at least one where they are not; and
-- together they are the frame's bytes, with less than a chunk of padding behind them, or none where they are
-- not padded.
pub chunk_audio_frame-Whole :
    (f : AudioFrame) (ms : ℕ) (pad : Bool) (size : ℕ)
    → chunk_size_bytes f ms ≡ some size
    → Whole pad size f.bytes (chunk_audio_frame f ms pad)
unfolding chunk_audio_frame
chunk_audio_frame-Whole f ms pad size h =
    let (k, e, s, p) = size-some f ms size h in
    rw h (
      rw s
        (chunks_from-Whole f ms k e p pad (length f.bytes) 0 f.timestamp_ms f.bytes (omega arith)))
