-- ===== src/Audio/RollingBuffer/Kept.antt =====
-- audio/rolling_buffer.py: what the buffer holds after an append.
use mathlib.Core.Option.{some-injective, none-ne-some}
use mathlib.Core.Path.{subst}
use voice_agent_v.Prelude.{
  ℕ, zero, suc, ◌-◌, ◌≤◌, ◌≡◌, refl, sym, ap, ◌∙◌, ◌⊎◌, inl, inr, not, ◌||◌, none, some, List, [],
  ◌∷◌, ◌++◌, arith, length, length-drop, drop, ltb, leb, eq→≡, ◌==◌, nat_eq, list_eq, append_assoc,
  append-nil, Bool-cases,
}
use voice_agent_v.Contracts.{codec_eq, AudioFrame}
use voice_agent_v.Audio.RollingBuffer.{
  RollingAudioBuffer, max_bytes, trim_frame, trim_frame_history, trim, append, joined,
}

-- The buffer holds the bytes of its frames, and no more than it may.
pub record Kept (b : RollingAudioBuffer) : Type 0 where
  pub same_bytes : joined b.frames ≡ b.bytes
  pub bounded : length b.bytes ≤ max_bytes b

drop_past : (n : ℕ) (xs ys : List ℕ) → length xs ≤ n → drop n (xs ++ ys) ≡ drop (n - length xs) ys
drop_past n [] ys h = ap (λ k. drop k ys) (omega arith)
drop_past zero (x ∷ xs) ys h = absurd (omega (arith, h))
drop_past (suc n) (x ∷ xs) ys h =
    drop_past n xs ys (omega (arith, h)) ∙ ap (λ k. drop k ys) (omega arith)

drop_within : (n : ℕ) (xs ys : List ℕ) → n ≤ length xs → drop n (xs ++ ys) ≡ drop n xs ++ ys
drop_within zero xs ys h = refl
drop_within (suc n) [] ys h = absurd (omega (arith, h))
drop_within (suc n) (x ∷ xs) ys h = drop_within n xs ys (omega (arith, h))

joined-trim_frame_history :
    (n : ℕ) (fs : List AudioFrame) → joined (trim_frame_history n fs) ≡ drop n (joined fs)
unfolding trim_frame_history trim_frame
joined-trim_frame_history zero [] = refl
joined-trim_frame_history (suc n) [] = refl
joined-trim_frame_history n (f ∷ fs) = elim (Bool-cases (n == 0)) [
  | inl z ↦ rw z (rw (eq→≡ n 0 z) refl)
  | inr z ↦ rw z (elim (Bool-cases (leb (length f.bytes) n)) [
    | inl l ↦ rw l (
        joined-trim_frame_history (n - length f.bytes) fs
        ∙ sym (drop_past n f.bytes (joined fs) (ground arith)))
    | inr l ↦ rw l (sym (drop_within n f.bytes (joined fs) (ground arith)))
  ])
]

trim-bytes : (b : RollingAudioBuffer) → (trim b).bytes ≡ drop (length b.bytes - max_bytes b) b.bytes
unfolding trim
trim-bytes b = elim (Bool-cases (ltb (max_bytes b) (length b.bytes))) [
  | inl l ↦ rw l refl
  | inr l ↦
      let z : length b.bytes - max_bytes b ≡ 0 = ground arith in
      rw l (sym (ap (λ k. drop k b.bytes) z))
]

trim-frames :
    (b : RollingAudioBuffer) → joined b.frames ≡ b.bytes → joined (trim b).frames ≡ (trim b).bytes
unfolding trim
trim-frames b h = elim (Bool-cases (ltb (max_bytes b) (length b.bytes))) [
  | inl l ↦ rw l (
      joined-trim_frame_history (length b.bytes - max_bytes b) b.frames
      ∙ ap (drop (length b.bytes - max_bytes b)) h)
  | inr l ↦ rw l h
]

trim-max_bytes : (b : RollingAudioBuffer) → max_bytes (trim b) ≡ max_bytes b
unfolding trim max_bytes
trim-max_bytes b = elim (Bool-cases (ltb (max_bytes b) (length b.bytes))) [
  | inl l ↦ ground arith
  | inr l ↦ ground arith
]

joined-append :
    (fs : List AudioFrame) (f : AudioFrame) → joined (fs ++ f ∷ []) ≡ joined fs ++ f.bytes
joined-append [] f = append-nil f.bytes
joined-append (g ∷ fs) f =
    ap (λ t. g.bytes ++ t) (joined-append fs f) ∙ sym (append_assoc g.bytes (joined fs) f.bytes)

-- The buffer with the frame behind its audio, before it is trimmed, and what an append leaves of it.
abbrev extended : AudioFrame → RollingAudioBuffer → RollingAudioBuffer
extended f b = record b { bytes = b.bytes ++ f.bytes; frames = b.frames ++ f ∷ [] }

abbrev stamped : AudioFrame → RollingAudioBuffer → RollingAudioBuffer
stamped f b = record b { latest_timestamp_ms = some f.timestamp_ms }

append-cases :
    (f : AudioFrame) (b : RollingAudioBuffer)
    → (append f b ≡ none) ⊎ (append f b ≡ some (stamped f (trim (extended f b))))
unfolding append
append-cases f b = elim (Bool-cases (not (f.call_id == b.call_id))) [
  | inl e ↦ rw e (inl refl)
  | inr e ↦
      rw e (elim (Bool-cases (not (f.codec == b.codec) || not (f.sample_rate == b.sample_rate))) [
        | inl g ↦ rw g (inl refl)
        | inr g ↦ rw g (elim (Bool-cases (not (f.channels == b.channels))) [
          | inl h ↦ rw h (inl refl)
          | inr h ↦ rw h (inr refl)
        ])
      ])
]

stamped-Kept : (f : AudioFrame) (b : RollingAudioBuffer) → Kept b → Kept (stamped f b)
stamped-Kept f b k = record { same_bytes = k.same_bytes; bounded = unfold max_bytes in k.bounded }

trim-Kept : (b : RollingAudioBuffer) → joined b.frames ≡ b.bytes → Kept (trim b)
trim-Kept b h = record {
  same_bytes = trim-frames b h;
  bounded = omega (
    arith,
    ap length (trim-bytes b),
    length-drop (length b.bytes - max_bytes b) b.bytes,
    trim-max_bytes b,
  );
}

-- If a buffer holds the bytes of its frames and no more than its bound, and takes in a further frame, then it holds the bytes of
-- its frames afterwards and no more than its bound, and they are the last ones, up to the bound, of the bytes of before
-- with those of the frame behind them.
pub append-Kept :
    (f : AudioFrame) (b b' : RollingAudioBuffer)
    → Kept b
    → append f b ≡ some b'
    → Kept b' × (b'.bytes ≡ drop (length (b.bytes ++ f.bytes) - max_bytes b) (b.bytes ++ f.bytes))
append-Kept f b b' k h = elim (append-cases f b) [
  | inl n ↦ absurd (none-ne-some b' (sym n ∙ h))
  | inr e ↦
      let s : stamped f (trim (extended f b)) ≡ b' = some-injective _ _ (sym e ∙ h) in
      let j = joined-append b.frames f ∙ ap (λ t. t ++ f.bytes) k.same_bytes in
      subst
        (λ c.
          Kept c
          × (c.bytes ≡ drop (length (b.bytes ++ f.bytes) - max_bytes b) (b.bytes ++ f.bytes)))
        s
        (
          stamped-Kept f (trim (extended f b)) (trim-Kept (extended f b) j),
          unfold max_bytes in trim-bytes (extended f b),
        )
]
