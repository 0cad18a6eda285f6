-- ===== src/Playback/Heard/Prefix.antt =====
-- The estimate of a message without word timestamps, and the audio that was played.
use native.Mathlib.Nat.{le-div_iff_mul-le, div-mul-le_self}
use voice_agent_v.Prelude.{
  ℕ, zero, suc, ◌*◌, ◌/◌, ◌-◌, ◌+◌, ◌≤◌, ◌<◌, min, leb, leb→le, ◌≡◌, refl, ◌∙◌, inl, inr, true,
  false, not, ◌&&◌, none, some, [], length, take, is_some, ◌==◌, nat_eq, arith, Bool-cases,
}
use voice_agent_v.Text.{Text, strip, rstrip}
use voice_agent_v.Text.Prefix.{IsPrefix, rstrip_mono, take_mono}
use voice_agent_v.Playback.Message.{MessagePlayback, total_audio_ms, source_text}
use voice_agent_v.Playback.Heard.{
  played_audio_ms, heard_chars, by_share, estimate_heard_text, heard_text_from_word_timestamps,
}

div_mono : (a b total : ℕ) → a ≤ b → a / total ≤ b / total
div_mono a b zero h = omega arith
div_mono a b (suc n) h =
    (le-div_iff_mul-le {k = suc n} {x = a / suc n} (omega arith)).1
      (omega (arith, div-mul-le_self a (suc n)))

heard_chars_mono : (len p q total : ℕ) → p ≤ q → heard_chars len p total ≤ heard_chars len q total
unfolding heard_chars
heard_chars_mono len p q total h =
    let more : len * p ≤ len * q = grind arith in
    omega (arith, div_mono (len * p) (len * q) total more)

by_share_mono :
    (t : Text) (total p q : ℕ) → p ≤ q → IsPrefix (by_share t total p) (by_share t total q)
unfolding by_share
by_share_mono t total p q h = elim (Bool-cases (total == 0)) [
  | inl e ↦ rw e tt
  | inr e ↦ rw e (
      rstrip_mono _ _ (
        take_mono (heard_chars (length t) p total) (heard_chars (length t) q total) t
          (heard_chars_mono (length t) p q total h)))
]

by_share-zero : (t : Text) (total : ℕ) → by_share t total 0 ≡ []
unfolding by_share heard_chars rstrip
by_share-zero t total =
    let none_heard : min (length t) (length t * 0 / total) ≡ 0 = zero_share (length t) total in
    rw none_heard (ground arith)
  where
    zero_share : (len total : ℕ) → min len (len * 0 / total) ≡ 0
    zero_share len zero = omega arith
    zero_share len (suc n) = omega (arith, div-mul-le_self (len * 0) (suc n))

abbrev nothing : Text
nothing = []

take-nil : (n : ℕ) → take n [] ≡ nothing
take-nil zero = refl
take-nil (suc n) = refl

by_share-nil : (total played : ℕ) → by_share [] total played ≡ []
unfolding by_share heard_chars rstrip
by_share-nil total played = ground (arith, take-nil (min 0 (0 * played / total)))

-- A message that was played to the end and not interrupted was heard whole.
pub estimate_whole :
    (p : MessagePlayback)
    → (is_some p.fully_played_ms && not p.interrupted) ≡ true
    → estimate_heard_text p ≡ strip (source_text p)
unfolding estimate_heard_text
estimate_whole p h = ground arith

module _ (p : MessagePlayback) (untimed : p.word_timestamps ≡ none) where
  -- Unless it was heard whole, the message was heard by its share.
  estimate_by_share :
      (is_some p.fully_played_ms && not p.interrupted) ≡ false
      → estimate_heard_text p
        ≡ by_share (strip (source_text p)) (total_audio_ms p) (played_audio_ms p)
  unfolding estimate_heard_text
  estimate_by_share h =
      let t = strip (source_text p) in
      let played = played_audio_ms p in
      let total = total_audio_ms p in
      ground (arith, by_share-zero t total, by_share-nil total played, untimed_nil t played)
    where
      untimed_nil :
          (t : Text) (played : ℕ) → heard_text_from_word_timestamps t p.word_timestamps played ≡ []
      untimed_nil t played = rw untimed (unfold heard_text_from_word_timestamps in refl)

untouched :
    (p : MessagePlayback)
    → p.fully_played_ms ≡ none
    → (is_some p.fully_played_ms && not p.interrupted) ≡ false
untouched p f = ground arith

played_mono :
    (p : MessagePlayback) (start early late : ℕ)
    → p.fully_played_ms ≡ none
    → p.started_ms ≡ some start
    → early ≤ late
    → played_audio_ms (record p { interrupted_ms = some early })
      ≤ played_audio_ms (record p { interrupted_ms = some late })
unfolding played_audio_ms
played_mono p start early late f s h = ground arith

-- Of two records of one message that has begun, has no word timestamps and was not played to its
-- end, the one that is interrupted later has as much or more of the text estimated as heard.
pub estimate_mono :
    (p : MessagePlayback) (start early late : ℕ)
    → p.word_timestamps ≡ none
    → p.fully_played_ms ≡ none
    → p.started_ms ≡ some start
    → early ≤ late
    → IsPrefix
        (estimate_heard_text (record p { interrupted_ms = some early }))
        (estimate_heard_text (record p { interrupted_ms = some late }))
unfolding source_text total_audio_ms
estimate_mono p start early late w f s h =
    rw
      (
        estimate_by_share (record p { interrupted_ms = some early }) w (untouched p f),
        estimate_by_share (record p { interrupted_ms = some late }) w (untouched p f),
      )
      (by_share_mono _ _ _ _ (played_mono p start early late f s h))

played_until :
    (p : MessagePlayback) (start stop : ℕ)
    → p.fully_played_ms ≡ none
    → p.started_ms ≡ some start
    → p.interrupted_ms ≡ some stop
    → played_audio_ms p ≡ min p.audio_ms_sent (stop - start)
unfolding played_audio_ms total_audio_ms
played_until p start stop f s i = ground (arith, f, s, i)

by_share_positive :
    (t : Text) (total played : ℕ)
    → 0 < total
    → by_share t total played ≡ rstrip (take (heard_chars (length t) played total) t)
unfolding by_share
by_share_positive t zero played h = absurd (omega (arith, h))
by_share_positive t (suc n) played h = ground arith

shared :
    (p : MessagePlayback) (start stop : ℕ)
    → p.fully_played_ms ≡ none
    → p.started_ms ≡ some start
    → p.interrupted_ms ≡ some stop
    → 0 < p.audio_ms_sent
    → let t = strip (source_text p) in
      by_share t (total_audio_ms p) (played_audio_ms p)
      ≡ rstrip
          (take (heard_chars (length t) (min p.audio_ms_sent (stop - start)) p.audio_ms_sent) t)
unfolding total_audio_ms
shared p start stop f s i a =
    rw (played_until p start stop f s i)
      (by_share_positive (strip (source_text p)) p.audio_ms_sent _ a)

-- The number of characters that a share of the audio stands for, rounded down.
pub record IsShare (k len played total : ℕ) : Type 0 where
  pub enough : k * total ≤ len * played
  pub at_most : len * played < suc k * total

product_mono : (a b c : ℕ) → b ≤ c → a * b ≤ a * c
product_mono a b c h = grind arith

product_suc : (a b : ℕ) → suc a * b ≡ b + a * b
product_suc a b = grind arith

-- The whole quotient is the share, and is not more than the text has.
heard_chars-IsShare :
    (len played total : ℕ)
    → 0 < total
    → played ≤ total
    → IsShare (heard_chars len played total) len played total
unfolding heard_chars
heard_chars-IsShare len played zero p h = absurd (omega (arith, p))
heard_chars-IsShare len played (suc n) p h =
    let q = len * played / suc n in
    let below : q * suc n ≤ len * played = div-mul-le_self (len * played) (suc n) in
    let above : len * played < suc q * suc n =
      elim (Bool-cases (leb (suc q * suc n) (len * played))) [
        | inl e ↦ absurd (
            omega (
              arith,
              (le-div_iff_mul-le {k = suc n} {x = suc q} {y = len * played} p).1
                  (leb→le (suc q * suc n) (len * played) e),
            ))
        | inr e ↦ ground arith
      ] in
    let inside : q ≤ len = elim (Bool-cases (leb q len)) [
      | inl e ↦ leb→le q len e
      | inr e ↦
          let more : suc len * suc n ≤ len * played =
            (le-div_iff_mul-le {k = suc n} {x = suc len} {y = len * played} p).0 (ground arith) in
          let most : len * played ≤ len * suc n = product_mono len played (suc n) h in
          let next : suc len * suc n ≡ suc n + len * suc n = product_suc len (suc n) in
          absurd (omega (arith, more, most, next))
    ] in
    let same : min len q ≡ q = omega (arith, inside) in
    rw same (record { enough = below; at_most = above })

-- Of a message without word timestamps that has begun, has sent audio and was interrupted before it was
-- played to its end, the text estimated as heard is that of the first `k` characters, without white
-- space at the end, where `k` is the share of the text's length, rounded down, that the time from the
-- beginning to the interruption has in the audio that was sent, which it cannot exceed.
pub estimate-IsShare :
    (p : MessagePlayback) (start stop : ℕ)
    → p.word_timestamps ≡ none
    → p.fully_played_ms ≡ none
    → p.started_ms ≡ some start
    → p.interrupted_ms ≡ some stop
    → 0 < p.audio_ms_sent
    → let t = strip (source_text p) in
      (k : ℕ) × IsShare k (length t) (min p.audio_ms_sent (stop - start)) p.audio_ms_sent
      × (estimate_heard_text p ≡ rstrip (take k t))
estimate-IsShare p start stop w f s i a =
    let t = strip (source_text p) in
    let total = p.audio_ms_sent in
    let played = min total (stop - start) in
    (
      heard_chars (length t) played total,
      heard_chars-IsShare (length t) played total a (omega arith),
      estimate_by_share p w (untouched p f) ∙ shared p start stop f s i a,
    )
