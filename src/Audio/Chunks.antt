-- ===== src/Audio/Chunks.antt =====
-- audio/chunker.py: a frame cut into frames of one duration.
pub mod Whole
use voice_agent_v.Prelude.{
  ℕ, zero, suc, ◌+◌, ◌-◌, ◌*◌, Bool, true, false, not, ◌||◌, Option, none, some, List, [], ◌∷◌,
  ◌++◌, is_nil, length, take, drop, ltb, ◌==◌, nat_eq, if◌then◌else◌,
}
use voice_agent_v.Contracts.{AudioCodec, AudioFrame}
use voice_agent_v.Audio.Sizes.{bytes_per_ms, duration_ms_for_bytes, silence_bytes}

-- A size that is not positive raises.
abbrev pub positive : Option ℕ → Option ℕ
positive none = none
positive (some zero) = none
positive (some (suc n)) = some (suc n)

abbrev pub times : ℕ → Option ℕ → Option ℕ
times ms none = none
times ms (some per_ms) = some (per_ms * ms)

-- `none` for each ValueError.
unfoldable pub chunk_size_bytes : AudioFrame → ℕ → Option ℕ
chunk_size_bytes f chunk_ms =
    if chunk_ms == 0 then none else positive (times chunk_ms (bytes_per_ms f.codec f.channels))

abbrev pub with_duration : List ℕ → Option ℕ → Option (List ℕ × ℕ)
with_duration piece none = none
with_duration piece (some ms) = some (piece, ms)

abbrev pub with_silence : List ℕ → ℕ → ℕ → Option (List ℕ) → Option (List ℕ × ℕ)
with_silence piece size ms none = none
with_silence piece size ms (some silence) = some (piece ++ take (size - length piece) silence, ms)

-- The chunk's bytes and its duration, for what the slice of the data gave.
unfoldable pub filled : AudioFrame → ℕ → Bool → ℕ → List ℕ → Option (List ℕ × ℕ)
filled f chunk_ms pad size piece =
    if not (ltb (length piece) size)
    then some (piece, chunk_ms)
    else if not pad
    then with_duration piece (duration_ms_for_bytes piece f.codec f.channels)
    else with_silence piece size chunk_ms (silence_bytes f.codec chunk_ms f.channels)

abbrev pub chunk_frame : AudioFrame → ℕ → ℕ → List ℕ → ℕ → AudioFrame
chunk_frame f offset timestamp bytes ms = record f {
  bytes = bytes;
  timestamp_ms = timestamp;
  duration_ms = some ms;
  meta = record f.meta { chunk_offset = some offset };
}

abbrev pub then_chunks : AudioFrame → Option (List AudioFrame) → Option (List AudioFrame)
then_chunks c none = none
then_chunks c (some cs) = some (c ∷ cs)

-- A chunk, and what follows it at the time where it ends.
abbrev pub yielded :
    AudioFrame
    → ℕ
    → ℕ
    → Option (List ℕ × ℕ)
    → (ℕ → Option (List AudioFrame))
    → Option (List AudioFrame)
yielded f offset timestamp none later = none
yielded f offset timestamp (some (bytes, ms)) later =
    then_chunks (chunk_frame f offset timestamp bytes ms) (later (timestamp + ms))

-- The chunks from an offset on, where `rest` is the data there; `none` for an exception.
unfoldable pub chunks_from :
    ℕ → AudioFrame → ℕ → Bool → ℕ → ℕ → ℕ → List ℕ → Option (List AudioFrame)
chunks_from zero f chunk_ms pad size offset timestamp rest = if is_nil rest then some [] else none
chunks_from (suc fuel) f chunk_ms pad size offset timestamp rest =
    if is_nil rest
    then some []
    else yielded f offset timestamp (filled f chunk_ms pad size (take size rest))
        (λ time. chunks_from fuel f chunk_ms pad size (offset + size) time (drop size rest))

abbrev pub cut : AudioFrame → ℕ → Bool → Option ℕ → Option (List AudioFrame)
cut f chunk_ms pad none = none
cut f chunk_ms pad (some size) =
    chunks_from (length f.bytes) f chunk_ms pad size 0 f.timestamp_ms f.bytes

-- With fuel for one chunk for each byte.
unfoldable pub chunk_audio_frame : AudioFrame → ℕ → Bool → Option (List AudioFrame)
chunk_audio_frame f chunk_ms pad = cut f chunk_ms pad (chunk_size_bytes f chunk_ms)
