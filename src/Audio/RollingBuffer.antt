-- ===== src/Audio/RollingBuffer.antt =====
-- audio/rolling_buffer.py: the last seconds of the caller's audio. Its frames are of the codec pcm16_16k, whose
-- durations are never missing.
pub mod Kept
use voice_agent_v.Prelude.{
  ℕ, ◌≤◌, ◌≡◌, ◌+◌, ◌-◌, ◌*◌, Bool, true, false, not, ◌&&◌, ◌||◌, Option, none, some, List, [], ◌∷◌,
  ◌++◌, is_nil, length, drop, get_last?, ltb, leb, or_ms, or_ms?, map, select, ◌==◌, nat_eq,
  list_eq, if◌then◌else◌,
}
use voice_agent_v.Text.{Text}
use voice_agent_v.Contracts.{AudioCodec, pcm16_16k, codec_eq, FrameMeta, AudioFrame}
use voice_agent_v.Audio.Sizes.{duration_ms_for_bytes, round_quotient}

pub record RollingAudioBuffer : Type 0 where
  pub call_id : Text
  pub max_duration_ms : ℕ
  pub sample_rate : ℕ
  pub codec : AudioCodec
  pub channels : ℕ
  pub bytes : List ℕ
  pub frames : List AudioFrame
  pub latest_timestamp_ms : Option ℕ

unfoldable pub max_bytes : RollingAudioBuffer → ℕ
max_bytes b = round_quotient (b.sample_rate * 2 * b.channels * b.max_duration_ms) 1000

unfoldable pub duration_16k : List ℕ → ℕ → ℕ
duration_16k bytes channels = or_ms (duration_ms_for_bytes bytes pcm16_16k channels) 0

-- The frame without its first `n` bytes.
unfoldable pub trim_frame : ℕ → AudioFrame → AudioFrame
trim_frame n f =
    let bytes = drop n f.bytes in
    let ms = duration_16k bytes f.channels in
    record f {
      bytes = bytes;
      timestamp_ms = f.timestamp_ms + (or_ms f.duration_ms 0 - ms);
      duration_ms = some ms;
    }

unfoldable pub trim_frame_history : ℕ → List AudioFrame → List AudioFrame
trim_frame_history remaining [] = []
trim_frame_history remaining (f ∷ fs) =
    let rest = trim_frame_history (remaining - length f.bytes) fs in
    if remaining == 0
    then f ∷ fs
    else if leb (length f.bytes) remaining
    then rest
    else trim_frame remaining f ∷ fs

unfoldable pub trim : RollingAudioBuffer → RollingAudioBuffer
trim b =
    let n = length b.bytes - max_bytes b in
    if ltb (max_bytes b) (length b.bytes)
    then record b { bytes = drop n b.bytes; frames = trim_frame_history n b.frames }
    else b

-- `none` for a ValueError, which leaves the buffer as it is.
unfoldable pub append : AudioFrame → RollingAudioBuffer → Option RollingAudioBuffer
append f b =
    if not (f.call_id == b.call_id)
    then none
    else if not (f.codec == b.codec) || not (f.sample_rate == b.sample_rate)
    then none
    else if not (f.channels == b.channels)
    then none
    else some
        (record (trim (record b { bytes = b.bytes ++ f.bytes; frames = b.frames ++ f ∷ [] })) {
          latest_timestamp_ms = some f.timestamp_ms;
        })

abbrev pub no_meta : FrameMeta
no_meta = record {
  message_id = none;
  content = none;
  word_timestamps = none;
  source_codec = none;
  chunk_offset = none;
  latest_timestamp_ms = none;
}

unfoldable pub whole_frame : RollingAudioBuffer → AudioFrame
whole_frame b = record {
  call_id = b.call_id;
  bytes = b.bytes;
  timestamp_ms = or_ms b.latest_timestamp_ms 0;
  sample_rate = b.sample_rate;
  codec = pcm16_16k;
  channels = b.channels;
  sequence_id = none;
  duration_ms = some (duration_16k b.bytes b.channels);
  meta = no_meta;
}

-- Whether the frame ends after a time.
abbrev pub ends_after : ℕ → AudioFrame → Bool
ends_after time f =
    not (leb (f.timestamp_ms + or_ms f.duration_ms (duration_16k f.bytes f.channels)) time)

abbrev pub joined : List AudioFrame → List ℕ
joined [] = []
joined (f ∷ fs) = f.bytes ++ joined fs

abbrev pub first_time : List AudioFrame → Option ℕ
first_time [] = none
first_time (f ∷ fs) = some f.timestamp_ms

abbrev pub latest_time : List AudioFrame → Option ℕ
latest_time [] = none
latest_time (f ∷ []) = some f.timestamp_ms
latest_time (f ∷ (g ∷ fs)) = latest_time (g ∷ fs)

abbrev pub later_frame : RollingAudioBuffer → ℕ → List AudioFrame → AudioFrame
later_frame b time fs = record {
  call_id = b.call_id;
  bytes = joined fs;
  timestamp_ms = or_ms (first_time fs) time;
  sample_rate = b.sample_rate;
  codec = pcm16_16k;
  channels = b.channels;
  sequence_id = none;
  duration_ms = some (duration_16k (joined fs) b.channels);
  meta = record no_meta { latest_timestamp_ms = latest_time fs };
}

unfoldable pub frame_since : Option ℕ → RollingAudioBuffer → AudioFrame
frame_since none b = whole_frame b
frame_since (some time) b =
    let fs = select (ends_after time) b.frames in
    if is_nil (joined fs) then whole_frame b else later_frame b time fs

unfoldable pub clear : RollingAudioBuffer → RollingAudioBuffer
clear b = record b { bytes = []; frames = []; latest_timestamp_ms = none }
