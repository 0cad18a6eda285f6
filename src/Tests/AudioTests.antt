-- ===== src/Tests/AudioTests.antt =====
-- Audio at concrete data.
use voice_agent_v.Prelude.{
  ◌-◌, ◌≡◌, refl, true, some, [], ◌∷◌, ◌++◌, length, drop, arith, replicate, nat_eq, list_eq,
}
use voice_agent_v.Text.{text}
use voice_agent_v.Contracts.{AudioFrame, pcm16_16k, codec_eq}
use voice_agent_v.Audio.Sizes.{
  bytes_per_ms, bytes_per_sample, sample_rate_for_codec, round_quotient, duration_ms_for_bytes,
}
use voice_agent_v.Audio.Chunks.{chunk_size_bytes, chunk_audio_frame}
use voice_agent_v.Audio.Chunks.Whole.{Whole, chunk_audio_frame-Whole}
use voice_agent_v.Audio.Mulaw.{linear_sample_to_mulaw, decoded_sample}
use voice_agent_v.Audio.Mulaw.RoundTrip.{linear_sample_to_mulaw-decoded_sample}
use voice_agent_v.Audio.RollingBuffer.{
  RollingAudioBuffer, max_bytes, append, trim, trim_frame_history, trim_frame, duration_16k,
}
use voice_agent_v.Audio.RollingBuffer.Kept.{Kept, append-Kept}
use voice_agent_v.Tests.Samples.{frame}

-- 40 bytes are a chunk of 1 ms and a rest.
abbrev longer : AudioFrame
longer = record frame { bytes = replicate 40 7 }

longer_size : chunk_size_bytes longer 1 ≡ some 32
unfolding chunk_size_bytes bytes_per_ms bytes_per_sample sample_rate_for_codec
longer_size = refl

chunk_audio_frame-Whole_example : Whole true 32 longer.bytes (chunk_audio_frame longer 1 true)
chunk_audio_frame-Whole_example = chunk_audio_frame-Whole longer 1 true 32 longer_size

linear_sample_to_mulaw-decoded_sample_example : linear_sample_to_mulaw (decoded_sample 200) ≡ 200
linear_sample_to_mulaw-decoded_sample_example =
    linear_sample_to_mulaw-decoded_sample 200 (omega arith) (λ e. absurd (omega (arith, e)))

-- A buffer of 1 ms.
abbrev buffer : RollingAudioBuffer
buffer = record {
  call_id = text "call";
  max_duration_ms = 1;
  sample_rate = 16000;
  codec = pcm16_16k;
  channels = 1;
  bytes = 5 ∷ 6 ∷ [];
  frames = record frame { bytes = 5 ∷ 6 ∷ [] } ∷ [];
  latest_timestamp_ms = some 1000;
}

buffer-Kept : Kept buffer
unfolding max_bytes round_quotient
buffer-Kept = record { same_bytes = refl; bounded = omega arith }

-- The buffer with the longer frame, of which the last 32 bytes are left.
abbrev filled_buffer : RollingAudioBuffer
filled_buffer = record buffer {
  bytes = replicate 32 7;
  frames = record longer { bytes = replicate 32 7; timestamp_ms = 1019; duration_ms = some 1 } ∷ [];
}

longer_taken : append longer buffer ≡ some filled_buffer
unfolding append trim trim_frame_history trim_frame duration_16k max_bytes round_quotient
    duration_ms_for_bytes bytes_per_ms bytes_per_sample sample_rate_for_codec
longer_taken = refl

append-Kept_example :
    Kept filled_buffer
    × (filled_buffer.bytes
        ≡ drop
            (length (buffer.bytes ++ longer.bytes) - max_bytes buffer)
            (buffer.bytes ++ longer.bytes))
append-Kept_example = append-Kept longer buffer filled_buffer buffer-Kept longer_taken
