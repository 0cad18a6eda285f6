-- ===== src/Contracts/Audio.antt =====
-- contracts/audio.py. A frame's `meta` holds the entries that the program writes and reads.
use voice_agent_v.Prelude.{ℕ, ℤ, ◌≡◌, Bool, true, false, Option, List, ◌↔◌, arith, Eq}
use voice_agent_v.Text.{Text}

pub data AudioCodec : Type 0 where
  mulaw_8k pcm16_8k pcm16_16k opus_16k opus_48k : AudioCodec

abbrev pub codec_beq : AudioCodec → AudioCodec → Bool
codec_beq mulaw_8k mulaw_8k = true
codec_beq pcm16_8k pcm16_8k = true
codec_beq pcm16_16k pcm16_16k = true
codec_beq opus_16k opus_16k = true
codec_beq opus_48k opus_48k = true
codec_beq _ _ = false

pub codec_beq_iff : (a b : AudioCodec) → (codec_beq a b ≡ true) ↔ (a ≡ b)
codec_beq_iff a b = ground arith

instance abbrev pub codec_eq : Eq AudioCodec
codec_eq = record { equals = codec_beq; equals_iff = codec_beq_iff }

-- `meta["word_timestamps"]`: `None` for an entry that is not a list, and for an end time that is
-- not a number; end times are in milliseconds.
pub record WordTimestamps : Type 0 where
  pub words : Option (List Text)
  pub ends : Option (List (Option ℕ))

pub record FrameMeta : Type 0 where
  pub message_id : Option Text
  pub content : Option Text
  pub word_timestamps : Option WordTimestamps
  pub source_codec : Option AudioCodec
  pub chunk_offset : Option ℕ
  pub latest_timestamp_ms : Option ℕ

pub record AudioFrame : Type 0 where
  pub call_id : Text
  pub bytes : List ℕ
  pub timestamp_ms : ℕ
  pub sample_rate : ℕ
  pub codec : AudioCodec
  pub channels : ℕ
  pub sequence_id : Option ℤ
  pub duration_ms : Option ℕ
  pub meta : FrameMeta
