-- ===== src/Metrics/Latency.antt =====
-- core/metrics/latency_tracker.py: the times of each turn, as they are marked. The summary, which takes means
-- of floating-point numbers, is left out.
pub mod Firsts
use voice_agent_v.Prelude.{
  ℕ, ◌+◌, Bool, true, false, Option, none, some, List, [], ◌∷◌, or_ms, nat_eq, if◌then◌else◌,
}
use voice_agent_v.Prelude.Dict.{Dict, get, put}

pub record TurnLatency : Type 0 where
  pub user_speech_start_ms : Option ℕ
  pub first_interim_ms : Option ℕ
  pub first_final_ms : Option ℕ
  pub user_speech_end_ms : Option ℕ
  pub end_of_turn_decision_ms : Option ℕ
  pub llm_request_start_ms : Option ℕ
  pub llm_first_token_ms : Option ℕ
  pub llm_stream_end_ms : Option ℕ
  pub tts_request_start_ms : Option ℕ
  pub tts_first_audio_ms : Option ℕ
  pub tts_stream_end_ms : Option ℕ
  pub first_audio_sent_ms : Option ℕ
  pub first_audio_played_ms : Option ℕ
  pub final_audio_played_ms : Option ℕ
  pub interruption_start_ms : Option ℕ
  pub playback_clear_sent_ms : Option ℕ
  pub playback_clear_ack_ms : Option ℕ

abbrev pub unmarked : TurnLatency
unmarked = record {
  user_speech_start_ms = none;
  first_interim_ms = none;
  first_final_ms = none;
  user_speech_end_ms = none;
  end_of_turn_decision_ms = none;
  llm_request_start_ms = none;
  llm_first_token_ms = none;
  llm_stream_end_ms = none;
  tts_request_start_ms = none;
  tts_first_audio_ms = none;
  tts_stream_end_ms = none;
  first_audio_sent_ms = none;
  first_audio_played_ms = none;
  final_audio_played_ms = none;
  interruption_start_ms = none;
  playback_clear_sent_ms = none;
  playback_clear_ack_ms = none;
}

pub record LatencyTracker : Type 0 where
  pub turns : Dict ℕ TurnLatency
  pub current_turn_id : Option ℕ
  pub interruption_count : ℕ
  pub agent_interrupted_user_count : ℕ
  pub audio_drop_count : ℕ
  pub provider_error_count : ℕ

unfoldable pub new : LatencyTracker
new = record {
  turns = [];
  current_turn_id = none;
  interruption_count = 0;
  agent_interrupted_user_count = 0;
  audio_drop_count = 0;
  provider_error_count = 0;
}

-- `turn_id or self._current_turn_id or 0`
abbrev pub key : Option ℕ → LatencyTracker → ℕ
key turn_id t = or_ms turn_id (or_ms t.current_turn_id 0)

abbrev pub or_unmarked : Option TurnLatency → TurnLatency
or_unmarked none = unmarked
or_unmarked (some l) = l

-- `for_turn`, with what the caller writes to the turn that it returns.
unfoldable pub for_turn : Option ℕ → (TurnLatency → TurnLatency) → LatencyTracker → LatencyTracker
for_turn turn_id write t = record t {
  turns = put t.turns (key turn_id t) (write (or_unmarked (get t.turns (key turn_id t))));
  current_turn_id = some (key turn_id t);
}

-- `old or ts_ms`
abbrev pub keep_first : Option ℕ → ℕ → Option ℕ
keep_first old time = some (or_ms old time)

unfoldable pub mark_speech_start : Option ℕ → ℕ → LatencyTracker → LatencyTracker
mark_speech_start turn_id time =
    for_turn turn_id (λ l. record l { user_speech_start_ms = some time })

unfoldable pub mark_speech_stop : Option ℕ → ℕ → LatencyTracker → LatencyTracker
mark_speech_stop turn_id time = for_turn turn_id (λ l. record l { user_speech_end_ms = some time })

unfoldable pub mark_llm_start : Option ℕ → ℕ → LatencyTracker → LatencyTracker
mark_llm_start turn_id time = for_turn turn_id (λ l. record l { llm_request_start_ms = some time })

unfoldable pub mark_llm_end : Option ℕ → ℕ → LatencyTracker → LatencyTracker
mark_llm_end turn_id time = for_turn turn_id (λ l. record l { llm_stream_end_ms = some time })

unfoldable pub mark_tts_end : Option ℕ → ℕ → LatencyTracker → LatencyTracker
mark_tts_end turn_id time = for_turn turn_id (λ l. record l { tts_stream_end_ms = some time })

unfoldable pub mark_final_audio_played : Option ℕ → ℕ → LatencyTracker → LatencyTracker
mark_final_audio_played turn_id time =
    for_turn turn_id (λ l. record l { final_audio_played_ms = some time })

unfoldable pub mark_clear_sent : Option ℕ → ℕ → LatencyTracker → LatencyTracker
mark_clear_sent turn_id time =
    for_turn turn_id (λ l. record l { playback_clear_sent_ms = some time })

unfoldable pub mark_clear_ack : Option ℕ → ℕ → LatencyTracker → LatencyTracker
mark_clear_ack turn_id time = for_turn turn_id (λ l. record l { playback_clear_ack_ms = some time })

unfoldable pub mark_llm_first_token : Option ℕ → ℕ → LatencyTracker → LatencyTracker
mark_llm_first_token turn_id time =
    for_turn turn_id (λ l. record l { llm_first_token_ms = keep_first l.llm_first_token_ms time })

unfoldable pub mark_tts_start : Option ℕ → ℕ → LatencyTracker → LatencyTracker
mark_tts_start turn_id time =
    for_turn turn_id
      (λ l. record l { tts_request_start_ms = keep_first l.tts_request_start_ms time })

unfoldable pub mark_tts_first_audio : Option ℕ → ℕ → LatencyTracker → LatencyTracker
mark_tts_first_audio turn_id time =
    for_turn turn_id (λ l. record l { tts_first_audio_ms = keep_first l.tts_first_audio_ms time })

unfoldable pub mark_first_audio_sent : Option ℕ → ℕ → LatencyTracker → LatencyTracker
mark_first_audio_sent turn_id time =
    for_turn turn_id (λ l. record l { first_audio_sent_ms = keep_first l.first_audio_sent_ms time })

unfoldable pub mark_first_audio_played : Option ℕ → ℕ → LatencyTracker → LatencyTracker
mark_first_audio_played turn_id time =
    for_turn turn_id
      (λ l. record l { first_audio_played_ms = keep_first l.first_audio_played_ms time })

unfoldable pub mark_transcript : Option ℕ → ℕ → Bool → LatencyTracker → LatencyTracker
mark_transcript turn_id time is_final =
    if is_final
    then for_turn turn_id (λ l. record l { first_final_ms = keep_first l.first_final_ms time })
    else for_turn turn_id (λ l. record l { first_interim_ms = keep_first l.first_interim_ms time })

unfoldable pub mark_end_of_turn : ℕ → ℕ → LatencyTracker → LatencyTracker
mark_end_of_turn turn_id time t =
    record (for_turn (some turn_id) (λ l. record l { end_of_turn_decision_ms = some time }) t) {
      current_turn_id = some turn_id;
    }

unfoldable pub mark_interruption : Option ℕ → ℕ → LatencyTracker → LatencyTracker
mark_interruption turn_id time t =
    for_turn turn_id (λ l. record l { interruption_start_ms = some time })
      (record t { interruption_count = t.interruption_count + 1 })

unfoldable pub mark_audio_drop : LatencyTracker → LatencyTracker
mark_audio_drop t = record t { audio_drop_count = t.audio_drop_count + 1 }

unfoldable pub mark_provider_error : LatencyTracker → LatencyTracker
mark_provider_error t = record t { provider_error_count = t.provider_error_count + 1 }
