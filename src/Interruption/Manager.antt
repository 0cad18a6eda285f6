-- ===== src/Interruption/Manager.antt =====
-- core/interruption/interruption_manager.py: a candidate interruption when the caller starts to speak
-- over the agent, confirmed or rejected by what is said.
-- A handler returns its decision, or the exception that escapes it, beside the state that it leaves.
pub mod Confirmed
pub mod Decisions
pub mod Records
use voice_agent_v.Prelude.{
  ℕ, ℤ, pos, ◌+◌, ◌-◌, Bool, true, false, not, ◌&&◌, Option, none, some, List, [], ◌∷◌, ◌++◌, ◌==◌,
  int_eq, option_eq, leb, or_ms, or_ms?, is_some, ◌||◌, if◌then◌else◌,
}
use voice_agent_v.Text.{Text, Unicode}
use voice_agent_v.Contracts.{
  SpeechStart, SpeechStop, TranscriptEvent, InterruptionStarted, InterruptionRejected,
  InterruptionReason, interruption_disabled, agent_not_speaking, speech_start,
  no_interruption_candidate, speech_stop_without_confirmation, backchannel_phrase,
  force_interrupt_phrase, word_count_threshold, long_user_speech, not_enough_words, Settings, stt,
}
use voice_agent_v.Interruption.Sequences
use voice_agent_v.Interruption.Sequences.{SequenceManager, invalidate_pending}
use voice_agent_v.Interruption.Gate.{OutputGate, set_send, set_wait, set_block, block_sequences}
use voice_agent_v.Interruption.Phrases.{PhraseClassifier, PhraseDecision, decide}
use voice_agent_v.Interruption.State.{
  Outcome, ignored, candidate, confirmed, rejected, pending, InterruptionEvent, started, refused,
  Decision, ActiveResponse, InterruptionState, Ports, Manager, Result, decided, raised, plain,
  reset_candidate, sequence_of, sequence_or_zero, note, can_consider_interruption,
}

-- What a manager is built with.
pub record Config (W : Type 0) : Type 0 where
  pub call_id : Text
  pub settings : Settings
  pub classifier : PhraseClassifier
  pub ports : Ports W

unfoldable pub initial : InterruptionState
initial = record {
  agent_is_speaking = false;
  user_interrupt_start_ms = none;
  candidate_sequence_id = none;
  user_may_be_interrupting = false;
  confirmed_count = 0;
  rejected_count = 0;
  events = [];
  cancellation_errors = [];
}

-- The speech start that a transcript stands for.
abbrev pub implied_start : TranscriptEvent → SpeechStart
implied_start e = record {
  call_id = e.call_id;
  ts_ms = or_ms (or_ms? e.start_ms e.end_ms) 0;
  source = stt;
  confidence = e.confidence;
}

abbrev pub log_error : Option Text → List Text → List Text
log_error none errors = errors
log_error (some e) errors = errors ++ e ∷ []

module _ {W : Type 0} (c : Config W) where
  unfoldable pub interruption_audio_ms : Manager W → TranscriptEvent → ℕ
  interruption_audio_ms m e = elim m.state.user_interrupt_start_ms [
    | none ↦ 0
    | some start ↦ or_ms (or_ms? e.end_ms e.start_ms) start - start
  ]

  -- An exception of the preemptive clear escapes, with the candidate set and the gate waiting.
  clear_preemptively : Manager W → Result × Manager W
  clear_preemptively m =
      let (e, w) = c.ports.clear_playback m.world in
      (elim e [ none ↦ plain candidate speech_start | some x ↦ raised x ], record m { world = w })

  unfoldable pub handle_speech_start : SpeechStart → Manager W → Result × Manager W
  unfolding can_consider_interruption clear_preemptively set_wait
  handle_speech_start e m =
      let s = record m.state {
        user_interrupt_start_ms = some e.ts_ms;
        candidate_sequence_id = sequence_of m.active_response;
        user_may_be_interrupting = true;
      } in
      let g = if c.settings.wait_gate_on_speech_start then set_wait m.gate else m.gate in
      let m' = record m { state = s; gate = g } in
      if not c.settings.interruption_enabled
      then (plain ignored interruption_disabled, m)
      else if not (can_consider_interruption m)
      then (plain ignored agent_not_speaking, m)
      else if c.settings.preemptive_clear_audio
      then clear_preemptively m'
      else (plain candidate speech_start, m')

  -- The shared end of a rejection: the gate opens, the rejection is counted and noted.
  unfoldable pub refuse :
      ℕ → InterruptionReason → Option Text → Option PhraseDecision → Manager W → Result × Manager W
  unfolding reset_candidate set_send
  refuse now reason transcript phrase m =
      let e = refused (record {
        call_id = c.call_id;
        turn_id = none;
        sequence_id = sequence_or_zero m.active_response;
        reason = reason;
        transcript = transcript;
        ts_ms = now;
      }) in
      let s = record m.state { rejected_count = m.state.rejected_count + 1 } in
      (
        decided (record { outcome = rejected; reason = reason; phrase = phrase; event = some e }),
        record m { gate = set_send m.gate; state = reset_candidate (note e s) },
      )

  unfoldable pub handle_speech_stop : ℕ → SpeechStop → Manager W → Result × Manager W
  handle_speech_stop now e m =
      if not m.state.user_may_be_interrupting
      then (plain ignored no_interruption_candidate, m)
      else if not (is_some m.active_response)
      then (plain ignored agent_not_speaking, record m { state = reset_candidate m.state })
      else refuse now speech_stop_without_confirmation none none m

  unfoldable pub reject :
      ℕ → InterruptionReason → PhraseDecision → TranscriptEvent → Manager W → Result × Manager W
  unfolding refuse
  reject now reason phrase e m = refuse now reason (some e.content) (some phrase) m

  attempt : (W → Option Text × W) → Manager W → Manager W
  attempt f m =
      let (x, w) = f m.world in
      record m {
        state = record m.state { cancellation_errors = log_error x m.state.cancellation_errors };
        world = w;
      }

  -- The callback; an exception of it is kept and does not escape.
  notify_by :
      Option (InterruptionStarted → SequenceManager → W → Option Text × W)
      → InterruptionStarted
      → Manager W
      → Manager W
  unfolding attempt
  notify_by none e m = m
  notify_by (some f) e m = attempt (f e m.sequences) m

  notify : InterruptionStarted → Manager W → Manager W
  unfolding notify_by
  notify e m = notify_by c.ports.on_confirmed e m

  cancel_response : Option ActiveResponse → InterruptionReason → Manager W → Manager W
  unfolding attempt
  cancel_response none reason m = m
  cancel_response (some r) reason m =
      attempt (c.ports.llm_cancel r.response_id)
        (attempt (c.ports.tts_cancel r.message_id reason) m)

  -- The cancellations run in the order in which they are gathered; one that raises stops no other.
  unfoldable pub cancel_active_work :
      Option ActiveResponse → InterruptionReason → Manager W → Manager W
  unfolding attempt cancel_response
  cancel_active_work active reason m =
      let m' = cancel_response active reason m in
      if c.settings.clear_audio_on_confirmed_interrupt
      then attempt c.ports.clear_playback m'
      else m'

  -- The part of `confirm` that runs before the callback: everything that keeps stale audio back.
  unfoldable pub shut_output :
      ℕ → InterruptionReason → TranscriptEvent → Manager W → InterruptionStarted × Manager W
  unfolding reset_candidate set_block block_sequences invalidate_pending
  shut_output now reason e m =
      let (dropped, seqs) = invalidate_pending m.sequences in
      let begun : InterruptionStarted = record {
        call_id = c.call_id;
        turn_id = none;
        sequence_id = sequence_or_zero m.active_response;
        reason = reason;
        transcript = some e.content;
        ts_ms = now;
      } in
      let s = record m.state {
        confirmed_count = m.state.confirmed_count + 1;
        agent_is_speaking = false;
      } in
      (
        begun,
        record m {
          gate = block_sequences (set_block m.gate) dropped;
          sequences = seqs;
          state = reset_candidate (note (started begun) s);
          active_response = none;
        },
      )

  unfoldable pub confirm :
      ℕ → InterruptionReason → PhraseDecision → TranscriptEvent → Manager W → Result × Manager W
  unfolding shut_output notify cancel_active_work
  confirm now reason phrase e m =
      let (begun, m') = shut_output now reason e m in
      (
        decided (record {
          outcome = confirmed;
          reason = reason;
          phrase = some phrase;
          event = some (started begun);
        }),
        cancel_active_work m.active_response reason (notify begun m'),
      )

  -- The decision on a transcript, once there is a candidate.
  unfoldable pub judge : ℕ → TranscriptEvent → PhraseDecision → Manager W → Result × Manager W
  unfolding interruption_audio_ms
  judge now e phrase m =
      let enough = leb c.settings.min_interrupt_words phrase.word_count in
      let long = leb c.settings.hard_interrupt_after_audio_ms (interruption_audio_ms m e) in
      if phrase.is_backchannel
      then reject now backchannel_phrase phrase e m
      else if phrase.is_force_interrupt
      then confirm now force_interrupt_phrase phrase e m
      else if enough
      then confirm now word_count_threshold phrase e m
      else if long && enough
      then confirm now long_user_speech phrase e m
      else (
        decided (record {
          outcome = pending;
          reason = not_enough_words;
          phrase = some phrase;
          event = none;
        }),
        m,
      )

  abbrev go_on : Result → (Manager W → Result × Manager W) → Manager W → Result × Manager W
  go_on (decided d) f m = f m
  go_on (raised x) f m = (raised x, m)

  unfoldable pub handle_transcript :
      ⦃u : Unicode⦄ → ℕ → TranscriptEvent → Manager W → Result × Manager W
  unfolding can_consider_interruption
  handle_transcript now e m =
      let phrase = decide c.classifier e.content in
      let (r, m') = handle_speech_start (implied_start e) m in
      if not c.settings.interruption_enabled
      then (plain ignored interruption_disabled, m)
      else if not (can_consider_interruption m)
      then (plain ignored agent_not_speaking, m)
      else if is_some m.state.user_interrupt_start_ms
      then judge now e phrase m
      else go_on r (judge now e phrase) m'
