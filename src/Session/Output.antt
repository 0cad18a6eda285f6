-- ===== src/Session/Output.antt =====
-- core/session_orchestrator.py: `_output_loop`, which sends the audio of the responses to the phone. The
-- log and the latency counters that it also writes are left out, and so is what it does once the queue
-- or the call has ended: to stop the phone's connection, to end the idle queues, to shut down.
pub mod Fates
pub mod Account
use voice_agent_v.Prelude.{
  ℕ, ℤ, suc, ◌+◌, Bool, true, false, not, Option, none, some, List, [], ◌∷◌, if◌then◌else◌,
}
use voice_agent_v.Text.{Text}
use voice_agent_v.Contracts.{AudioFrame}
use voice_agent_v.Interruption.Sequences.{SequenceManager, is_valid}
use voice_agent_v.Interruption.Gate.{
  OutputGate, OutputDecision, drop, decision_for, Change, wait_until_released,
}
use voice_agent_v.Interruption.State.{Manager, mark_agent_audio_sent}
use voice_agent_v.Playback.Tracker.{PlaybackTracker, mark_audio_sent, mark_checkpoint_sent}

-- The packets of the queue `tts_audio`, as `_tts_loop` makes them: the end of the call, the end of a
-- response with its message, and a chunk of audio.
pub data Output : Type 0 where
  ending : Output
  response_end : Option ℤ → Text → Output
  chunk : Option ℤ → AudioFrame → Output

-- What becomes of a chunk.
pub data Fate : Type 0 where
  stale blocked waited passed : Fate

fate_of : OutputDecision → Fate
fate_of OutputDecision.send = passed
fate_of OutputDecision.wait = waited
fate_of drop = blocked

after_wait : OutputDecision → OutputDecision → OutputDecision
after_wait OutputDecision.wait d = d
after_wait OutputDecision.send d = OutputDecision.send
after_wait drop d = drop

-- The decision on a chunk, with what the other tasks do to the gate while the loop waits for it.
unfoldable pub chunk_fate : SequenceManager → OutputGate → List (List Change) → Option ℤ → Fate
unfolding fate_of after_wait
chunk_fate m g rounds s =
    if is_valid m s
    then fate_of (after_wait (decision_for g s) (wait_until_released g rounds).0)
    else stale

pub record OutputStats : Type 0 where
  pub stale_audio_chunks_dropped : ℕ
  pub blocked_audio_chunks_dropped : ℕ
  pub waited_audio_chunks_dropped : ℕ
  pub audio_chunks_sent : ℕ

-- The state that the loop shares with the other tasks; `W` is the world outside.
pub record OutputState (W : Type 0) : Type 0 where
  pub stats : OutputStats
  pub tracker : PlaybackTracker
  pub interruption : Manager W

-- The loop goes on, or it has stopped: at the end of the queue; since the call has ended, which makes
-- it shut the session down; or by another exception of the phone's connection, which leaves the loop.
pub data Step (W : Type 0) : Type 0 where
  going : OutputState W → Step W
  stopped call_ended : OutputState W → Step W
  failed : Text → OutputState W → Step W

-- How the phone's connection answers: by success, by CallEndedError, or by another exception.
pub data Answer : Type 0 where
  sent ended : Answer
  error : Text → Answer

-- One turn of the loop: the time, the answer of the phone's connection, what the gate goes through while the
-- loop waits for it, and what the other tasks make of the state while the loop awaits something, which
-- is the identity where it awaits nothing.
pub record Moment (W : Type 0) : Type 0 where
  pub now : ℕ
  pub answer : Answer
  pub rounds : List (List Change)
  pub meanwhile : OutputState W → OutputState W

module _ {W : Type 0} where
  abbrev pub send_chunk : ℕ → Answer → Option ℤ → AudioFrame → OutputState W → Step W
  send_chunk now ended s f o = call_ended o
  send_chunk now (error x) s f o = failed x o
  send_chunk now sent s f o = going (record o {
    tracker = (mark_audio_sent now f (some now) o.tracker).1;
    interruption = mark_agent_audio_sent s o.interruption;
    stats = record o.stats { audio_chunks_sent = suc o.stats.audio_chunks_sent };
  })

  -- What is done with a chunk, in the state that the other tasks have left.
  unfoldable pub handle_chunk : ℕ → Answer → Fate → Option ℤ → AudioFrame → OutputState W → Step W
  handle_chunk now a stale s f o = going (record o {
    stats = record o.stats { stale_audio_chunks_dropped = suc o.stats.stale_audio_chunks_dropped };
  })
  handle_chunk now a blocked s f o = going (record o {
    stats = record o.stats {
      blocked_audio_chunks_dropped = suc o.stats.blocked_audio_chunks_dropped;
    };
  })
  handle_chunk now a waited s f o = going (record o {
    stats = record o.stats {
      waited_audio_chunks_dropped = suc o.stats.waited_audio_chunks_dropped;
    };
  })
  handle_chunk now a passed s f o = send_chunk now a s f o

  -- The end of a response: the phone is asked to report when it has played the message.
  abbrev pub send_checkpoint : ℕ → Answer → Text → OutputState W → Step W
  send_checkpoint now ended message o = call_ended o
  send_checkpoint now (error x) message o = failed x o
  send_checkpoint now sent message o =
      going (record o { tracker = mark_checkpoint_sent now message message (some now) o.tracker })

  unfoldable pub handle_response_end : ℕ → Answer → Bool → Text → OutputState W → Step W
  handle_response_end now a valid message o =
      if valid
      then send_checkpoint now a message o
      else going (record o {
        stats = record o.stats {
          stale_audio_chunks_dropped = suc o.stats.stale_audio_chunks_dropped;
        };
      })

  unfoldable pub handle_output : Moment W → Output → OutputState W → Step W
  handle_output t ending o = stopped o
  handle_output t (response_end s message) o =
      handle_response_end t.now t.answer (is_valid o.interruption.sequences s) message
        (t.meanwhile o)
  handle_output t (chunk s f) o =
      handle_chunk t.now t.answer
        (chunk_fate o.interruption.sequences o.interruption.gate t.rounds s) s f (t.meanwhile o)
