-- ===== src/Session/Output/Account.antt =====
-- core/session_orchestrator.py: what the output loop counts of a chunk.
use voice_agent_v.Prelude.{ℕ, ℤ, ◌+◌, ◌≡◌, refl, Option, some, arith}
use voice_agent_v.Contracts.{AudioFrame}
use voice_agent_v.Interruption.State.{mark_agent_audio_sent}
use voice_agent_v.Playback.Tracker.{mark_audio_sent}
use voice_agent_v.Session.Output.{
  Fate, stale, blocked, waited, passed, OutputStats, OutputState, Step, going, stopped, call_ended,
  failed, Answer, sent, ended, error, handle_chunk, chunk_fate, Moment, handle_output, chunk,
}

-- The four counters, each with what it goes up by.
pub record Counts (stale blocked waited sent : ℕ) (before after : OutputStats) : Type 0 where
  pub stale_dropped : after.stale_audio_chunks_dropped ≡ before.stale_audio_chunks_dropped + stale
  pub blocked_dropped :
      after.blocked_audio_chunks_dropped ≡ before.blocked_audio_chunks_dropped + blocked
  pub waited_dropped :
      after.waited_audio_chunks_dropped ≡ before.waited_audio_chunks_dropped + waited
  pub all_sent : after.audio_chunks_sent ≡ before.audio_chunks_sent + sent

-- The tracker of what was played and the interruption manager are left alone.
abbrev pub Unheard : {W : Type 0} → OutputState W → OutputState W → Type 0
Unheard o o' = (o'.tracker ≡ o.tracker) × (o'.interruption ≡ o.interruption)

-- A chunk of each fate: its counter, and what is known of it elsewhere.
unfoldable pub Accounted :
    {W : Type 0} → ℕ → Answer → Fate → Option ℤ → AudioFrame → OutputState W → Step W → Type 0
Accounted now a stale s f o (going o') = Counts 1 0 0 0 o.stats o'.stats × Unheard o o'
Accounted now a blocked s f o (going o') = Counts 0 1 0 0 o.stats o'.stats × Unheard o o'
Accounted now a waited s f o (going o') = Counts 0 0 1 0 o.stats o'.stats × Unheard o o'
Accounted now a passed s f o (going o') =
    (a ≡ sent)
    × Counts 0 0 0 1 o.stats o'.stats
    × (o'.tracker ≡ (mark_audio_sent now f (some now) o.tracker).1)
    × (o'.interruption ≡ mark_agent_audio_sent s o.interruption)
Accounted now a fate s f o (stopped o') = ⊥
Accounted now a fate s f o (call_ended o') = (fate ≡ passed) × (a ≡ ended) × (o' ≡ o)
Accounted now a fate s f o (failed x o') = (fate ≡ passed) × (a ≡ error x) × (o' ≡ o)

module _ {W : Type 0} where
  handle_chunk-Accounted :
      (now : ℕ) (a : Answer) (fate : Fate) (s : Option ℤ) (f : AudioFrame) (o : OutputState W)
      → Accounted now a fate s f o (handle_chunk now a fate s f o)
  unfolding Accounted handle_chunk
  handle_chunk-Accounted now a stale s f o = (
    record {
      stale_dropped = omega arith;
      blocked_dropped = omega arith;
      waited_dropped = omega arith;
      all_sent = omega arith;
    },
    (refl, refl),
  )
  handle_chunk-Accounted now a blocked s f o = (
    record {
      stale_dropped = omega arith;
      blocked_dropped = omega arith;
      waited_dropped = omega arith;
      all_sent = omega arith;
    },
    (refl, refl),
  )
  handle_chunk-Accounted now a waited s f o = (
    record {
      stale_dropped = omega arith;
      blocked_dropped = omega arith;
      waited_dropped = omega arith;
      all_sent = omega arith;
    },
    (refl, refl),
  )
  handle_chunk-Accounted now sent passed s f o = (
    refl,
    record {
      stale_dropped = omega arith;
      blocked_dropped = omega arith;
      waited_dropped = omega arith;
      all_sent = omega arith;
    },
    refl,
    refl,
  )
  handle_chunk-Accounted now ended passed s f o = (refl, refl, refl)
  handle_chunk-Accounted now (error x) passed s f o = (refl, refl, refl)

  -- Of each chunk, in the state that the other tasks have left: a chunk of a sequence that is not valid
  -- is counted as stale, one that the gate blocks as blocked, and one that has waited too long as
  -- waited, each by that counter alone, by one, and nothing else changes. A chunk that passes is
  -- counted as sent, by that counter alone, and made known to the tracker and to the interruption
  -- manager, if the phone's connection takes it; if the call has ended, or another exception is
  -- raised, nothing changes and the loop is left.
  pub handle_output-Accounted :
      (t : Moment W) (s : Option ℤ) (f : AudioFrame) (o : OutputState W)
      → Accounted t.now t.answer
          (chunk_fate o.interruption.sequences o.interruption.gate t.rounds s)
          s
          f
          (t.meanwhile o)
          (handle_output t (chunk s f) o)
  unfolding handle_output
  handle_output-Accounted t s f o = handle_chunk-Accounted t.now t.answer _ s f (t.meanwhile o)
