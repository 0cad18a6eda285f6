-- ===== src/Session/Release/Estimate.antt =====
-- When a response is taken for finished, and what is left of it then.
use mathlib.Core.Path.{subst}
use mathlib.Core.Option.{none-ne-some, some-injective}
use voice_agent_v.Prelude.{
  ℕ, ℤ, ◌+◌, ◌≤◌, ◌≡◌, ◌≢◌, refl, sym, ◌∙◌, ap, eq_refl, or_ms-same, true, false, Option, none,
  some, ◌==◌, ◌&&◌, int_eq, list_eq, nat_eq, is_nil, is_some, leb, leb→le, if◌then◌else◌, not,
  int_beq_iff, arith, Option-cases, Bool-cases, inl, inr,
}
use voice_agent_v.Prelude.Dict.{get, put, get-put}
use voice_agent_v.Prelude.Sets.{contains-discard}
use voice_agent_v.Interruption.Sequences.{system_sequence_id, is_valid, retire, SequenceManager}
use voice_agent_v.Interruption.State.{Manager, ActiveResponse, mark_agent_response_finished}
use voice_agent_v.Text.{Text}
use voice_agent_v.Playback.Message.{MessagePlayback}
use voice_agent_v.Playback.Tracker.{PlaybackTracker}
use voice_agent_v.Playback.Events.{awaits_completion, mark_estimated_fully_played}
use voice_agent_v.Conversation.Context.{update_assistant_from_playback}
use voice_agent_v.Session.Cancel.Silence.{mark_agent_response_finished-keeps, true-ne-false}
use voice_agent_v.Session.Release.{
  Line, is_due, end_response, settled, release_message, release_active,
  release_agent_if_estimated_playback_complete,
}

-- All of the message's audio that was sent has been played at a time, the grace included, and nothing
-- has ended the message yet.
pub record Played (now grace : ℕ) (p : MessagePlayback) : Type 0 where
  pub start : ℕ
  pub started_ms : p.started_ms ≡ some start
  pub elapsed : start + p.audio_ms_sent + grace ≤ now
  pub uninterrupted : p.interrupted ≡ false
  pub unfinished : p.fully_played_ms ≡ none
  pub marked : is_nil p.checkpoints_sent ≡ false
  pub audible : p.audio_ms_sent ≢ 0

module _ {W : Type 0} where
  -- The message is that of the active response.
  pub record Due (now grace : ℕ) (s : Line W) (p : MessagePlayback) : Type 0 where
    pub response : ActiveResponse
    pub active : s.manager.active_response ≡ some response
    pub stored : get s.playback.messages response.message_id ≡ some p
    pub played : Played now grace p

  -- A result in the two cases: nothing is due and nothing changes; or the message that is due is closed
  -- in the tracker and in the conversation, with its sequence and the speech of the agent.
  abbrev pub Outcome : ℕ → ℕ → Line W → Option MessagePlayback × Line W → Type 0
  Outcome now grace s (none, t) = (t ≡ s) × (((p : MessagePlayback) × Due now grace s p) → ⊥)
  Outcome now grace s (some p', t) =
      (p : MessagePlayback) × ((d : Due now grace s p) × ((p'
            ≡ record p { fully_played_ms = some now })
          × (get t.playback.messages d.response.message_id ≡ some p')
          × (is_valid t.manager.sequences (some p.sequence_id) ≡ (
              p.sequence_id == system_sequence_id
              && is_valid s.manager.sequences (some p.sequence_id)))
          × (t.manager.active_response
              ≡ (if p.sequence_id == d.response.sequence_id then none else some d.response))
          × (t.manager.state.agent_is_speaking ≡ (
              not (p.sequence_id == d.response.sequence_id) && s.manager.state.agent_is_speaking))
          × (t.context ≡ update_assistant_from_playback p' now s.context)))

due_at :
    (now grace t : ℕ) (p : MessagePlayback)
    → p.started_ms ≡ some t
    → is_due now grace p ≡ leb (t + p.audio_ms_sent + grace) now
unfolding is_due
due_at now grace t p begun = rw begun refl

never-due : (now grace : ℕ) (p : MessagePlayback) → p.started_ms ≡ none → is_due now grace p ≡ false
unfolding is_due
never-due now grace p e = rw e refl

is_some-none {ℓ} : {A : Type ℓ} (o : Option A) → is_some o ≡ false → o ≡ none
is_some-none none e = refl
is_some-none (some a) e = absurd (ground (arith, e))

due-Played :
    (now grace : ℕ) (p : MessagePlayback)
    → awaits_completion p && is_due now grace p ≡ true
    → Played now grace p
due-Played now grace p e = elim (Option-cases p.started_ms) [
  | inl none_yet ↦ absurd (ground (arith, never-due now grace p none_yet))
  | inr (t, begun) ↦ record {
    start = t;
    started_ms = begun;
    elapsed = leb→le (t + p.audio_ms_sent + grace) now (ground (arith, due_at now grace t p begun));
    uninterrupted = ground arith;
    unfinished = is_some-none p.fully_played_ms (ground arith);
    marked = ground arith;
    audible = λ zero. ground arith;
  }
]

Played-due :
    (now grace : ℕ) (p : MessagePlayback)
    → Played now grace p
    → awaits_completion p && is_due now grace p ≡ true
unfolding is_due
Played-due now grace p d =
    rw (d.started_ms, d.uninterrupted, d.unfinished, d.marked)
      (ground (arith, d.elapsed, d.audible))

retire-is_valid :
    (m : SequenceManager) (n : ℤ)
    → is_valid (retire m (some n)).1 (some n) ≡ (n == system_sequence_id && is_valid m (some n))
unfolding retire is_valid
retire-is_valid m n = ground (arith, contains-discard n n m.valid_sequence_ids, int_beq_iff n n)

mark_estimated_lem :
    (now : ℕ) (id : Text) (k : PlaybackTracker) (p : MessagePlayback)
    → get k.messages id ≡ some p
    → awaits_completion p ≡ true
    → let p' = record p { fully_played_ms = some now } in
      mark_estimated_fully_played now id (some now) k
      ≡ (some p', record k { messages = put k.messages id p' })
unfolding mark_estimated_fully_played
mark_estimated_lem now id k p there e =
    rw (there, mark_estimated_fully_played) (rw (e, or_ms-same now) refl)

finished-fields :
    {W : Type 0} (m : Manager W) (r : ActiveResponse) (n : ℤ)
    → m.active_response ≡ some r
    → ((mark_agent_response_finished (some n) m).active_response
        ≡ (if n == r.sequence_id then none else some r))
      × ((mark_agent_response_finished (some n) m).state.agent_is_speaking
          ≡ (not (n == r.sequence_id) && m.state.agent_is_speaking))
unfolding mark_agent_response_finished
finished-fields m r n e = ground (arith, e)

module _ {W : Type 0} (now grace : ℕ) (s : Line W) where
  -- There is no message, or it has not been played.
  not-released : ((p : MessagePlayback) → Due now grace s p → ⊥) → Outcome now grace s (none, s)
  not-released h = (refl, λ d. h d.0 d.1)

  finished-response :
      (r : ActiveResponse) (p : MessagePlayback)
      → s.manager.active_response ≡ some r
      → let m = end_response p s.manager in
        (is_valid m.sequences (some p.sequence_id) ≡ (
          p.sequence_id == system_sequence_id && is_valid s.manager.sequences (some p.sequence_id)))
        × (m.active_response ≡ (if p.sequence_id == r.sequence_id then none else some r))
        × (m.state.agent_is_speaking
            ≡ (not (p.sequence_id == r.sequence_id) && s.manager.state.agent_is_speaking))
  unfolding end_response mark_agent_response_finished
  finished-response r p e = (
    ap (λ q. is_valid (retire q (some p.sequence_id)).1 (some p.sequence_id))
          (mark_agent_response_finished-keeps (some p.sequence_id) s.manager).0
        ∙ retire-is_valid s.manager.sequences p.sequence_id,
    (finished-fields s.manager r p.sequence_id e).0,
    (finished-fields s.manager r p.sequence_id e).1,
  )

  stored-as :
      (r : ActiveResponse)
      → s.manager.active_response ≡ some r
      → (p : MessagePlayback) → Due now grace s p
      → get s.playback.messages r.message_id ≡ some p
  stored-as r active p d =
      ap (λ q. get s.playback.messages q.message_id) (some-injective _ _ (sym active ∙ d.active))
      ∙ d.stored

  release_message-Outcome :
      (r : ActiveResponse)
      → s.manager.active_response ≡ some r
      → (o : Option MessagePlayback) → get s.playback.messages r.message_id ≡ o
      → Outcome now grace s (release_message now grace s r.message_id o)
  unfolding release_message settled
  release_message-Outcome r active none absent =
      not-released (λ p d. none-ne-some p (sym absent ∙ stored-as r active p d))
  release_message-Outcome r active (some p) there =
      elim (Bool-cases (awaits_completion p && is_due now grace p)) [
        | inl e ↦
            rw (e, mark_estimated_lem now r.message_id s.playback p there (ground arith))
              (
                p,
                (
                  record {
                    response = r;
                    active = active;
                    stored = there;
                    played = due-Played now grace p e;
                  },
                  (
                    refl,
                    get-put s.playback.messages r.message_id r.message_id _
                        ∙ rw (eq_refl r.message_id) refl,
                    (finished-response r p active).0,
                    (finished-response r p active).1,
                    (finished-response r p active).2,
                    refl,
                  ),
                ),
              )
        | inr e ↦ rw e (
            not-released (λ p' d. true-ne-false (
              sym (
                Played-due now grace p (
                  subst (Played now grace)
                    (some-injective _ _ (sym (stored-as r active p' d) ∙ there)) d.played))
              ∙ e)))
      ]

  release_active-Outcome :
      (o : Option ActiveResponse)
      → s.manager.active_response ≡ o
      → Outcome now grace s (release_active now grace s o)
  unfolding release_active
  release_active-Outcome none idle = not-released (λ p d. none-ne-some _ (sym idle ∙ d.active))
  release_active-Outcome (some r) active = release_message-Outcome r active _ refl

  -- The code releases the response exactly when it is due: a message of the active response that has
  -- begun, sent audio and a checkpoint, is neither interrupted nor played, and whose audio with the
  -- grace period is over. Then it is marked as played, in the tracker and in the conversation, its sequence is
  -- valid no more, unless it is the system's, and the agent is silent if the message's sequence is that
  -- of the response. Otherwise nothing changes.
  pub release-Outcome :
      Outcome now grace s (release_agent_if_estimated_playback_complete now grace s)
  unfolding release_agent_if_estimated_playback_complete
  release-Outcome = release_active-Outcome s.manager.active_response refl
