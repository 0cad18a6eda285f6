-- ===== src/Session/Cancel/Silence.antt =====
-- core/session_orchestrator.py: the output and the queues after the session has silenced itself.
use mathlib.Core.Path.{subst}
use voice_agent_v.Prelude.{
  ℕ, ℤ, Bool, ◌+◌, ◌⊎◌, eq→≡, ◌≡◌, ◌≢◌, refl, sym, ap, ◌∙◌, true, false, Option, none, some, List,
  [], ◌∷◌, ◌==◌, int_eq, int_beq_iff, is_nil, arith, Bool-cases, inl, inr,
}
use voice_agent_v.Prelude.Sets.{contains, contains-union}
use voice_agent_v.Text.{Text}
use voice_agent_v.Interruption.Sequences.{
  SequenceManager, system_sequence_id, is_valid, invalidate_pending,
}
use voice_agent_v.Interruption.Sequences.Validity as Sequences
use voice_agent_v.Interruption.Sequences.Staleness.{Stale, invalidate_pending_exact}
use voice_agent_v.Interruption.Gate.{blocks, block_sequences}
use voice_agent_v.Interruption.State.{Manager, ActiveResponse, mark_agent_response_finished}
use voice_agent_v.Queues.Packet.{AgentPacket}
use voice_agent_v.Queues.Queue.{Queue, WellFormed}
use voice_agent_v.Queues.Purge.{Purged, purge_invalid_packets-Purged}
use voice_agent_v.Session.Cancel.{
  CancelPorts, Speech, Done, done, raised, broken, with_world, after_call, counted_queues,
  purge_queues, finished, cancel_active, shut_pending, cancel_pending,
}

pub mark_agent_response_finished-keeps :
    {W : Type 0} (n : Option ℤ) (m : Manager W)
    → ((mark_agent_response_finished n m).sequences ≡ m.sequences)
      × ((mark_agent_response_finished n m).gate ≡ m.gate)
unfolding mark_agent_response_finished
mark_agent_response_finished-keeps n m = ground arith

not-system : (n : ℤ) → n ≢ system_sequence_id → (n == system_sequence_id) ≡ false
not-system n ne = ground (arith, int_beq_iff n system_sequence_id)

unequal : (n : ℤ) → (n == system_sequence_id) ≡ false → n ≢ system_sequence_id
unequal n q e = ground (arith, int_beq_iff n system_sequence_id)

contains-nil : (n : ℤ) (xs : List ℤ) → is_nil xs ≡ true → contains n xs ≡ false
contains-nil n [] e = refl
contains-nil n (x ∷ xs) e = absurd (ground arith)

-- Nothing was pending.
nothing-pending :
    (m : SequenceManager) (n : ℤ)
    → is_nil (invalidate_pending m).0 ≡ true
    → n ≢ system_sequence_id
    → is_valid m (some n) ≡ false
nothing-pending m n e ne = ground (
  arith,
  (invalidate_pending_exact m n).1,
  int_beq_iff n system_sequence_id,
  contains-nil n (invalidate_pending m).0 e,
)

pub true-ne-false : true ≡ false → ⊥
true-ne-false q = ground arith

-- A queue and its counter, before and after: as they were, where nothing was pending, or purged for
-- the ids that are valid now.
abbrev pub Cleared :
    {A : Type 0}
    → Bool
    → SequenceManager
    → Queue (AgentPacket A)
    → ℕ
    → Queue (AgentPacket A)
    → ℕ
    → Type 0
Cleared true m q n q' n' = (q' ≡ q) × (n' ≡ n)
Cleared false m q n q' n' = (k : ℕ) × Purged m q k q' × (n' ≡ n + k)

module _ {A W : Type 0} where
  -- What holds of the state that is left, whichever provider raises; a queue never does.
  abbrev pub Leaves : (Speech A W → Type 0) → Done (Speech A W) → Type 0
  Leaves P (done s) = P s
  Leaves P (raised e s) = P s
  Leaves P broken = ⊥

  -- The ids that are valid and blocked, and the two queues with their counters.
  pub record IsSilent (before s : Speech A W) : Type 0 where
    pub only_system_valid :
        (n : ℤ) → is_valid s.manager.sequences (some n) ≡ (n == system_sequence_id)
    pub earlier_blocked :
        (n : ℤ)
        → n ≢ system_sequence_id
        → is_valid before.manager.sequences (some n) ≡ true
        → blocks s.manager.gate (some n) ≡ true
    pub requests :
        Cleared
          (is_nil (invalidate_pending before.manager.sequences).0)
          s.manager.sequences
          before.tts_request
          before.pending_tts_requests_purged
          s.tts_request
          s.pending_tts_requests_purged
    pub audio :
        Cleared
          (is_nil (invalidate_pending before.manager.sequences).0)
          s.manager.sequences
          before.tts_audio
          before.pending_tts_audio_purged
          s.tts_audio
          s.pending_tts_audio_purged

  -- A response that was made, is not valid and is blocked at the gate.
  abbrev pub Shut : ℤ → Speech A W → Type 0
  Shut n s = Stale s.manager.sequences n × (blocks s.manager.gate (some n) ≡ true)

  -- The other tasks do not bring such a response back.
  abbrev pub Steady : CancelPorts A W → Type 0
  Steady ports = (n : ℤ) (s : Speech A W) → Shut n s → Shut n (ports.meanwhile s)

  -- An id that was not valid, the system's, or one of a response that is shut.
  abbrev pub Gone : ℤ → Speech A W → Speech A W → Type 0
  Gone n before s =
      (is_valid before.manager.sequences (some n) ≡ false) ⊎ ((n ≡ system_sequence_id) ⊎ Shut n s)

  finished-Gone :
      (n : ℤ) (before : Speech A W) (r : ActiveResponse) (s : Speech A W)
      → Gone n before s
      → Leaves (Gone n before) (finished r s)
  unfolding finished
  finished-Gone n before r s h =
      let keeps = mark_agent_response_finished-keeps (some r.sequence_id) s.manager in
      rw (keeps.0, keeps.1) h

  meanwhile-Gone :
      (ports : CancelPorts A W) (n : ℤ) (before s : Speech A W) (w : W)
      → Steady ports
      → Gone n before s
      → Gone n before (ports.meanwhile (with_world w s))
  unfolding with_world
  meanwhile-Gone ports n before s w steady (inl a) = inl a
  meanwhile-Gone ports n before s w steady (inr (inl b)) = inr (inl b)
  meanwhile-Gone ports n before s w steady (inr (inr h)) = inr (inr (steady n _ h))

  after_call-Gone :
      (ports : CancelPorts A W) (n : ℤ) (before : Speech A W) (c : Option Text × W)
      (next : Speech A W → Done (Speech A W)) (s : Speech A W)
      → Steady ports
      → Gone n before s
      → ((t : Speech A W) → Gone n before t → Leaves (Gone n before) (next t))
      → Leaves (Gone n before) (after_call ports c next s)
  unfolding after_call
  after_call-Gone ports n before (none, w) next s steady h k =
      k _ (meanwhile-Gone ports n before s w steady h)
  after_call-Gone ports n before (some e, w) next s steady h k =
      meanwhile-Gone ports n before s w steady h

  cancel_active-Gone :
      (ports : CancelPorts A W) (n : ℤ) (before : Speech A W) (reason : Text) (ids : List ℤ)
      (o : Option ActiveResponse) (s : Speech A W)
      → Steady ports
      → Gone n before s
      → Leaves (Gone n before) (cancel_active ports reason ids o s)
  unfolding cancel_active
  cancel_active-Gone ports n before reason ids none s steady h = h
  cancel_active-Gone ports n before reason ids (some r) s steady h =
      elim (Bool-cases (contains r.sequence_id ids)) [
        | inl e ↦ rw e (
            after_call-Gone ports n before _ _ s steady h (λ t k.
              after_call-Gone ports n before (ports.llm_cancel r.response_id t.manager.world)
                (finished r) t steady k (finished-Gone n before r)))
        | inr e ↦ rw e h
      ]

  shut_pending-blocks :
      (s : Speech A W) (n : ℤ)
      → n ≢ system_sequence_id
      → is_valid s.manager.sequences (some n) ≡ true
      → blocks (shut_pending s).manager.gate (some n) ≡ true
  unfolding shut_pending block_sequences
  shut_pending-blocks s n ne v = ground (
    arith,
    contains-union n (invalidate_pending s.manager.sequences).0 s.manager.gate.blocked_sequence_ids,
    (invalidate_pending_exact s.manager.sequences n).1,
    int_beq_iff n system_sequence_id,
  )

  shut_pending-only_system :
      (s : Speech A W) (n : ℤ)
      → is_valid (shut_pending s).manager.sequences (some n) ≡ (n == system_sequence_id)
  unfolding shut_pending
  shut_pending-only_system s n = (invalidate_pending_exact s.manager.sequences n).0

  purge_queues-Purged :
      (s : Speech A W)
      → WellFormed s.tts_request
      → WellFormed s.tts_audio
      → (n k : ℕ) × (r a : Queue (AgentPacket A)) × Purged s.manager.sequences s.tts_request n r
        × Purged s.manager.sequences s.tts_audio k a
        × (purge_queues s ≡ counted_queues s (some (n, r)) (some (k, a)))
  unfolding purge_queues
  purge_queues-Purged s wr wa =
      let (n, (r, (er, pr))) = purge_invalid_packets-Purged s.manager.sequences s.tts_request wr in
      let (k, (a, (ea, pa))) = purge_invalid_packets-Purged s.manager.sequences s.tts_audio wa in
      (n, k, r, a, pr, pa, rw (er, ea) refl)

  -- The state in which the providers are called first.
  purged_pending :
      (s : Speech A W)
      → WellFormed s.tts_request
      → WellFormed s.tts_audio
      → is_nil (invalidate_pending s.manager.sequences).0 ≡ false
      → (t : Speech A W) × (purge_queues (shut_pending s) ≡ some t)
        × (t.manager ≡ (shut_pending s).manager)
        × IsSilent s t
  purged_pending s wr wa e =
      let (n, k, r, a, pr, pa, q) =
        purge_queues-Purged (shut_pending s) (unfold shut_pending in wr)
          (unfold shut_pending in wa) in
      (
        record (shut_pending s) {
          tts_request = r;
          tts_audio = a;
          pending_tts_requests_purged = (shut_pending s).pending_tts_requests_purged + n;
          pending_tts_audio_purged = (shut_pending s).pending_tts_audio_purged + k;
        },
        q ∙ unfold counted_queues in refl,
        refl,
        record {
          only_system_valid = shut_pending-only_system s;
          earlier_blocked = shut_pending-blocks s;
          requests = rw e (n, unfold shut_pending in pr, unfold shut_pending in refl);
          audio = rw e (k, unfold shut_pending in pa, unfold shut_pending in refl);
        },
      )

  cancel_active-nil :
      (ports : CancelPorts A W) (reason : Text) (ids : List ℤ) (o : Option ActiveResponse)
      (s : Speech A W)
      → is_nil ids ≡ true
      → cancel_active ports reason ids o s ≡ done s
  unfolding cancel_active
  cancel_active-nil ports reason ids none s e = refl
  cancel_active-nil ports reason ids (some r) s e = rw (contains-nil r.sequence_id ids e) refl

  silent-Shut :
      (s t : Speech A W) (n : ℤ)
      → IsSilent s t
      → t.manager.sequences.current_sequence_id ≡ s.manager.sequences.current_sequence_id
      → Sequences.WellFormed s.manager.sequences
      → n ≢ system_sequence_id
      → is_valid s.manager.sequences (some n) ≡ true
      → Shut n t
  silent-Shut s t n h c w ne v = (
    (
      subst (λ k. Sequences.IssuedBy k n) (sym c) (w.valid_issued n (unfold is_valid in v)),
      h.only_system_valid n ∙ not-system n ne,
    ),
    h.earlier_blocked n ne v,
  )

  silent-Gone :
      (s t : Speech A W) (n : ℤ)
      → IsSilent s t
      → t.manager.sequences.current_sequence_id ≡ s.manager.sequences.current_sequence_id
      → Sequences.WellFormed s.manager.sequences
      → Gone n s t
  silent-Gone s t n h c w = elim (Bool-cases (is_valid s.manager.sequences (some n))) [
    | inr e ↦ inl e
    | inl e ↦ elim (Bool-cases (n == system_sequence_id)) [
      | inl q ↦ inr (inl (eq→≡ n system_sequence_id q))
      | inr q ↦ inr (inr (silent-Shut s t n h c w (unequal n q) e))
    ]
  ]

  shut_pending-current :
      (s : Speech A W)
      → (shut_pending s).manager.sequences.current_sequence_id
        ≡ s.manager.sequences.current_sequence_id
  unfolding shut_pending invalidate_pending
  shut_pending-current s = refl

  module _ (ports : CancelPorts A W) (reason : Text) (s : Speech A W) where
    abbrev pending : List ℤ
    pending = (invalidate_pending s.manager.sequences).0

    unpurged : Speech A W
    unpurged = record s {
      manager = record s.manager { sequences = (invalidate_pending s.manager.sequences).1 };
    }

    unpurged-current :
        unpurged.manager.sequences.current_sequence_id ≡ s.manager.sequences.current_sequence_id
    unfolding unpurged invalidate_pending
    unpurged-current = refl

    unpurged-IsSilent : is_nil pending ≡ true → IsSilent s unpurged
    unfolding unpurged
    unpurged-IsSilent e = record {
      only_system_valid = λ n. (invalidate_pending_exact s.manager.sequences n).0;
      earlier_blocked =
          λ n ne v. absurd (true-ne-false (sym v ∙ nothing-pending s.manager.sequences n e ne));
      requests = rw e (refl, refl);
      audio = rw e (refl, refl);
    }

    -- The part that runs at once, before the providers are called, makes the session silent: only the
    -- system's id is valid, every response that was valid is blocked at the gate, and, if there was
    -- one, both queues are purged of the packets that are not valid, which are counted; no queue
    -- raises, since both are well-formed. What is left to do are the calls of the providers. Whatever
    -- they do, whichever of them raises, and whatever the other tasks do meanwhile, if they bring no
    -- response back that was made, is not valid and is blocked: each response that was valid before,
    -- in a sequence manager whose valid ids are issued, is not valid and is blocked when the method
    -- returns or raises.
    pub cancel_pending-IsSilent :
        (n : ℤ)
        → WellFormed s.tts_request
        → WellFormed s.tts_audio
        → Sequences.WellFormed s.manager.sequences
        → Steady ports
        → (t : Speech A W) × IsSilent s t
          × (cancel_pending ports reason s
              ≡ cancel_active ports reason pending s.manager.active_response t)
          × Leaves (Gone n s) (cancel_pending ports reason s)
    unfolding cancel_pending
    cancel_pending-IsSilent n wr wa ws steady = elim (Bool-cases (is_nil pending)) [
      | inl e ↦
          let silent = unpurged-IsSilent e in
          (
            unpurged,
            silent,
            rw (e, cancel_active-nil ports reason pending s.manager.active_response unpurged e)
                (unfold unpurged in refl),
            rw e (unfold unpurged in silent-Gone s unpurged n silent unpurged-current ws),
          )
      | inr e ↦
          let (t, purged, mgr, silent) = purged_pending s wr wa e in
          let gone =
            silent-Gone s t n silent
              (ap (λ (m : Manager W). m.sequences.current_sequence_id) mgr ∙ shut_pending-current s)
              ws in
          (
            t,
            silent,
            rw (e, purged) refl,
            rw (e, purged)
                (cancel_active-Gone ports n s reason pending s.manager.active_response t steady
                  gone),
          )
    ]
