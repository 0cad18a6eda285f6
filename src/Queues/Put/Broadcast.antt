-- ===== src/Queues/Put/Broadcast.antt =====
-- core/queues/queue_manager.py: the queues after broadcast_eos.
use voice_agent_v.Prelude.{
  ℕ, ◌≡◌, refl, ap, ◌∙◌, inl, inr, some, List, [], ◌∷◌, ◌++◌, arith, drop, All, if◌then◌else◌,
  Bool-cases,
}
use voice_agent_v.Text.{Text}
use voice_agent_v.Queues.Packet.{AgentPacket, eos_packet}
use voice_agent_v.Queues.Queue.{Queue, empty, full, WellFormed}
use voice_agent_v.Queues.Session.{QueueSizes, all_queues, create_session_queues}
use voice_agent_v.Queues.Put.{
  drop_oldest, PutResult, accepted, refused, waiting, raised, left, and_then, broadcast_eos,
}
use voice_agent_v.Queues.Put.Outcomes.{Allowed, put_packet-Allowed}

-- A well-formed queue of the same size, in which a packet stands behind the packets of before, of which only
-- the oldest of a full queue is lost.
abbrev pub Ends : {A : Type 0} → A → Queue A → Queue A → Type 0
Ends p q q' =
    WellFormed q'
    × (q'.maxsize ≡ q.maxsize)
    × (q'.items ≡ drop (if full q then 1 else 0) q.items ++ p ∷ [])

-- The same of the queues of two lists, one by one.
abbrev pub EndAll : {A : Type 0} → A → List (Queue A) → List (Queue A) → Type 0
EndAll p [] [] = Unit
EndAll p (q ∷ qs) (q' ∷ qs') = Ends p q q' × EndAll p qs qs'
EndAll p _ _ = ⊥

module _ {A : Type 0} where
  left-Ends :
      (p : AgentPacket A) (q : Queue (AgentPacket A)) (r : PutResult (AgentPacket A))
      → Allowed drop_oldest q p r
      → (q' : Queue (AgentPacket A)) × (left q r ≡ some q') × Ends p q q'
  unfolding Allowed
  left-Ends p q (accepted q') (w, m, i) = elim (Bool-cases (full q)) [
    | inl f ↦ (q', refl, (w, m, rw f (simp f at i)))
    | inr f ↦ (q', refl, (w, m, rw f (simp f at i)))
  ]
  left-Ends p q (refused q') h = cc
  left-Ends p q waiting h = cc
  left-Ends p q raised h = absurd h

  -- For well-formed queues, the broadcast of the end of a call does not raise, and it leaves each of them
  -- well formed, of the same size, and with the end packet behind the packets of before, of which only the oldest
  -- one of a full queue is lost.
  pub broadcast_eos-EndAll :
      (now : ℕ) (qs : List (Queue (AgentPacket A))) (call : Text)
      → All WellFormed qs
      → (qs' : List (Queue (AgentPacket A))) × (broadcast_eos now qs call ≡ some qs')
        × EndAll (eos_packet now call) qs qs'
  unfolding broadcast_eos
  broadcast_eos-EndAll now [] call w = ([], refl, tt)
  broadcast_eos-EndAll now (q ∷ qs) call (w, ws) =
      let (q', e, h) =
        left-Ends (eos_packet now call) q _
          (put_packet-Allowed drop_oldest q (eos_packet now call) w) in
      let (qs', es, hs) = broadcast_eos-EndAll now qs call ws in
      (
        q' ∷ qs',
        ap (λ r. and_then r (broadcast_eos now qs call)) e ∙ ap (and_then (some q')) es,
        (h, hs),
      )

module _ (A : Type 0) where
  empty-WellFormed : (n : ℕ) → WellFormed (empty {A = AgentPacket A} n)
  unfolding empty
  empty-WellFormed n = record { bounded = λ _. ground arith; pending = ground arith }

  -- The queues of a new call are well formed.
  pub create_session_queues-WellFormed :
      (sizes : QueueSizes) → All WellFormed (all_queues (create_session_queues {A = A} sizes))
  unfolding all_queues create_session_queues
  create_session_queues-WellFormed sizes = (
    empty-WellFormed _,
    (
      empty-WellFormed _,
      (
        empty-WellFormed _,
        (
          empty-WellFormed _,
          (
            empty-WellFormed _,
            (
              empty-WellFormed _,
              (
                empty-WellFormed _,
                (
                  empty-WellFormed _,
                  (
                    empty-WellFormed _,
                    (
                      empty-WellFormed _,
                      (
                        empty-WellFormed _,
                        (
                          empty-WellFormed _,
                          (
                            empty-WellFormed _,
                            (
                              empty-WellFormed _,
                              (empty-WellFormed _, (empty-WellFormed _, (empty-WellFormed _, tt))),
                            ),
                          ),
                        ),
                      ),
                    ),
                  ),
                ),
              ),
            ),
          ),
        ),
      ),
    ),
  )
