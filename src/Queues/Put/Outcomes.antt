-- ===== src/Queues/Put/Outcomes.antt =====
-- What `put_packet` does under each policy.
use voice_agent_v.Prelude.{
  ℕ, zero, suc, ◌≡◌, refl, ap, inl, inr, true, false, ◌&&◌, Option, none, some, List, [], ◌∷◌, ◌++◌,
  arith, length-append, drop, nat_eq, if◌then◌else◌, Bool-cases,
}
use voice_agent_v.Queues.Queue.{Queue, full, put_nowait, get_nowait, task_done, WellFormed}
use voice_agent_v.Queues.Put.{
  BackpressurePolicy, block, drop_oldest, drop_stale_sequence, drop_metrics, PutResult, accepted,
  refused, waiting, raised, drops_oldest, or_wait, or_refuse, try_put, make_room, put_into,
  put_packet,
}

module _ {A : Type 0} where
  -- What a policy allows a call to end in.
  unfoldable pub Allowed : BackpressurePolicy → Queue A → A → PutResult A → Type 0
  Allowed policy q p (accepted q') =
      WellFormed q'
      × (q'.maxsize ≡ q.maxsize)
      × (q'.items ≡ drop (if full q && drops_oldest policy then 1 else 0) q.items ++ p ∷ [])
  Allowed policy q p (refused q') = (q' ≡ q) × (full q ≡ true) × (policy ≡ drop_metrics)
  Allowed policy q p waiting = (full q ≡ true) × (policy ≡ block)
  Allowed policy q p raised = ⊥

  appended : A → Queue A → Queue A
  appended p q = record q { items = q.items ++ p ∷ []; unfinished_tasks = suc q.unfinished_tasks }

  appended-WellFormed :
      (p : A) (q : Queue A) → WellFormed q → full q ≡ false → WellFormed (appended p q)
  unfolding full appended
  appended-WellFormed p q w f = record {
    bounded = λ n. ground (arith, w.bounded n, length-append q.items (p ∷ []));
    pending = ground (arith, w.pending, length-append q.items (p ∷ []));
  }

  put_nowait-some : (p : A) (q : Queue A) → full q ≡ false → put_nowait p q ≡ some (appended p q)
  unfolding put_nowait appended
  put_nowait-some p q f = rw f refl

  put_nowait-none : (p : A) (q : Queue A) → full q ≡ true → put_nowait p q ≡ none
  unfolding put_nowait
  put_nowait-none p q f = rw f refl

  abbrev queue : ℕ → List A → ℕ → Queue A
  queue m items u = record { maxsize = m; items = items; unfinished_tasks = u }

  Room : Queue A → Option (Queue A) → Type 0
  Room q r =
      (q' : Queue A) × (r ≡ some q')
      × WellFormed q'
      × (full q' ≡ false)
      × (q'.maxsize ≡ q.maxsize)
      × (q'.items ≡ drop 1 q.items)

  make_room-queue :
      (m : ℕ) (xs : List A) (u : ℕ)
      → WellFormed (queue m xs u)
      → full (queue m xs u) ≡ true
      → Room (queue m xs u) (make_room (queue m xs u))
  unfolding Room make_room get_nowait task_done full
  make_room-queue m [] u w f = absurd (ground arith)
  make_room-queue m (a ∷ xs) zero w f = absurd (ground (arith, w.pending))
  make_room-queue m (a ∷ xs) (suc u) w f = (
    queue m xs u,
    refl,
    record { bounded = λ n. ground (arith, w.bounded n); pending = ground (arith, w.pending) },
    ground (arith, w.bounded),
    refl,
    refl,
  )

  make_room-Room : (q : Queue A) → WellFormed q → full q ≡ true → Room q (make_room q)
  make_room-Room q w f = make_room-queue q.maxsize q.items q.unfinished_tasks w f

  try_put-some : (p : A) (q : Queue A) → full q ≡ false → try_put p q ≡ accepted (appended p q)
  try_put-some p q f = ap (or_refuse q) (put_nowait-some p q f)

  put_packet-free :
      (policy : BackpressurePolicy) (q : Queue A) (p : A)
      → full q ≡ false
      → put_packet q p policy ≡ accepted (appended p q)
  unfolding put_packet
  put_packet-free block q p f = ap or_wait (put_nowait-some p q f)
  put_packet-free drop_metrics q p f = rw f (try_put-some p q f)
  put_packet-free drop_oldest q p f = rw f (try_put-some p q f)
  put_packet-free drop_stale_sequence q p f = rw f (try_put-some p q f)

  put_packet-block : (q : Queue A) (p : A) → full q ≡ true → put_packet q p block ≡ waiting
  unfolding put_packet
  put_packet-block q p f = ap or_wait (put_nowait-none p q f)

  put_packet-drop_metrics :
      (q : Queue A) (p : A) → full q ≡ true → put_packet q p drop_metrics ≡ refused q
  unfolding put_packet
  put_packet-drop_metrics q p f = rw f refl

  put_packet-room :
      (policy : BackpressurePolicy) (q : Queue A) (p : A)
      → full q ≡ true
      → drops_oldest policy ≡ true
      → put_packet q p policy ≡ put_into p (make_room q)
  unfolding put_packet
  put_packet-room block q p f d = cc
  put_packet-room drop_metrics q p f d = cc
  put_packet-room drop_oldest q p f d = rw f refl
  put_packet-room drop_stale_sequence q p f d = rw f refl

  put_into-Allowed :
      (policy : BackpressurePolicy) (q : Queue A) (p : A) (r : Option (Queue A))
      → full q ≡ true
      → drops_oldest policy ≡ true
      → Room q r
      → Allowed policy q p (put_into p r)
  unfolding Allowed Room appended
  put_into-Allowed policy q p r f d (q', e, w', f', m, i) =
      rw (e, try_put-some p q' f', Allowed) (appended-WellFormed p q' w' f', m, simp (f, d, i))

  full-Allowed :
      (policy : BackpressurePolicy) (q : Queue A) (p : A)
      → WellFormed q
      → full q ≡ true
      → Allowed policy q p (put_packet q p policy)
  full-Allowed block q p w f = rw (put_packet-block q p f) (unfold Allowed in (f, refl))
  full-Allowed drop_metrics q p w f =
      rw (put_packet-drop_metrics q p f) (unfold Allowed in (refl, f, refl))
  full-Allowed drop_oldest q p w f =
      rw (put_packet-room drop_oldest q p f refl)
        (put_into-Allowed drop_oldest q p (make_room q) f refl (make_room-Room q w f))
  full-Allowed drop_stale_sequence q p w f =
      rw (put_packet-room drop_stale_sequence q p f refl)
        (put_into-Allowed drop_stale_sequence q p (make_room q) f refl (make_room-Room q w f))

  -- Putting a packet into a well-formed queue, under any policy: an accepted packet stands last in a
  -- well-formed queue of the same size, behind the packets that stood there in their order, of which
  -- the oldest is lost only where the queue was full and the policy drops it; a packet is refused only
  -- by a full queue under the policy for metrics, which leaves the queue as it is; the call waits only
  -- at a full queue under the blocking policy; and it does not raise.
  pub put_packet-Allowed :
      (policy : BackpressurePolicy) (q : Queue A) (p : A)
      → WellFormed q
      → Allowed policy q p (put_packet q p policy)
  unfolding appended
  put_packet-Allowed policy q p w = elim (Bool-cases (full q)) [
    | inl f ↦ full-Allowed policy q p w f
    | inr f ↦
        rw (put_packet-free policy q p f)
          (unfold Allowed in (appended-WellFormed p q w f, refl, rw f refl))
  ]
