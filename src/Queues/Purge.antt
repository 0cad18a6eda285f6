-- ===== src/Queues/Purge.antt =====
-- core/session_orchestrator.py: `_purge_invalid_packets`, which takes the packets of cancelled
-- responses out of a queue. The log and the latency counter that it also writes are left out.
use voice_agent_v.Prelude.{
  ℕ, zero, suc, ◌+◌, ◌-◌, ◌≤◌, ◌≡◌, ◌≢◌, refl, sym, ap, ◌∙◌, inl, inr, Bool, true, false, ◌||◌,
  Option, none, some, List, [], ◌∷◌, ◌++◌, arith, append-nil, append_assoc, length, length-append,
  leb, ◌==◌, nat_eq, select, not, Bool-cases,
}
use voice_agent_v.Interruption.Sequences.{SequenceManager, is_valid}
use voice_agent_v.Queues.Packet.{AgentPacket}
use voice_agent_v.Queues.Queue.{Queue, full, put_nowait, get_nowait, task_done, WellFormed}

-- What the first loop has gathered: the packets to put back, and the number of those dropped.
abbrev pub Drained : Type 0 → Type 0
Drained A = List (AgentPacket A) × ℕ

module _ {A : Type 0} where
  -- A packet that stays.
  abbrev pub retains : SequenceManager → AgentPacket A → Bool
  retains m p = p.eos || is_valid m p.sequence_id

  abbrev pub gather :
      Bool
      → AgentPacket A
      → Option (Drained A × Queue (AgentPacket A))
      → Option (Drained A × Queue (AgentPacket A))
  gather _ p none = none
  gather true p (some ((retained, dropped), q)) = some ((p ∷ retained, dropped), q)
  gather false p (some ((retained, dropped), q)) = some ((retained, suc dropped), q)

  -- The first loop, with fuel for one packet more than the queue holds; `none` for an exception.
  unfoldable pub drain :
      ℕ → SequenceManager → Queue (AgentPacket A) → Option (Drained A × Queue (AgentPacket A))
  drain zero m q = none
  drain (suc fuel) m q = elim (get_nowait q) [
    | none ↦ some (([], 0), q)
    | some (p, q') ↦ elim (task_done q') [
      | none ↦ none
      | some q'' ↦ gather (retains m p) p (drain fuel m q'')
    ]
  ]

  abbrev pub put_back :
      List (AgentPacket A) → Option (Queue (AgentPacket A)) → Option (Queue (AgentPacket A))
  put_back [] q = q
  put_back (p ∷ ps) none = none
  put_back (p ∷ ps) (some q) = put_back ps (put_nowait p q)

  abbrev pub counted : ℕ → Option (Queue (AgentPacket A)) → Option (ℕ × Queue (AgentPacket A))
  counted n none = none
  counted n (some q) = some (n, q)

  abbrev pub refill :
      Option (Drained A × Queue (AgentPacket A)) → Option (ℕ × Queue (AgentPacket A))
  refill none = none
  refill (some ((retained, dropped), q)) = counted dropped (put_back retained (some q))

  unfoldable pub purge_invalid_packets :
      SequenceManager → Queue (AgentPacket A) → Option (ℕ × Queue (AgentPacket A))
  purge_invalid_packets m q = refill (drain (suc (length q.items)) m q)

  abbrev queue : ℕ → List (AgentPacket A) → ℕ → Queue (AgentPacket A)
  queue n items u = record { maxsize = n; items = items; unfinished_tasks = u }

  abbrev outdated : SequenceManager → List (AgentPacket A) → List (AgentPacket A)
  outdated m ps = select (λ p. not (retains m p)) ps

  emptied :
      {n u v : ℕ} (d : Drained A)
      → u ≡ v
      → Path
          (Option (Drained A × Queue (AgentPacket A)))
          (some (d, queue n [] u))
          (some (d, queue n [] v))
  emptied d e = rw e refl

  refilled :
      {n : ℕ} {xs ys : List (AgentPacket A)} {u v : ℕ}
      → xs ≡ ys
      → u ≡ v
      → some (queue n xs u) ≡ some (queue n ys v)
  refilled i e = rw (i, e) refl

  drain_all :
      (m : SequenceManager) (n : ℕ) (items : List (AgentPacket A)) (u : ℕ)
      → length items ≤ u
      → drain (suc (length items)) m (queue n items u)
        ≡ some
            ((select (retains m) items, length (outdated m items)), queue n [] (u - length items))
  unfolding drain get_nowait task_done
  drain_all m n [] u h = emptied _ (omega arith)
  drain_all m n (p ∷ ps) zero h = absurd (ground (arith, h))
  drain_all m n (p ∷ ps) (suc u) h = elim (Bool-cases (retains m p)) [
    | inl e ↦ rw (drain_all m n ps u (omega (arith, h))) (rw e (emptied _ (omega arith)))
    | inr e ↦ rw (drain_all m n ps u (omega (arith, h))) (rw e (emptied _ (omega arith)))
  ]

  put_nowait-free :
      (p : AgentPacket A) (n : ℕ) (xs : List (AgentPacket A)) (u : ℕ)
      → (n ≢ 0 → suc (length xs) ≤ n)
      → put_nowait p (queue n xs u) ≡ some (queue n (xs ++ p ∷ []) (suc u))
  unfolding put_nowait full
  put_nowait-free p n xs u h = elim (Bool-cases (n == 0)) [
    | inl z ↦ rw z refl
    | inr z ↦ let k : leb n (length xs) ≡ false = ground (arith, h) in rw (z, k) refl
  ]

  put_back_all :
      (ps : List (AgentPacket A)) (n : ℕ) (xs : List (AgentPacket A)) (u : ℕ)
      → (n ≢ 0 → length xs + length ps ≤ n)
      → put_back ps (some (queue n xs u)) ≡ some (queue n (xs ++ ps) (length ps + u))
  put_back_all [] n xs u h = refilled (sym (append-nil xs)) (omega arith)
  put_back_all (p ∷ ps) n xs u h =
      ap (put_back ps) (put_nowait-free p n xs u (λ z. omega (arith, h z)))
      ∙ put_back_all ps n (xs ++ p ∷ []) (suc u)
          (λ z. omega (arith, h z, length-append xs (p ∷ [])))
      ∙ refilled (append_assoc xs (p ∷ []) ps) (omega arith)

  kept_lost :
      (m : SequenceManager) (ps : List (AgentPacket A))
      → length (outdated m ps) + length (select (retains m) ps) ≡ length ps
  kept_lost m [] = omega arith
  kept_lost m (p ∷ ps) = elim (Bool-cases (retains m p)) [
    | inl e ↦ rw e (omega (arith, kept_lost m ps))
    | inr e ↦ rw e (omega (arith, kept_lost m ps))
  ]

  -- What a purge does: it keeps the packets that end a task or belong to a valid response, in their order, it
  -- gives the number of the others, and each of the others is a finished task.
  pub record Purged (m : SequenceManager) (q : Queue (AgentPacket A)) (dropped : ℕ)
      (q' : Queue (AgentPacket A)) : Type 0 where
    pub kept : q'.items ≡ select (retains m) q.items
    pub count : dropped + length q'.items ≡ length q.items
    pub finished : dropped + q'.unfinished_tasks ≡ q.unfinished_tasks
    pub well : WellFormed q'
    pub same_size : q'.maxsize ≡ q.maxsize

  purge_all :
      (m : SequenceManager) (n : ℕ) (items : List (AgentPacket A)) (u : ℕ)
      → WellFormed (queue n items u)
      → purge_invalid_packets m (queue n items u)
        ≡ some (
          length (outdated m items),
          queue n
              (select (retains m) items)
              (length (select (retains m) items) + (u - length items)),
        )
  unfolding purge_invalid_packets
  purge_all m n items u w =
      ap refill (drain_all m n items u w.pending)
      ∙ ap (counted (length (outdated m items))) (
          put_back_all (select (retains m) items) n [] (u - length items)
            (λ z. omega (arith, w.bounded z, kept_lost m items)))

  -- For a well-formed queue, the purge does not raise, and it does what `Purged` says: the packets that end a task or
  -- belong to a valid response stay in their order, the others are counted and marked as done, and the queue
  -- is well formed and of the same size.
  pub purge_invalid_packets-Purged :
      (m : SequenceManager) (q : Queue (AgentPacket A))
      → WellFormed q
      → (dropped : ℕ) × ((q' : Queue (AgentPacket A)) × ((purge_invalid_packets m q
              ≡ some (dropped, q'))
            × Purged m q dropped q'))
  purge_invalid_packets-Purged m q w = (
    length (outdated m q.items),
    (
      queue q.maxsize (select (retains m) q.items)
          (length (select (retains m) q.items) + (q.unfinished_tasks - length q.items)),
      (
        purge_all m q.maxsize q.items q.unfinished_tasks w,
        record {
          kept = refl;
          count = kept_lost m q.items;
          finished = omega (arith, kept_lost m q.items, w.pending);
          well = record {
            bounded = λ z. omega (arith, w.bounded z, kept_lost m q.items);
            pending = omega arith;
          };
          same_size = refl;
        },
      ),
    ),
  )
