-- ===== src/Interruption/Sequences/Staleness.antt =====
-- core/interruption/sequence_manager.py: the ids that have been issued and are not valid.
use voice_agent_v.Prelude.{
  ℤ, pos, negsuc, ◌+◌, ◌≡◌, inl, inr, false, not, ◌&&◌, ◌||◌, Option, none, some, ◌==◌, int_eq,
  int_beq_iff, arith, Bool-cases,
}
use voice_agent_v.Prelude.Sets.{
  contains, contains-insert, contains-discard, contains-select, discard,
}
use voice_agent_v.Interruption.Sequences.{
  system_sequence_id, SequenceManager, create_sequence, is_valid, invalidate, invalidate_pending,
  retire,
}
use voice_agent_v.Interruption.Sequences.Validity.{
  Issued, WellFormed, Op, create, drop, drop_all, finish, apply, Run, here, next, Run-WellFormed,
}

-- Issued, and not valid.
abbrev pub Stale : SequenceManager → ℤ → Type 0
Stale m s = Issued m s × (is_valid m (some s) ≡ false)

pub create-Stale : (m : SequenceManager) (s : ℤ) → Stale m s → Stale (create_sequence m).1 s
unfolding create_sequence is_valid
create-Stale m (pos n) h =
    ground (arith, contains-insert (pos n) (pos (m.current_sequence_id + 1)) m.valid_sequence_ids)
create-Stale m (negsuc n) h =
    ground
      (arith, contains-insert (negsuc n) (pos (m.current_sequence_id + 1)) m.valid_sequence_ids)

module _ (m : SequenceManager) (s : ℤ) (w : WellFormed m) (h : Stale m s) where
  discard-Stale : (t : ℤ) → contains s (discard t m.valid_sequence_ids) ≡ false
  unfolding is_valid
  discard-Stale t = ground (arith, contains-discard s t m.valid_sequence_ids)

  invalidate-Stale : (t : ℤ) → Stale (invalidate m t).1 s
  unfolding invalidate is_valid
  invalidate-Stale t = elim (Bool-cases (t == system_sequence_id)) [
    | inl e ↦ rw e h
    | inr e ↦ rw e (h.0, discard-Stale t)
  ]

  retire-Stale : (t : Option ℤ) → Stale (retire m t).1 s
  unfolding retire is_valid
  retire-Stale none = h
  retire-Stale (some t) = elim (Bool-cases (t == system_sequence_id)) [
    | inl e ↦ rw e h
    | inr e ↦ rw e (h.0, discard-Stale t)
  ]

  invalidate_pending-Stale : Stale (invalidate_pending m).1 s
  unfolding invalidate_pending is_valid
  invalidate_pending-Stale = (h.0, ground (arith, w.system_valid, int_beq_iff s system_sequence_id))

  step-Stale : (o : Op m) → Stale (apply m o) s
  unfolding apply
  step-Stale create = create-Stale m s h
  step-Stale (drop t j) = invalidate-Stale t
  step-Stale drop_all = invalidate_pending-Stale
  step-Stale (finish t) = retire-Stale t

-- In a well-formed manager, an issued id that is not valid stays so over every run of calls.
pub Run-Stale : (m k : SequenceManager) (s : ℤ) → WellFormed m → Stale m s → Run m k → Stale k s
Run-Stale m _ s w h here = h
Run-Stale m _ s w h (next r o) = step-Stale _ s (Run-WellFormed w r) (Run-Stale m _ s w h r) o

-- In a well-formed manager `create_sequence` hands out an id that was neither valid nor invalidated
-- before, and afterwards an id is valid exactly if it is that one or was valid before.
pub create_sequence_fresh :
    (m : SequenceManager) (t : ℤ)
    → WellFormed m
    → let (s, m') = create_sequence m in
      (is_valid m (some s) ≡ false)
      × (contains s m.invalidated_sequence_ids ≡ false)
      × (is_valid m' (some t) ≡ (t == s || is_valid m (some t)))
unfolding create_sequence is_valid
create_sequence_fresh m t w =
    let s : ℤ = pos (m.current_sequence_id + 1) in
    (
      ground (arith, w.valid_issued s),
      ground (arith, w.invalidated_issued s),
      contains-insert t s m.valid_sequence_ids,
    )

-- After `invalidate_pending` exactly the system's id is valid, and the ids that it returns are
-- exactly those that were valid before, without the system's.
pub invalidate_pending_exact :
    (m : SequenceManager) (s : ℤ)
    → let (dropped, m') = invalidate_pending m in
      (is_valid m' (some s) ≡ (s == system_sequence_id))
      × (contains s dropped ≡ (not (s == system_sequence_id) && is_valid m (some s)))
unfolding invalidate_pending is_valid
invalidate_pending_exact m s =
    (ground arith, contains-select (λ t. not (t == system_sequence_id)) s m.valid_sequence_ids)
