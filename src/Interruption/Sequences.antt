-- ===== src/Interruption/Sequences.antt =====
-- core/interruption/sequence_manager.py: which assistant responses may still be played.
pub mod Validity
pub mod Staleness
use voice_agent_v.Prelude.{
  ℕ, ℤ, pos, negsuc, suc, ◌+◌, Bool, true, false, not, ◌&&◌, Option, none, some, List, [], ◌∷◌,
  ◌==◌, int_eq, select, if◌then◌else◌,
}
use voice_agent_v.Prelude.Sets.{contains, insert, discard, union}

abbrev pub system_sequence_id : ℤ
system_sequence_id = negsuc 0

-- The counter starts at 0 and only grows, so it is a number; ids are integers.
pub record SequenceManager : Type 0 where
  pub current_sequence_id : ℕ
  pub valid_sequence_ids : List ℤ
  pub invalidated_sequence_ids : List ℤ

unfoldable pub new : SequenceManager
new = record {
  current_sequence_id = 0;
  valid_sequence_ids = system_sequence_id ∷ [];
  invalidated_sequence_ids = [];
}

unfoldable pub create_sequence : SequenceManager → ℤ × SequenceManager
create_sequence m =
    let n = m.current_sequence_id + 1 in
    (
      pos n,
      record m {
        current_sequence_id = n;
        valid_sequence_ids = insert (pos n) m.valid_sequence_ids;
      },
    )

unfoldable pub is_valid : SequenceManager → Option ℤ → Bool
is_valid m none = false
is_valid m (some s) = contains s m.valid_sequence_ids

unfoldable pub invalidate : SequenceManager → ℤ → Bool × SequenceManager
invalidate m s = if s == system_sequence_id then (false, m) else (
  contains s m.valid_sequence_ids,
  record m {
    valid_sequence_ids = discard s m.valid_sequence_ids;
    invalidated_sequence_ids = insert s m.invalidated_sequence_ids;
  },
)

unfoldable pub invalidate_pending : SequenceManager → List ℤ × SequenceManager
invalidate_pending m =
    let invalidated = select (λ s. not (s == system_sequence_id)) m.valid_sequence_ids in
    (
      invalidated,
      record m {
        valid_sequence_ids = system_sequence_id ∷ [];
        invalidated_sequence_ids = union invalidated m.invalidated_sequence_ids;
      },
    )

unfoldable pub retire : SequenceManager → Option ℤ → Bool × SequenceManager
retire m none = (false, m)
retire m (some s) = if s == system_sequence_id then (false, m) else (
  contains s m.valid_sequence_ids,
  record m { valid_sequence_ids = discard s m.valid_sequence_ids },
)
