-- ===== src/Interruption/Sequences/Validity.antt =====
-- What holds of the ids over the life of a sequence manager.
use mathlib.Core.Path.{subst}
use voice_agent_v.Prelude.{
  ℕ, ℤ, pos, negsuc, ◌+◌, ◌≤◌, ◌<◌, ◌≡◌, refl, sym, ap, ◌∙◌, inl, inr, Bool, true, false, not, ◌&&◌,
  ◌||◌, Option, none, some, ◌==◌, int_eq, int_beq_iff, arith, Bool-cases,
}
use voice_agent_v.Prelude.Sets.{
  contains, insert, contains-select, contains-insert, contains-discard, contains-union,
}
use voice_agent_v.Interruption.Sequences.{
  system_sequence_id, SequenceManager, new, create_sequence, invalidate, invalidate_pending, retire,
}

-- An id that a counter at `k` has handed out, or the system's.
abbrev pub IssuedBy : ℕ → ℤ → Type 0
IssuedBy k (pos n) = (0 < n) × (n ≤ k)
IssuedBy k (negsuc n) = n ≡ 0

abbrev pub Issued : SequenceManager → ℤ → Type 0
Issued m = IssuedBy m.current_sequence_id

system_issued : (k : ℕ) (s : ℤ) → (s == system_sequence_id) ≡ true → IssuedBy k s
system_issued k (pos n) h = cc
system_issued k (negsuc n) h = ground arith

-- The system's id is valid, only issued ids are valid or invalidated, and none is both.
pub record WellFormed (m : SequenceManager) : Type 0 where
  pub system_valid : contains system_sequence_id m.valid_sequence_ids ≡ true
  pub valid_issued : (s : ℤ) → contains s m.valid_sequence_ids ≡ true → Issued m s
  pub invalidated_issued : (s : ℤ) → contains s m.invalidated_sequence_ids ≡ true → Issued m s
  pub disjoint :
      (s : ℤ)
      → contains s m.valid_sequence_ids ≡ true
      → contains s m.invalidated_sequence_ids ≡ false

-- The calls that the program makes on a sequence manager. It invalidates only ids that were issued.
pub data Op (m : SequenceManager) : Type 0 where
  create : Op m
  drop : (s : ℤ) → Issued m s → Op m
  drop_all : Op m
  finish : Option ℤ → Op m

unfoldable pub apply : (m : SequenceManager) → Op m → SequenceManager
unfolding create_sequence invalidate invalidate_pending retire
apply m create = (create_sequence m).1
apply m (drop s h) = (invalidate m s).1
apply m drop_all = (invalidate_pending m).1
apply m (finish s) = (retire m s).1

pub new-WellFormed : WellFormed new
unfolding new
new-WellFormed = record {
  system_valid = refl;
  valid_issued = λ s h. ground arith;
  invalidated_issued = λ s h. cc;
  disjoint = λ s h. refl;
}

module _ (m : SequenceManager) (w : WellFormed m) where
  pub create-WellFormed : WellFormed (create_sequence m).1
  unfolding create_sequence
  create-WellFormed = record {
    system_valid =
        ground
          (arith, w.system_valid, contains-insert system_sequence_id new_id m.valid_sequence_ids);
    valid_issued = valid_issued;
    invalidated_issued = invalidated_issued;
    disjoint = disjoint;
  }
    where
      new_id : ℤ
      new_id = pos (m.current_sequence_id + 1)

      valid_issued :
          (s : ℤ)
          → contains s (insert new_id m.valid_sequence_ids) ≡ true
          → Issued (create_sequence m).1 s
      valid_issued (pos n) h =
          ground
            (arith, w.valid_issued (pos n), contains-insert (pos n) new_id m.valid_sequence_ids)
      valid_issued (negsuc n) h =
          ground (
            arith,
            w.valid_issued (negsuc n),
            contains-insert (negsuc n) new_id m.valid_sequence_ids,
          )

      invalidated_issued :
          (s : ℤ) → contains s m.invalidated_sequence_ids ≡ true → Issued (create_sequence m).1 s
      invalidated_issued (pos n) h = ground (arith, w.invalidated_issued (pos n))
      invalidated_issued (negsuc n) h = w.invalidated_issued (negsuc n) h

      disjoint :
          (s : ℤ)
          → contains s (insert new_id m.valid_sequence_ids) ≡ true
          → contains s m.invalidated_sequence_ids ≡ false
      disjoint (pos n) h = ground (
        arith,
        w.disjoint (pos n),
        w.invalidated_issued (pos n),
        contains-insert (pos n) new_id m.valid_sequence_ids,
      )
      disjoint (negsuc n) h =
          ground
            (arith, w.disjoint (negsuc n), contains-insert (negsuc n) new_id m.valid_sequence_ids)

  invalidate-WellFormed : (s : ℤ) → Issued m s → WellFormed (invalidate m s).1
  unfolding invalidate
  invalidate-WellFormed s i = elim (Bool-cases (s == system_sequence_id)) [
    | inl e ↦ rw e w
    | inr e ↦ rw e (record {
      system_valid = ground (
        arith,
        w.system_valid,
        contains-discard system_sequence_id s m.valid_sequence_ids,
        int_beq_iff s system_sequence_id,
        int_beq_iff system_sequence_id s,
      );
      valid_issued =
          λ t h. w.valid_issued t (ground (arith, contains-discard t s m.valid_sequence_ids));
      invalidated_issued = λ t h. elim (Bool-cases (t == s)) [
        | inl same ↦ subst (Issued m) (sym ((int_beq_iff t s).0 same)) i
        | inr other ↦
            w.invalidated_issued t (ground (arith, contains-insert t s m.invalidated_sequence_ids))
      ];
      disjoint = λ t h. ground (
        arith,
        w.disjoint t,
        contains-discard t s m.valid_sequence_ids,
        contains-insert t s m.invalidated_sequence_ids,
      );
    })
  ]

  pub in_union :
      (s : ℤ)
      → contains s (invalidate_pending m).1.invalidated_sequence_ids ≡ (
          (not (s == system_sequence_id) && contains s m.valid_sequence_ids)
          || contains s m.invalidated_sequence_ids)
  unfolding invalidate_pending
  in_union s =
      contains-union s (invalidate_pending m).0 m.invalidated_sequence_ids
      ∙ ap (λ (b : Bool). b || contains s m.invalidated_sequence_ids)
          (contains-select (λ t. not (t == system_sequence_id)) s m.valid_sequence_ids)

  pub invalidate_pending-WellFormed : WellFormed (invalidate_pending m).1
  unfolding invalidate_pending
  invalidate_pending-WellFormed = record {
    system_valid = refl;
    valid_issued = λ s h. system_issued m.current_sequence_id s (ground arith);
    invalidated_issued = λ s h. elim (Bool-cases (contains s m.valid_sequence_ids)) [
      | inl e ↦ w.valid_issued s e
      | inr e ↦ w.invalidated_issued s (ground (arith, in_union s))
    ];
    disjoint = λ s h. ground (
      arith,
      in_union s,
      int_beq_iff s system_sequence_id,
      w.disjoint system_sequence_id,
      w.system_valid,
    );
  }

  retire-WellFormed : (s : Option ℤ) → WellFormed (retire m s).1
  unfolding retire
  retire-WellFormed none = w
  retire-WellFormed (some s) = elim (Bool-cases (s == system_sequence_id)) [
    | inl e ↦ rw e w
    | inr e ↦ rw e (record {
      system_valid = ground (
        arith,
        w.system_valid,
        contains-discard system_sequence_id s m.valid_sequence_ids,
        int_beq_iff s system_sequence_id,
        int_beq_iff system_sequence_id s,
      );
      valid_issued =
          λ t h. w.valid_issued t (ground (arith, contains-discard t s m.valid_sequence_ids));
      invalidated_issued = w.invalidated_issued;
      disjoint = λ t h. w.disjoint t (ground (arith, contains-discard t s m.valid_sequence_ids));
    })
  ]

-- Every call keeps the manager well-formed: the system's id is valid, only issued ids are valid or
-- invalidated, and none is both.
pub apply-WellFormed : (m : SequenceManager) (o : Op m) → WellFormed m → WellFormed (apply m o)
unfolding apply
apply-WellFormed m create w = create-WellFormed m w
apply-WellFormed m (drop s i) w = invalidate-WellFormed m w s i
apply-WellFormed m drop_all w = invalidate_pending-WellFormed m w
apply-WellFormed m (finish s) w = retire-WellFormed m w s

-- A run of the manager: any calls, one after the other.
pub data Run (m : SequenceManager) : SequenceManager → Type 0 where
  here : Run m m
  next : {k : SequenceManager} → Run m k → (o : Op k) → Run m (apply k o)

pub Run-WellFormed : {m k : SequenceManager} → WellFormed m → Run m k → WellFormed k
Run-WellFormed w here = w
Run-WellFormed w (next r o) = apply-WellFormed _ o (Run-WellFormed w r)
