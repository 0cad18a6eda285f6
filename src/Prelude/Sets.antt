-- ===== src/Prelude/Sets.antt =====
-- Python's `set` as a list in which an element stands once.
use mathlib.Core.Path.{◌≡◌, refl}
use mathlib.Core.Bool.{Bool, false, ◌||◌, ◌&&◌, not}
use mathlib.Core.List.{List, [], ◌∷◌}
use native.Mathlib.Omega.{arith}
use voice_agent_v.Prelude.Tests.{if◌then◌else◌}
use voice_agent_v.Prelude.Lists.{select}
use voice_agent_v.Prelude.Equality.{Eq, ◌==◌}

module _ {ℓ} {A : Type ℓ} ⦃e : Eq A⦄ where
  abbrev pub contains : A → List A → Bool
  contains a [] = false
  contains a (x ∷ xs) = a == x || contains a xs

  -- s.add(a)
  unfoldable pub insert : A → List A → List A
  insert a xs = if contains a xs then xs else a ∷ xs

  -- s.discard(a)
  unfoldable pub discard : A → List A → List A
  discard a xs = select (λ x. not (x == a)) xs

  -- s.update(t)
  unfoldable pub union : List A → List A → List A
  union [] ys = ys
  union (x ∷ xs) ys = insert x (union xs ys)

  pub contains-select :
      (p : A → Bool) (a : A) (xs : List A) → contains a (select p xs) ≡ (p a && contains a xs)
  contains-select p a [] = ground arith
  contains-select p a (x ∷ xs) = ground (arith, contains-select p a xs, e.equals_iff a x)

  pub contains-insert :
      (a b : A) (xs : List A) → contains a (insert b xs) ≡ (a == b || contains a xs)
  unfolding insert
  contains-insert a b xs = ground (arith, e.equals_iff a b)

  pub contains-discard :
      (a b : A) (xs : List A) → contains a (discard b xs) ≡ (not (a == b) && contains a xs)
  unfolding discard
  contains-discard a b xs = contains-select (λ x. not (x == b)) a xs

  pub contains-union :
      (a : A) (xs ys : List A) → contains a (union xs ys) ≡ (contains a xs || contains a ys)
  unfolding union
  contains-union a [] ys = refl
  contains-union a (x ∷ xs) ys =
      ground (arith, contains-insert a x (union xs ys), contains-union a xs ys)

pub ruleset set_laws = (contains-select, contains-insert, contains-discard, contains-union)
