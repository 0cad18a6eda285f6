-- ===== src/Conversation/Context/Cuts.antt =====
-- What _trim cuts off, for lists of any kind, and what the cuts and changes do to the ids.
use voice_agent_v.Prelude.{
  ℕ, zero, suc, ◌+◌, ◌-◌, ◌≤◌, ◌<◌, ◌≡◌, refl, sym, ap, ◌∙◌, false, none, List, [], ◌∷◌, ◌++◌, ◌==◌,
  nat_eq, list_eq, map, arith, All, Bool-cases, inl, inr, take, drop, length, ltb, length-drop,
  length-append, eq→≡,
}
use mathlib.Core.Option.{none-ne-some}
use voice_agent_v.Text.{Text}
use voice_agent_v.Conversation.Records.{AssistantTurnRecord, removed, kept}
use voice_agent_v.Conversation.Plain.{find_record, modify}
use voice_agent_v.Conversation.Context.Heap.{DistinctIds}

module _ {ℓ κ} {A : Type ℓ} {B : Type κ} (f : A → B) where
  map-take : (k : ℕ) (xs : List A) → map f (take k xs) ≡ take k (map f xs)
  map-take zero xs = refl
  map-take (suc k) [] = refl
  map-take (suc k) (x ∷ xs) = rw (map-take k xs)

  pub map-drop : (k : ℕ) (xs : List A) → map f (drop k xs) ≡ drop k (map f xs)
  map-drop zero xs = refl
  map-drop (suc k) [] = refl
  map-drop (suc k) (x ∷ xs) = map-drop k xs

  length-map : (xs : List A) → length (map f xs) ≡ length xs
  length-map [] = refl
  length-map (x ∷ xs) = ap suc (length-map xs)

  pub map-append : (xs ys : List A) → map f (xs ++ ys) ≡ map f xs ++ map f ys
  map-append [] ys = refl
  map-append (x ∷ xs) ys = rw (map-append xs ys)

-- The number of elements that are cut off a list of the given length.
unfoldable pub cut : ℕ → ℕ → ℕ
cut zero len = 0
cut (suc n) len = len - suc n

module _ {ℓ} {A : Type ℓ} where
  pub kept-drop : (n : ℕ) (xs : List A) → kept n xs ≡ drop (cut n (length xs)) xs
  unfolding kept cut
  kept-drop zero xs = elim (Bool-cases (ltb 0 (length xs))) [
    | inl e ↦ rw e refl
    | inr e ↦ rw e refl
  ]
  kept-drop (suc n) xs = elim (Bool-cases (ltb (suc n) (length xs))) [
    | inl e ↦ rw e refl
    | inr e ↦ let nothing : length xs - suc n ≡ 0 = ground arith in rw (e, nothing) refl
  ]

  pub removed-take : (n : ℕ) (xs : List A) → removed n xs ≡ take (cut n (length xs)) xs
  unfolding removed cut
  removed-take zero xs = elim (Bool-cases (ltb 0 (length xs))) [
    | inl e ↦ rw e refl
    | inr e ↦ rw e refl
  ]
  removed-take (suc n) xs = elim (Bool-cases (ltb (suc n) (length xs))) [
    | inl e ↦ rw e refl
    | inr e ↦ let nothing : length xs - suc n ≡ 0 = ground arith in rw (e, nothing) refl
  ]

  -- A positive bound is kept.
  pub length-kept : (n : ℕ) (xs : List A) → 0 < n → length (kept n xs) ≤ n
  unfolding cut
  length-kept zero xs h = absurd (omega arith)
  length-kept (suc n) xs h =
      rw (kept-drop (suc n) xs) (omega (arith, length-drop (length xs - suc n) xs))

  pub All-drop {κ} : (P : A → Type κ) (k : ℕ) (xs : List A) → All P xs → All P (drop k xs)
  All-drop P zero xs h = h
  All-drop P (suc k) [] h = h
  All-drop P (suc k) (x ∷ xs) h = All-drop P k xs h.1

module _ {ℓ κ} {A : Type ℓ} {B : Type κ} (f : A → B) (n : ℕ) (xs : List A) where
  pub map-kept : map f (kept n xs) ≡ kept n (map f xs)
  map-kept =
      rw (kept-drop n xs, kept-drop n (map f xs), length-map f xs)
        (map-drop f (cut n (length xs)) xs)

  pub map-removed : map f (removed n xs) ≡ removed n (map f xs)
  map-removed =
      rw (removed-take n xs, removed-take n (map f xs), length-map f xs)
        (map-take f (cut n (length xs)) xs)

pub DistinctIds-drop :
    (k : ℕ) (rs : List AssistantTurnRecord) → DistinctIds rs → DistinctIds (drop k rs)
DistinctIds-drop zero rs d = d
DistinctIds-drop (suc k) [] d = d
DistinctIds-drop (suc k) (r ∷ rs) d = DistinctIds-drop k rs d.1

find_record-append :
    (id : Text) (rs : List AssistantTurnRecord) (r : AssistantTurnRecord)
    → find_record id rs ≡ none
    → (r.message_id == id) ≡ false
    → find_record id (rs ++ r ∷ []) ≡ none
unfolding find_record
find_record-append id [] r e k = rw k refl
find_record-append id (q ∷ rs) r e k = elim (Bool-cases (q.message_id == id)) [
  | inl i ↦ absurd (none-ne-some q (sym (rw i at e)))
  | inr i ↦ rw i (find_record-append id rs r (rw i at e) k)
]

eq_flip : (i j : Text) → (i == j) ≡ false → (j == i) ≡ false
eq_flip i j e = elim (Bool-cases (j == i)) [
  | inl k ↦ rw (eq→≡ j i k) (rw (eq→≡ j i k) at e)
  | inr k ↦ k
]

pub DistinctIds-append :
    (rs : List AssistantTurnRecord) (r : AssistantTurnRecord)
    → DistinctIds rs
    → find_record r.message_id rs ≡ none
    → DistinctIds (rs ++ r ∷ [])
unfolding find_record
DistinctIds-append [] r d e = (refl, tt)
DistinctIds-append (q ∷ rs) r d e = elim (Bool-cases (q.message_id == r.message_id)) [
  | inl i ↦ absurd (none-ne-some q (sym (rw i at e)))
  | inr i ↦ (
    find_record-append q.message_id rs r d.0 (eq_flip q.message_id r.message_id i),
    DistinctIds-append rs r d.1 (rw i at e),
  )
]

-- A change that keeps the ids.
module _ (id : Text) (f : AssistantTurnRecord → AssistantTurnRecord)
    (keeps : (r : AssistantTurnRecord) → (f r).message_id ≡ r.message_id) where
  find_record-modify :
      (j : Text) (rs : List AssistantTurnRecord)
      → find_record j rs ≡ none
      → find_record j (modify id f rs) ≡ none
  unfolding find_record modify
  find_record-modify j [] e = refl
  find_record-modify j (r ∷ rs) e = elim (Bool-cases (r.message_id == j)) [
    | inl i ↦ absurd (none-ne-some r (sym (rw i at e)))
    | inr i ↦ elim (Bool-cases (r.message_id == id)) [
      | inl k ↦ rw (k, keeps r, i) (rw i at e)
      | inr k ↦ rw (k, i) (find_record-modify j rs (rw i at e))
    ]
  ]

  pub DistinctIds-modify :
      (rs : List AssistantTurnRecord) → DistinctIds rs → DistinctIds (modify id f rs)
  unfolding modify
  DistinctIds-modify [] d = d
  DistinctIds-modify (r ∷ rs) d = elim (Bool-cases (r.message_id == id)) [
    | inl k ↦ rw (k, keeps r) d
    | inr k ↦ rw k (find_record-modify r.message_id rs d.0, DistinctIds-modify rs d.1)
  ]

pub find_record-drop :
    (id : Text) (k : ℕ) (rs : List AssistantTurnRecord)
    → find_record id rs ≡ none
    → find_record id (drop k rs) ≡ none
unfolding find_record
find_record-drop id zero rs e = e
find_record-drop id (suc k) [] e = refl
find_record-drop id (suc k) (r ∷ rs) e = elim (Bool-cases (r.message_id == id)) [
  | inl i ↦ absurd (none-ne-some r (sym (rw i at e)))
  | inr i ↦ find_record-drop id k rs (rw i at e)
]

drop-append {ℓ} :
    {A : Type ℓ} (k : ℕ) (xs ys : List A) → k ≤ length xs → drop k (xs ++ ys) ≡ drop k xs ++ ys
drop-append zero xs ys h = refl
drop-append (suc k) [] ys h = absurd (omega arith)
drop-append (suc k) (x ∷ xs) ys h = drop-append k xs ys (omega arith)

-- The last element is not cut off.
pub kept-append {ℓ} :
    {A : Type ℓ} (n : ℕ) (xs : List A) (x : A)
    → kept n (xs ++ x ∷ []) ≡ drop (cut n (length xs + 1)) xs ++ x ∷ []
unfolding cut
kept-append n xs x =
    kept-drop n (xs ++ x ∷ [])
    ∙ rw (length-append xs (x ∷ [])) (drop-append (cut n (length xs + 1)) xs (x ∷ []) (below n))
  where
    below : (k : ℕ) → cut k (length xs + 1) ≤ length xs
    below zero = omega arith
    below (suc k) = omega arith
