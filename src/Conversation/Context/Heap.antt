-- ===== src/Conversation/Context/Heap.antt =====
-- The list of addresses and the dictionary, against the list of records that they stand for.
use voice_agent_v.Prelude.{
  ℕ, zero, suc, ◌+◌, ◌<◌, ◌≡◌, refl, sym, ap, ◌∙◌, true, false, Option, none, some, List, [], ◌∷◌,
  ◌++◌, ◌==◌, nat_eq, list_eq, map, arith, All, Bool-cases, Option-cases, inl, inr, eq→≡, eq_refl,
  take, drop,
}
use mathlib.Core.Option.{none-ne-some, some-injective}
use voice_agent_v.Prelude.Dict.{Dict, get, put, remove}
use voice_agent_v.Text.{Text}
use voice_agent_v.Conversation.Records.{AssistantTurnRecord}
use voice_agent_v.Conversation.Plain.{find_record, modify}
use voice_agent_v.Conversation.Context.{Heap, store, pop_all}

-- The dictionary that a list of addresses stands for.
abbrev pub entries : Heap → List ℕ → Dict Text ℕ
entries h [] = []
entries h (a ∷ xs) = ((h a).message_id, a) ∷ entries h xs

-- No two records have one id.
abbrev pub DistinctIds : List AssistantTurnRecord → Type 0
DistinctIds [] = Unit
DistinctIds (r ∷ rs) = (find_record r.message_id rs ≡ none) × DistinctIds rs

abbrev pub Below : ℕ → List ℕ → Type 0
Below n xs = All (λ a. a < n) xs

abbrev pub at : Heap → Option ℕ → Option AssistantTurnRecord
at h none = none
at h (some a) = some (h a)

-- The dictionary finds the object of the record that the list of records has.
pub find_record-entries :
    (h : Heap) (xs : List ℕ) (id : Text) → find_record id (map h xs) ≡ at h (get (entries h xs) id)
unfolding find_record get
find_record-entries h [] id = refl
find_record-entries h (a ∷ xs) id = elim (Bool-cases ((h a).message_id == id)) [
  | inl e ↦ rw e refl
  | inr e ↦ rw e (find_record-entries h xs id)
]

pub get-message_id :
    (h : Heap) (xs : List ℕ) (id : Text) (a : ℕ)
    → get (entries h xs) id ≡ some a
    → (h a).message_id ≡ id
unfolding get
get-message_id h [] id a e = absurd (none-ne-some a e)
get-message_id h (b ∷ xs) id a e = elim (Bool-cases ((h b).message_id == id)) [
  | inl k ↦ rw (← some-injective b a (rw k at e)) (eq→≡ (h b).message_id id k)
  | inr k ↦ get-message_id h xs id a (rw k at e)
]

pub get-absent :
    (h : Heap) (xs : List ℕ) (id : Text)
    → find_record id (map h xs) ≡ none
    → get (entries h xs) id ≡ none
get-absent h xs id e = elim (Option-cases (get (entries h xs) id)) [
  | inl n ↦ n
  | inr (a, p) ↦ absurd (none-ne-some (h a) (sym e ∙ find_record-entries h xs id ∙ ap (at h) p))
]

-- A new object.
pub map-store-new :
    (h : Heap) (n : ℕ) (r : AssistantTurnRecord) (xs : List ℕ)
    → Below n xs
    → (map (store n r h) xs ≡ map h xs) × (entries (store n r h) xs ≡ entries h xs)
unfolding store
map-store-new h n r [] b = (refl, refl)
map-store-new h n r (a ∷ xs) b =
    let other : (a == n) ≡ false = ground arith in
    rw (other, (map-store-new h n r xs b.1).0, (map-store-new h n r xs b.1).1) (refl, refl)

-- A change that keeps the id leaves the dictionary as it is.
pub entries-store :
    (h : Heap) (a : ℕ) (r : AssistantTurnRecord) (xs : List ℕ)
    → r.message_id ≡ (h a).message_id
    → entries (store a r h) xs ≡ entries h xs
unfolding store
entries-store h a r [] k = refl
entries-store h a r (b ∷ xs) k = elim (Bool-cases (b == a)) [
  | inl e ↦ rw (e, k, entries-store h a r xs k, eq→≡ b a e) refl
  | inr e ↦ rw (e, entries-store h a r xs k) refl
]

map-store-absent :
    (h : Heap) (a : ℕ) (r : AssistantTurnRecord) (xs : List ℕ)
    → find_record (h a).message_id (map h xs) ≡ none
    → map (store a r h) xs ≡ map h xs
unfolding store find_record
map-store-absent h a r [] k = refl
map-store-absent h a r (b ∷ xs) k = elim (Bool-cases (b == a)) [
  | inl e ↦ absurd (found (rw (eq→≡ b a e) (eq_refl (h a).message_id)))
  | inr e ↦ elim (Bool-cases ((h b).message_id == (h a).message_id)) [
    | inl i ↦ absurd (found i)
    | inr i ↦ rw (e, map-store-absent h a r xs (rw i at k)) refl
  ]
]
  where
    found : ((h b).message_id == (h a).message_id) ≡ true → ⊥
    found i = none-ne-some (h b) (sym (rw i at k))

differs :
    (h : Heap) (b a : ℕ) (id : Text)
    → ((h b).message_id == id) ≡ false
    → (h a).message_id ≡ id
    → (b == a) ≡ false
differs h b a id k e = elim (Bool-cases (b == a)) [
  | inl same ↦ absurd (
      true-ne (
        sym (eq_refl id)
        ∙ ap (λ i. i == id) (sym e)
        ∙ ap (λ c. (h c).message_id == id) (sym (eq→≡ b a same))
        ∙ k))
  | inr other ↦ other
]
  where
    true-ne : true ≡ false → ⊥
    true-ne q = ground arith

pub store-same : (h : Heap) (a : ℕ) (r : AssistantTurnRecord) → store a r h a ≡ r
unfolding store
store-same h a r = rw (eq_refl a) refl

store-other :
    (h : Heap) (a b : ℕ) (r : AssistantTurnRecord) → (b == a) ≡ false → store a r h b ≡ h b
unfolding store
store-other h a b r e = rw e refl

map-store-first :
    (h : Heap) (b : ℕ) (r : AssistantTurnRecord) (xs : List ℕ)
    → find_record (h b).message_id (map h xs) ≡ none
    → map (store b r h) (b ∷ xs) ≡ r ∷ map h xs
map-store-first h b r xs e = rw (store-same h b r, map-store-absent h b r xs e) refl

-- A change of the object that the dictionary finds is a change of its record.
pub map-store-modify :
    (h : Heap) (xs : List ℕ) (id : Text) (a : ℕ) (f : AssistantTurnRecord → AssistantTurnRecord)
    → DistinctIds (map h xs)
    → get (entries h xs) id ≡ some a
    → map (store a (f (h a)) h) xs ≡ modify id f (map h xs)
unfolding get modify
map-store-modify h [] id a f d e = absurd (none-ne-some a e)
map-store-modify h (b ∷ xs) id a f d e = elim (Bool-cases ((h b).message_id == id)) [
  | inl k ↦
      let same : b ≡ a = some-injective b a (rw k at e) in
      ap (λ c. map (store c (f (h c)) h) (b ∷ xs)) (sym same)
      ∙ rw k (map-store-first h b (f (h b)) xs d.0)
  | inr k ↦
      let later : get (entries h xs) id ≡ some a = rw k at e in
      let other : (b == a) ≡ false = differs h b a id k (get-message_id h xs id a later) in
      rw (k, store-other h a b (f (h a)) other, map-store-modify h xs id a f d.1 later) refl
]

remove-absent :
    (h : Heap) (xs : List ℕ) (id : Text)
    → find_record id (map h xs) ≡ none
    → remove (entries h xs) id ≡ entries h xs
unfolding remove find_record
remove-absent h [] id e = refl
remove-absent h (a ∷ xs) id e = elim (Bool-cases ((h a).message_id == id)) [
  | inl k ↦ absurd (none-ne-some (h a) (sym (rw k at e)))
  | inr k ↦ rw (k, remove-absent h xs id (rw k at e)) refl
]

remove-first : (k : Text) (v : ℕ) (d : Dict Text ℕ) → remove ((k, v) ∷ d) k ≡ remove d k
unfolding remove
remove-first k v d = rw (eq_refl k) refl

-- Without the ids of the first addresses, the dictionary is that of the others.
pub pop_all-entries :
    (h : Heap) (k : ℕ) (xs : List ℕ)
    → DistinctIds (map h xs)
    → pop_all (map (λ a. (h a).message_id) (take k xs)) (entries h xs) ≡ entries h (drop k xs)
unfolding pop_all
pop_all-entries h zero xs d = refl
pop_all-entries h (suc k) [] d = refl
pop_all-entries h (suc k) (a ∷ xs) d =
    let ids = map (λ b. (h b).message_id) (take k xs) in
    ap (pop_all ids)
      (remove-first (h a).message_id a (entries h xs) ∙ remove-absent h xs (h a).message_id d.0)
    ∙ pop_all-entries h k xs d.1

pub put-absent :
    (h : Heap) (xs : List ℕ) (id : Text) (n : ℕ)
    → get (entries h xs) id ≡ none
    → put (entries h xs) id n ≡ entries h xs ++ (id, n) ∷ []
unfolding get put
put-absent h [] id n e = refl
put-absent h (a ∷ xs) id n e = elim (Bool-cases ((h a).message_id == id)) [
  | inl k ↦ absurd (none-ne-some a (sym (rw k at e)))
  | inr k ↦ rw (k, put-absent h xs id n (rw k at e)) refl
]

pub entries-append :
    (h : Heap) (xs ys : List ℕ) → entries h (xs ++ ys) ≡ entries h xs ++ entries h ys
entries-append h [] ys = refl
entries-append h (a ∷ xs) ys = rw (entries-append h xs ys)

pub get-append :
    (d : Dict Text ℕ) (id : Text) (n : ℕ) → get d id ≡ none → get (d ++ (id, n) ∷ []) id ≡ some n
unfolding get
get-append [] id n e = rw (eq_refl id) refl
get-append ((k, v) ∷ d) id n e = elim (Bool-cases (k == id)) [
  | inl i ↦ absurd (none-ne-some v (sym (rw i at e)))
  | inr i ↦ rw i (get-append d id n (rw i at e))
]

pub Below-append : (n : ℕ) (xs : List ℕ) → Below n xs → Below (n + 1) (xs ++ n ∷ [])
Below-append n [] b = (omega arith, tt)
Below-append n (x ∷ xs) b = (omega (arith, b.0), Below-append n xs b.1)

pub modify-absent :
    (id : Text) (f : AssistantTurnRecord → AssistantTurnRecord) (rs : List AssistantTurnRecord)
    → find_record id rs ≡ none
    → modify id f rs ≡ rs
unfolding find_record modify
modify-absent id f [] e = refl
modify-absent id f (r ∷ rs) e = elim (Bool-cases (r.message_id == id)) [
  | inl i ↦ absurd (none-ne-some r (sym (rw i at e)))
  | inr i ↦ rw (i, modify-absent id f rs (rw i at e)) refl
]
