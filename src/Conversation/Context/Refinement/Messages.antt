-- ===== src/Conversation/Context/Refinement/Messages.antt =====
-- The messages of the assistant: the object that a method makes or finds, and the changes to it.
use voice_agent_v.Prelude.{
  ℕ, ◌+◌, ℤ, ◌≡◌, refl, sym, ap, ◌∙◌, Option, none, some, List, [], ◌∷◌, ◌++◌, nat_eq, list_eq, map,
  Bool-cases, inl, inr, drop, length, is_nil,
}
use mathlib.Core.Option.{none-ne-some}
use voice_agent_v.Prelude.Dict.{Dict, get, put}
use voice_agent_v.Text.{Text, strip}
use voice_agent_v.Conversation.Records.{AssistantTurnRecord, new_assistant, with_text}
use voice_agent_v.Conversation.Plain
use voice_agent_v.Conversation.Plain.{Conversation, find_record, modify}
use voice_agent_v.Conversation.Context.{
  ContextManager, store, trim, allocated, started, assigned, appended,
}
use voice_agent_v.Conversation.Context.Heap.{
  entries, at, modify-absent, find_record-entries, get-absent, map-store-new, entries-store,
  map-store-modify, put-absent, store-same, get-append, Below-append, entries-append,
}
use voice_agent_v.Conversation.Context.Cuts.{
  map-append, map-drop, kept-append, cut, DistinctIds-append, DistinctIds-modify, find_record-drop,
}
use voice_agent_v.Conversation.Context.Refinement.{
  view, Agrees, view-trim, trim-Agrees, with_text_keeps,
}

module _ (m : ContextManager) (g : Agrees m) (id : Text) where
  find_record-view :
      (o : Option ℕ)
      → get m.assistant_by_message_id id ≡ o
      → get (entries m.heap m.assistant_turns) id ≡ o
  find_record-view o e = sym (ap (λ d. get d id) g.indexed) ∙ e

  -- The assignments to an object that the dictionary finds.
  pub assigned-Refines :
      (a : ℕ) (f : AssistantTurnRecord → AssistantTurnRecord)
      → ((r : AssistantTurnRecord) → (f r).message_id ≡ r.message_id)
      → get m.assistant_by_message_id id ≡ some a
      → Agrees (assigned a f m) × (view (assigned a f m) ≡ Plain.change id f (view m))
  unfolding assigned Plain.change
  assigned-Refines a f keeps e =
      let found = find_record-view (some a) e in
      let changed = map-store-modify m.heap m.assistant_turns id a f g.distinct found in
      (
        record {
          indexed =
              g.indexed
              ∙ sym (entries-store m.heap a (f (m.heap a)) m.assistant_turns (keeps (m.heap a)));
          below = g.below;
          distinct =
              rw changed (DistinctIds-modify id f keeps (map m.heap m.assistant_turns) g.distinct);
        },
        rw changed refl,
      )

  module _ (s : ℤ) (now : ℕ) (absent : get m.assistant_by_message_id id ≡ none) where
    new_record : AssistantTurnRecord
    unfolding new_assistant
    new_record = new_assistant id s now

    absent_record : find_record id (map m.heap m.assistant_turns) ≡ none
    absent_record =
        find_record-entries m.heap m.assistant_turns id ∙ rw (find_record-view none absent) refl

    view-allocated :
        map (allocated id s now m).heap (allocated id s now m).assistant_turns
        ≡ map m.heap m.assistant_turns ++ new_record ∷ []
    unfolding allocated new_record
    view-allocated =
        let h = store m.next new_record m.heap in
        map-append h m.assistant_turns (m.next ∷ [])
        ∙ rw ((map-store-new m.heap m.next new_record m.assistant_turns g.below).0)
            (rw (store-same m.heap m.next new_record) refl)

    entries-allocated :
        (xs : List ℕ)
        → entries (store m.next new_record m.heap) (xs ++ m.next ∷ [])
          ≡ entries (store m.next new_record m.heap) xs ++ (id, m.next) ∷ []
    unfolding new_record
    entries-allocated xs =
        let h = store m.next new_record m.heap in
        entries-append h xs (m.next ∷ []) ∙ rw (store-same m.heap m.next new_record) refl

    allocated-Agrees : Agrees (allocated id s now m)
    unfolding allocated new_record
    allocated-Agrees = record {
      indexed =
          ap (λ d. put d id m.next) g.indexed
          ∙ put-absent m.heap m.assistant_turns id m.next (find_record-view none absent)
          ∙ sym (
              entries-allocated m.assistant_turns
              ∙ ap (λ (d : Dict Text ℕ). d ++ (id, m.next) ∷ [])
                  (map-store-new m.heap m.next new_record m.assistant_turns g.below).1);
      below = Below-append m.next m.assistant_turns g.below;
      distinct =
          rw view-allocated
            (DistinctIds-append (map m.heap m.assistant_turns) new_record g.distinct absent_record);
    }

    -- The dictionary has the new object after the trim too.
    get-allocated : get (trim (allocated id s now m)).assistant_by_message_id id ≡ some m.next
    unfolding trim allocated new_record
    get-allocated =
        let h = store m.next new_record m.heap in
        let k = cut m.max_recent_turns (length m.assistant_turns + 1) in
        let cut_off : find_record id (map h (drop k m.assistant_turns)) ≡ none =
          rw
            (
              map-drop h k m.assistant_turns,
              (map-store-new m.heap m.next new_record m.assistant_turns g.below).0,
            )
            (find_record-drop id k (map m.heap m.assistant_turns) absent_record) in
        ap (λ d. get d id)
          ((trim-Agrees (allocated id s now m) allocated-Agrees).indexed
            ∙ ap (entries h) (kept-append m.max_recent_turns m.assistant_turns m.next)
            ∙ entries-allocated (drop k m.assistant_turns))
        ∙ get-append (entries h (drop k m.assistant_turns)) id m.next
            (get-absent h (drop k m.assistant_turns) id cut_off)

    view-allocated-trim : view (trim (allocated id s now m)) ≡ Plain.begun id s now (view m) none
    unfolding allocated new_record Plain.begun
    view-allocated-trim =
        view-trim (allocated id s now m)
        ∙ ap
            (λ (rs : List AssistantTurnRecord).
              Plain.trim (record (view m) { assistant_turns = rs }))
            view-allocated

  present_record :
      (a : ℕ)
      → get m.assistant_by_message_id id ≡ some a
      → find_record id (map m.heap m.assistant_turns) ≡ some (m.heap a)
  present_record a e =
      find_record-entries m.heap m.assistant_turns id ∙ rw (find_record-view (some a) e) refl

  view-present :
      (s : ℤ) (now a : ℕ)
      → get m.assistant_by_message_id id ≡ some a
      → view m ≡ Plain.begin id s now (view m)
  unfolding Plain.begin Plain.begun
  view-present s now a e = sym (ap (Plain.begun id s now (view m)) (present_record a e))

  -- The method that begins a message, with the object that it returns.
  pub started-Refines :
      (s : ℤ) (now : ℕ) (o : Option ℕ)
      → get m.assistant_by_message_id id ≡ o
      → Agrees (started id s now m o).0
        × (view (started id s now m o).0 ≡ Plain.begin id s now (view m))
        × (get (started id s now m o).0.assistant_by_message_id id ≡ some (started id s now m o).1)
  unfolding started Plain.begin
  started-Refines s now none e = (
    trim-Agrees (allocated id s now m) (allocated-Agrees s now e),
    view-allocated-trim s now e ∙ ap (Plain.begun id s now (view m)) (sym (absent_record s now e)),
    get-allocated s now e,
  )
  started-Refines s now (some a) e = (g, view-present s now a e, e)

  view-absent :
      (f : AssistantTurnRecord → AssistantTurnRecord)
      → get m.assistant_by_message_id id ≡ none
      → view m ≡ Plain.change id f (view m)
  unfolding Plain.change
  view-absent f e =
      ap (λ (rs : List AssistantTurnRecord). record (view m) { assistant_turns = rs })
        (sym (
          modify-absent id f (map m.heap m.assistant_turns) (
            find_record-entries m.heap m.assistant_turns id
            ∙ absent_at (get (entries m.heap m.assistant_turns) id) (find_record-view none e))))
    where
      absent_at : (o : Option ℕ) → o ≡ none → at m.heap o ≡ none
      absent_at none q = refl
      absent_at (some a) q = absurd (none-ne-some a (sym q))

  pub appended-Refines :
      (t : Text) (o : Option ℕ)
      → get m.assistant_by_message_id id ≡ o
      → Agrees (appended t m o) × (view (appended t m o) ≡ Plain.append_text id t (view m))
  unfolding appended Plain.append_text
  appended-Refines t none e = elim (Bool-cases (is_nil (strip t))) [
    | inl b ↦ rw b (g, refl)
    | inr b ↦ rw b (g, view-absent (with_text t) e)
  ]
  appended-Refines t (some a) e = elim (Bool-cases (is_nil (strip t))) [
    | inl b ↦ rw b (g, refl)
    | inr b ↦ rw b (assigned-Refines a (with_text t) (with_text_keeps t) e)
  ]
