-- ===== src/Conversation/Context/Refinement.antt =====
-- core/context/context_manager.py: the context with its shared objects, against the plain
-- conversation.
pub mod Messages
pub mod Calls
use voice_agent_v.Prelude.{
  ℕ, zero, suc, ◌+◌, ◌-◌, ◌<◌, ℤ, ◌≡◌, refl, sym, ap, ◌∙◌, Bool, true, false, Option, none, some,
  List, [], ◌∷◌, ◌++◌, ◌==◌, nat_eq, list_eq, if◌then◌else◌, map, arith, All, Bool-cases,
  Option-cases, inl, inr, drop, length, eq_refl, is_nil,
}
use mathlib.Core.Option.{none-ne-some}
use voice_agent_v.Prelude.Dict.{Dict, get, put}
use voice_agent_v.Text.{Text, strip}
use voice_agent_v.Contracts.{UserTurnFinal}
use voice_agent_v.Playback.Message.{MessagePlayback}
use voice_agent_v.Conversation.Records.{
  UserTurnRecord, AssistantTurnRecord, user_record, new_assistant, with_text, with_playback,
  is_last, replace_last, removed, kept, summarized,
}
use voice_agent_v.Conversation.Plain
use voice_agent_v.Conversation.Plain.{Conversation, find_record, modify}
use voice_agent_v.Conversation.Context.{
  ContextManager, Heap, store, pop_all, trim, append_user_turn, replaced, replace_user_turn,
  allocated, started, start_assistant_turn, assigned, appended, append_assistant_text,
  update_assistant_from_playback, Call, user_said, user_corrected, assistant_began, assistant_wrote,
  assistant_played, call, run,
}
use voice_agent_v.Conversation.Context.Heap.{
  entries, at, modify-absent, DistinctIds, Below, find_record-entries, get-absent, map-store-new,
  entries-store, map-store-modify, pop_all-entries, put-absent, store-same, get-append,
  Below-append, entries-append, get-message_id,
}
use voice_agent_v.Conversation.Context.Cuts.{
  map-append, map-drop, map-kept, map-removed, kept-drop, removed-take, kept-append, cut, All-drop,
  DistinctIds-drop, DistinctIds-append, DistinctIds-modify, find_record-drop,
}

-- The conversation that the objects stand for.
abbrev pub view : ContextManager → Conversation
view m = record {
  max_recent_turns = m.max_recent_turns;
  summary_max_chars = m.summary_max_chars;
  summary_text = m.summary_text;
  user_turns = m.user_turns;
  assistant_turns = map m.heap m.assistant_turns;
}

-- The dictionary is that of the list, the addresses are in use, and no id stands twice.
pub record Agrees (m : ContextManager) : Type 0 where
  pub indexed : m.assistant_by_message_id ≡ entries m.heap m.assistant_turns
  pub below : Below m.next m.assistant_turns
  pub distinct : DistinctIds (map m.heap m.assistant_turns)

pub view-trim : (m : ContextManager) → view (trim m) ≡ Plain.trim (view m)
unfolding trim Plain.trim
view-trim m =
    rw
      (
        map-kept m.heap m.max_recent_turns m.assistant_turns,
        map-removed m.heap m.max_recent_turns m.assistant_turns,
      )
      refl

pub trim-Agrees : (m : ContextManager) → Agrees m → Agrees (trim m)
unfolding trim
trim-Agrees m g =
    let k = cut m.max_recent_turns (length m.assistant_turns) in
    let rest = kept-drop m.max_recent_turns m.assistant_turns in
    record {
      indexed =
          rw (rest, removed-take m.max_recent_turns m.assistant_turns, g.indexed)
            (pop_all-entries m.heap k m.assistant_turns g.distinct);
      below = rw rest (All-drop (λ a. a < m.next) k m.assistant_turns g.below);
      distinct =
          rw
            (
              map-kept m.heap m.max_recent_turns m.assistant_turns,
              kept-drop m.max_recent_turns (map m.heap m.assistant_turns),
            )
            (DistinctIds-drop (cut m.max_recent_turns (length (map m.heap m.assistant_turns)))
              (map m.heap m.assistant_turns) g.distinct);
    }

pub with_text_keeps :
    (t : Text) (r : AssistantTurnRecord) → (with_text t r).message_id ≡ r.message_id
unfolding with_text
with_text_keeps t r = refl

pub with_playback_keeps :
    (p : MessagePlayback) (r : AssistantTurnRecord) → (with_playback p r).message_id ≡ r.message_id
unfolding with_playback
with_playback_keeps p r = refl

-- One method refines an operation of the specification.
abbrev pub Refines : ContextManager → ContextManager → Conversation → Type 0
Refines m m' c = Agrees m → Agrees m' × (view m' ≡ c)

pub append_user_turn-Refines :
    (turn : UserTurnFinal) (now : ℕ) (m : ContextManager)
    → Refines m (append_user_turn turn now m) (Plain.append_user turn now (view m))
unfolding append_user_turn Plain.append_user
append_user_turn-Refines turn now m g = elim (Bool-cases (is_last turn.turn_id m.user_turns)) [
  | inl e ↦ rw e (g, refl)
  | inr e ↦
      let m' = record m { user_turns = m.user_turns ++ user_record turn now ∷ [] } in
      rw e (
        trim-Agrees m' (record { indexed = g.indexed; below = g.below; distinct = g.distinct }),
        view-trim m',
      )
]

pub replaced-Refines :
    (turn : UserTurnFinal) (now : ℕ) (m : ContextManager) (o : Option (List UserTurnRecord))
    → Refines m (replaced turn now m o) (Plain.corrected turn now (view m) o)
unfolding replaced Plain.corrected
replaced-Refines turn now m none g = append_user_turn-Refines turn now m g
replaced-Refines turn now m (some us) g =
    (record { indexed = g.indexed; below = g.below; distinct = g.distinct }, refl)
