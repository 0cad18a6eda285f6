-- ===== src/Conversation/Context.antt =====
-- core/context/context_manager.py: ContextManager. The records of the assistant are objects that the
-- list and the dictionary share: both hold addresses of a heap. The builder of prompts reads the
-- records only, and is left out.
mod Heap
mod Cuts
pub mod Refinement
pub mod Bounds
use voice_agent_v.Prelude.{
  ℕ, ◌+◌, ℤ, Bool, true, false, Option, none, some, List, [], ◌∷◌, ◌++◌, ◌==◌, nat_eq, list_eq,
  is_nil, if◌then◌else◌, map,
}
use voice_agent_v.Prelude.Dict.{Dict, get, put, remove}
use voice_agent_v.Text.{Text, strip}
use voice_agent_v.Contracts.{UserTurnFinal}
use voice_agent_v.Playback.Message.{MessagePlayback}
use voice_agent_v.Conversation.Records.{
  UserTurnRecord, AssistantTurnRecord, user_record, new_assistant, with_text, with_playback,
  is_last, replace_last, removed, kept, summarized,
}

abbrev pub Heap : Type 0
Heap = ℕ → AssistantTurnRecord

pub record ContextManager : Type 0 where
  pub max_recent_turns : ℕ
  pub summary_max_chars : ℕ
  pub summary_text : Text
  pub user_turns : List UserTurnRecord
  pub assistant_turns : List ℕ
  pub assistant_by_message_id : Dict Text ℕ
  pub heap : Heap
  pub next : ℕ

-- An assignment to the object at an address.
unfoldable pub store : ℕ → AssistantTurnRecord → Heap → Heap
store a r h b = if b == a then r else h b

-- The dictionary without the given keys.
unfoldable pub pop_all : List Text → Dict Text ℕ → Dict Text ℕ
unfolding remove
pop_all [] d = d
pop_all (k ∷ ks) d = pop_all ks (remove d k)

unfoldable pub trim : ContextManager → ContextManager
unfolding removed kept summarized pop_all
trim m =
    let gone = removed m.max_recent_turns m.assistant_turns in
    record m {
      user_turns = kept m.max_recent_turns m.user_turns;
      assistant_turns = kept m.max_recent_turns m.assistant_turns;
      assistant_by_message_id =
          pop_all (map (λ a. (m.heap a).message_id) gone) m.assistant_by_message_id;
      summary_text =
          summarized m.summary_max_chars m.summary_text (removed m.max_recent_turns m.user_turns)
            (map m.heap gone);
    }

unfoldable pub append_user_turn : UserTurnFinal → ℕ → ContextManager → ContextManager
unfolding trim user_record is_last
append_user_turn turn now m =
    if is_last turn.turn_id m.user_turns
    then m
    else trim (record m { user_turns = m.user_turns ++ user_record turn now ∷ [] })

unfoldable pub replaced :
    UserTurnFinal → ℕ → ContextManager → Option (List UserTurnRecord) → ContextManager
unfolding append_user_turn
replaced turn now m none = append_user_turn turn now m
replaced turn now m (some us) = record m { user_turns = us }

unfoldable pub replace_user_turn : UserTurnFinal → ℕ → ContextManager → ContextManager
unfolding replaced replace_last user_record
replace_user_turn turn now m =
    replaced turn now m (replace_last (user_record turn now) m.user_turns)

-- The new object, in the list and in the dictionary.
unfoldable pub allocated : Text → ℤ → ℕ → ContextManager → ContextManager
unfolding new_assistant store
allocated id s now m = record m {
  heap = store m.next (new_assistant id s now) m.heap;
  next = m.next + 1;
  assistant_turns = m.assistant_turns ++ m.next ∷ [];
  assistant_by_message_id = put m.assistant_by_message_id id m.next;
}

unfoldable pub started : Text → ℤ → ℕ → ContextManager → Option ℕ → ContextManager × ℕ
unfolding allocated trim
started id s now m (some a) = (m, a)
started id s now m none = (trim (allocated id s now m), m.next)

-- With the address of the record that the method returns.
unfoldable pub start_assistant_turn : Text → ℤ → ℕ → ContextManager → ContextManager × ℕ
unfolding started
start_assistant_turn id s now m = started id s now m (get m.assistant_by_message_id id)

unfoldable pub assigned :
    ℕ → (AssistantTurnRecord → AssistantTurnRecord) → ContextManager → ContextManager
unfolding store
assigned a f m = record m { heap = store a (f (m.heap a)) m.heap }

unfoldable pub appended : Text → ContextManager → Option ℕ → ContextManager
unfolding assigned with_text strip
appended t m none = m
appended t m (some a) = if is_nil (strip t) then m else assigned a (with_text t) m

unfoldable pub append_assistant_text : Text → Text → ContextManager → ContextManager
unfolding appended
append_assistant_text id t m = appended t m (get m.assistant_by_message_id id)

unfoldable pub update_assistant_from_playback :
    MessagePlayback → ℕ → ContextManager → ContextManager
unfolding assigned with_playback start_assistant_turn
update_assistant_from_playback p now m =
    let (m', a) = start_assistant_turn p.message_id p.sequence_id now m in
    assigned a (with_playback p) m'

-- A call of one of the methods, at a time.
pub data Call : Type 0 where
  user_said : UserTurnFinal → ℕ → Call
  user_corrected : UserTurnFinal → ℕ → Call
  assistant_began : Text → ℤ → ℕ → Call
  assistant_wrote : Text → Text → Call
  assistant_played : MessagePlayback → ℕ → Call

unfoldable pub call : Call → ContextManager → ContextManager
unfolding append_user_turn replace_user_turn start_assistant_turn append_assistant_text
    update_assistant_from_playback
call (user_said turn now) m = append_user_turn turn now m
call (user_corrected turn now) m = replace_user_turn turn now m
call (assistant_began id s now) m = (start_assistant_turn id s now m).0
call (assistant_wrote id t) m = append_assistant_text id t m
call (assistant_played p now) m = update_assistant_from_playback p now m

unfoldable pub run : List Call → ContextManager → ContextManager
unfolding call
run [] m = m
run (c ∷ cs) m = run cs (call c m)
