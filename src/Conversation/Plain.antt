-- ===== src/Conversation/Plain.antt =====
-- What the conversation context promises, without objects and without an index: the records stand in
-- one list, and a message is looked up by its id. The specification of Context.
use voice_agent_v.Prelude.{
  ℕ, ℤ, Option, none, some, List, [], ◌∷◌, ◌++◌, ◌==◌, nat_eq, list_eq, is_nil, if◌then◌else◌,
}
use voice_agent_v.Text.{Text, strip}
use voice_agent_v.Contracts.{UserTurnFinal}
use voice_agent_v.Playback.Message.{MessagePlayback}
use voice_agent_v.Conversation.Records.{
  UserTurnRecord, AssistantTurnRecord, user_record, new_assistant, with_text, with_playback,
  is_last, replace_last, removed, kept, summarized,
}

pub record Conversation : Type 0 where
  pub max_recent_turns : ℕ
  pub summary_max_chars : ℕ
  pub summary_text : Text
  pub user_turns : List UserTurnRecord
  pub assistant_turns : List AssistantTurnRecord

-- The record of a message.
unfoldable pub find_record : Text → List AssistantTurnRecord → Option AssistantTurnRecord
find_record id [] = none
find_record id (r ∷ rs) = if r.message_id == id then some r else find_record id rs

-- A change of the record of a message.
unfoldable pub modify :
    Text
    → (AssistantTurnRecord → AssistantTurnRecord)
    → List AssistantTurnRecord
    → List AssistantTurnRecord
modify id f [] = []
modify id f (r ∷ rs) =
    let rest = modify id f rs in if r.message_id == id then f r ∷ rs else r ∷ rest

unfoldable pub trim : Conversation → Conversation
unfolding removed kept summarized
trim c = record c {
  user_turns = kept c.max_recent_turns c.user_turns;
  assistant_turns = kept c.max_recent_turns c.assistant_turns;
  summary_text =
      summarized c.summary_max_chars c.summary_text (removed c.max_recent_turns c.user_turns)
        (removed c.max_recent_turns c.assistant_turns);
}

unfoldable pub append_user : UserTurnFinal → ℕ → Conversation → Conversation
unfolding trim user_record is_last
append_user turn now c =
    if is_last turn.turn_id c.user_turns
    then c
    else trim (record c { user_turns = c.user_turns ++ user_record turn now ∷ [] })

unfoldable pub corrected :
    UserTurnFinal → ℕ → Conversation → Option (List UserTurnRecord) → Conversation
unfolding append_user
corrected turn now c none = append_user turn now c
corrected turn now c (some us) = record c { user_turns = us }

unfoldable pub replace_user : UserTurnFinal → ℕ → Conversation → Conversation
unfolding corrected replace_last user_record
replace_user turn now c = corrected turn now c (replace_last (user_record turn now) c.user_turns)

unfoldable pub begun : Text → ℤ → ℕ → Conversation → Option AssistantTurnRecord → Conversation
unfolding trim new_assistant
begun id s now c (some r) = c
begun id s now c none =
    trim (record c { assistant_turns = c.assistant_turns ++ new_assistant id s now ∷ [] })

unfoldable pub begin : Text → ℤ → ℕ → Conversation → Conversation
unfolding begun find_record
begin id s now c = begun id s now c (find_record id c.assistant_turns)

unfoldable pub change :
    Text → (AssistantTurnRecord → AssistantTurnRecord) → Conversation → Conversation
unfolding modify
change id f c = record c { assistant_turns = modify id f c.assistant_turns }

unfoldable pub append_text : Text → Text → Conversation → Conversation
unfolding change with_text strip
append_text id t c = if is_nil (strip t) then c else change id (with_text t) c

unfoldable pub play : MessagePlayback → ℕ → Conversation → Conversation
unfolding change begin with_playback
play p now c = change p.message_id (with_playback p) (begin p.message_id p.sequence_id now c)
