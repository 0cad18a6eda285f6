-- ===== src/Conversation/Records.antt =====
-- core/context/context_manager.py: the records of the turns, and what the methods do to lists of
-- them. A negative max_recent_turns is left out.
use voice_agent_v.Prelude.{
  ℕ, zero, suc, ◌+◌, ◌-◌, ℤ, Bool, false, Option, none, some, List, [], ◌∷◌, ◌++◌, ◌==◌, nat_eq,
  list_eq, length, take, drop, is_nil, if◌then◌else◌, leb, ltb, or_ms, map, get_last?,
}
use voice_agent_v.Text.{Text, text, strip, rstrip}
use voice_agent_v.Contracts.{UserTurnFinal}
use voice_agent_v.Playback.Message.{MessagePlayback}
use voice_agent_v.Playback.Heard.{estimate_heard_text}
use voice_agent_v.Conversation.Summarizer.{SummaryTurn, Role, update}

pub record UserTurnRecord : Type 0 where
  pub turn_id : ℕ
  pub text : Text
  pub timestamp_ms : ℕ
  pub confidence : ℕ
  pub language : Option Text

pub record AssistantTurnRecord : Type 0 where
  pub message_id : Text
  pub sequence_id : ℤ
  pub full_text : Text
  pub heard_text : Text
  pub interrupted : Bool
  pub created_ms : ℕ
  pub fully_played_ms : Option ℕ

unfoldable pub user_record : UserTurnFinal → ℕ → UserTurnRecord
user_record turn now = record {
  turn_id = turn.turn_id;
  text = turn.content;
  timestamp_ms = or_ms turn.end_ms now;
  confidence = turn.confidence;
  language = turn.language;
}

unfoldable pub new_assistant : Text → ℤ → ℕ → AssistantTurnRecord
new_assistant message s now = record {
  message_id = message;
  sequence_id = s;
  full_text = [];
  heard_text = [];
  interrupted = false;
  created_ms = now;
  fully_played_ms = none;
}

unfoldable pub assistant_context_text : AssistantTurnRecord → Text
unfolding strip
assistant_context_text r =
    let t = strip r.heard_text in
    if r.interrupted
    then (if is_nil t then text "[interrupted]" else t ++ text " [interrupted]")
    else t

unfoldable pub append_text : Text → Text → Text
unfolding strip rstrip
append_text existing t =
    if is_nil existing then strip t else strip (rstrip existing ++ 32 ∷ strip t)

-- `a or b` on texts.
abbrev or_text : Text → Text → Text
or_text [] b = b
or_text (c ∷ cs) b = c ∷ cs

-- The assignments of append_assistant_text and of update_assistant_from_playback to a record.
unfoldable pub with_text : Text → AssistantTurnRecord → AssistantTurnRecord
unfolding append_text
with_text t r = record r { full_text = append_text r.full_text t }

unfoldable pub with_playback : MessagePlayback → AssistantTurnRecord → AssistantTurnRecord
unfolding estimate_heard_text
with_playback p r = record r {
  full_text = or_text p.full_text (or_text p.text_sent_to_tts r.full_text);
  heard_text = estimate_heard_text p;
  interrupted = p.interrupted;
  fully_played_ms = p.fully_played_ms;
}

abbrev same_last : ℕ → Option UserTurnRecord → Bool
same_last id none = false
same_last id (some u) = u.turn_id == id

-- The turn is the last one already.
unfoldable pub is_last : ℕ → List UserTurnRecord → Bool
is_last id us = same_last id (get_last? us)

unfoldable pub replace_step :
    UserTurnRecord
    → UserTurnRecord
    → List UserTurnRecord
    → Option (List UserTurnRecord)
    → Option (List UserTurnRecord)
replace_step r u us (some changed) = some (u ∷ changed)
replace_step r u us none = if u.turn_id == r.turn_id then some (r ∷ us) else none

-- The last record of the turn, if there is one, takes the new values.
unfoldable pub replace_last : UserTurnRecord → List UserTurnRecord → Option (List UserTurnRecord)
unfolding replace_step
replace_last r [] = none
replace_last r (u ∷ us) = replace_step r u us (replace_last r us)

module _ {ℓ} {A : Type ℓ} where
  -- xs[:-n], which is empty for n = 0.
  abbrev pub but_last : ℕ → List A → List A
  but_last zero xs = []
  but_last (suc n) xs = take (length xs - suc n) xs

  -- xs[-n:], which is the whole list for n = 0.
  abbrev pub last_n : ℕ → List A → List A
  last_n zero xs = xs
  last_n (suc n) xs = drop (length xs - suc n) xs

  -- What _trim takes out of a list, and what it leaves.
  unfoldable pub removed : ℕ → List A → List A
  removed n xs = if ltb n (length xs) then but_last n xs else []

  unfoldable pub kept : ℕ → List A → List A
  kept n xs = if ltb n (length xs) then last_n n xs else xs

-- A turn for the summary, with the time and the index that it is sorted by.
pub record Removed : Type 0 where
  pub time : ℕ
  pub index : ℕ
  pub turn : SummaryTurn

unfoldable pub removed_users : ℕ → List UserTurnRecord → List Removed
removed_users i [] = []
removed_users i (u ∷ us) =
    record {
      time = u.timestamp_ms;
      index = i;
      turn = record { role = Role.user; content = u.text };
    }
    ∷ removed_users (i + 1) us

-- The index of each is the number of turns before it in the list plus its own.
unfoldable pub removed_assistants : ℕ → ℕ → List AssistantTurnRecord → List Removed
unfolding assistant_context_text
removed_assistants before i [] = []
removed_assistants before i (r ∷ rs) =
    record {
      time = r.created_ms;
      index = before + i;
      turn = record { role = Role.assistant; content = assistant_context_text r };
    }
    ∷ removed_assistants (before + 1) (i + 1) rs

-- item[0], item[1] in the order of tuples: not behind.
unfoldable pub not_after : Removed → Removed → Bool
not_after x y = if x.time == y.time then leb x.index y.index else ltb x.time y.time

-- A stable insertion.
unfoldable pub insert_removed : Removed → List Removed → List Removed
unfolding not_after
insert_removed x [] = x ∷ []
insert_removed x (y ∷ ys) =
    let rest = insert_removed x ys in if not_after x y then x ∷ (y ∷ ys) else y ∷ rest

unfoldable pub sort_removed : List Removed → List Removed
unfolding insert_removed
sort_removed [] = []
sort_removed (x ∷ xs) = insert_removed x (sort_removed xs)

-- The summary after the removal of turns.
unfoldable pub summarized : ℕ → Text → List UserTurnRecord → List AssistantTurnRecord → Text
unfolding removed_users removed_assistants sort_removed update
summarized max_chars summary us rs =
    let users = removed_users 0 us in
    let turns = users ++ removed_assistants (length users) 0 rs in
    if is_nil turns
    then summary
    else update max_chars summary (map Removed.turn (sort_removed turns))
