-- ===== src/Conversation/Context/Bounds.antt =====
-- The bound on the records and the budget of the summary.
use voice_agent_v.Prelude.{
  ℕ, suc, ◌≤◌, ◌<◌, ℤ, ◌≡◌, refl, sym, ap, ◌∙◌, Option, none, some, List, [], ◌∷◌, ◌++◌, ◌==◌,
  nat_eq, list_eq, map, Bool-cases, inl, inr, length, is_nil,
}
use mathlib.Core.Option.{none-ne-some, some-injective}
use voice_agent_v.Text.{Text, strip}
use voice_agent_v.Contracts.{UserTurnFinal}
use voice_agent_v.Conversation.Summarizer.Budget.{length-update}
use voice_agent_v.Conversation.Records.{
  UserTurnRecord, AssistantTurnRecord, Removed, user_record, new_assistant, with_text,
  with_playback, is_last, replace_last, replace_step, removed, summarized, removed_users,
  removed_assistants, sort_removed,
}
use voice_agent_v.Conversation.Plain
use voice_agent_v.Conversation.Plain.{Conversation, find_record, modify}
use voice_agent_v.Conversation.Context.{
  ContextManager, Call, user_said, user_corrected, assistant_began, assistant_wrote,
  assistant_played, run,
}
use voice_agent_v.Conversation.Context.Cuts.{length-kept}
use voice_agent_v.Conversation.Context.Refinement.{view, Agrees}
use voice_agent_v.Conversation.Context.Refinement.Calls.{specified, specified_run, run-Refines}

-- No more turns than the bound, and no longer a summary than its budget.
pub record IsBounded (c : Conversation) : Type 0 where
  pub positive : 0 < c.max_recent_turns
  pub users : length c.user_turns ≤ c.max_recent_turns
  pub assistants : length c.assistant_turns ≤ c.max_recent_turns
  pub summary : length c.summary_text ≤ c.summary_max_chars

length-summarized :
    (n : ℕ) (t : Text) (us : List UserTurnRecord) (rs : List AssistantTurnRecord)
    → length t ≤ n
    → length (summarized n t us rs) ≤ n
unfolding summarized
length-summarized n t us rs h =
    let turns = removed_users 0 us ++ removed_assistants (length (removed_users 0 us)) 0 rs in
    elim (Bool-cases (is_nil turns)) [
      | inl e ↦ rw e h
      | inr e ↦ rw e (length-update n t (map Removed.turn (sort_removed turns)))
    ]

trim-IsBounded :
    (c : Conversation)
    → 0 < c.max_recent_turns
    → length c.summary_text ≤ c.summary_max_chars
    → IsBounded (Plain.trim c)
unfolding Plain.trim
trim-IsBounded c p h = record {
  positive = p;
  users = length-kept c.max_recent_turns c.user_turns p;
  assistants = length-kept c.max_recent_turns c.assistant_turns p;
  summary =
      length-summarized c.summary_max_chars c.summary_text (removed c.max_recent_turns c.user_turns)
        (removed c.max_recent_turns c.assistant_turns) h;
}

append_user-IsBounded :
    (turn : UserTurnFinal) (now : ℕ) (c : Conversation)
    → IsBounded c
    → IsBounded (Plain.append_user turn now c)
unfolding Plain.append_user
append_user-IsBounded turn now c b = elim (Bool-cases (is_last turn.turn_id c.user_turns)) [
  | inl e ↦ rw e b
  | inr e ↦ rw e (
      trim-IsBounded (record c { user_turns = c.user_turns ++ user_record turn now ∷ [] })
        b.positive b.summary)
]

-- A correction of a turn adds no record.
replace_step-length :
    (r u : UserTurnRecord) (us vs : List UserTurnRecord) (o : Option (List UserTurnRecord))
    → ((ws : List UserTurnRecord) → o ≡ some ws → length ws ≡ length us)
    → replace_step r u us o ≡ some vs
    → length vs ≡ suc (length us)
unfolding replace_step
replace_step-length r u us vs (some ws) h e =
    ap length (sym (some-injective (u ∷ ws) vs e)) ∙ ap suc (h ws refl)
replace_step-length r u us vs none h e = elim (Bool-cases (u.turn_id == r.turn_id)) [
  | inl k ↦ ap length (sym (some-injective (r ∷ us) vs (rw k at e)))
  | inr k ↦ absurd (none-ne-some vs (rw k at e))
]

replace_last-length :
    (r : UserTurnRecord) (us vs : List UserTurnRecord)
    → replace_last r us ≡ some vs
    → length vs ≡ length us
unfolding replace_last
replace_last-length r [] vs e = absurd (none-ne-some vs e)
replace_last-length r (u ∷ us) vs e =
    replace_step-length r u us vs (replace_last r us) (replace_last-length r us) e

corrected-IsBounded :
    (turn : UserTurnFinal) (now : ℕ) (c : Conversation) (o : Option (List UserTurnRecord))
    → ((vs : List UserTurnRecord) → o ≡ some vs → length vs ≡ length c.user_turns)
    → IsBounded c
    → IsBounded (Plain.corrected turn now c o)
unfolding Plain.corrected
corrected-IsBounded turn now c none h b = append_user-IsBounded turn now c b
corrected-IsBounded turn now c (some us) h b = record {
  positive = b.positive;
  users = rw (h us refl) b.users;
  assistants = b.assistants;
  summary = b.summary;
}

length-modify :
    (id : Text) (f : AssistantTurnRecord → AssistantTurnRecord) (rs : List AssistantTurnRecord)
    → length (modify id f rs) ≡ length rs
unfolding modify
length-modify id f [] = refl
length-modify id f (r ∷ rs) = elim (Bool-cases (r.message_id == id)) [
  | inl e ↦ rw e refl
  | inr e ↦ rw e (ap suc (length-modify id f rs))
]

change-IsBounded :
    (id : Text) (f : AssistantTurnRecord → AssistantTurnRecord) (c : Conversation)
    → IsBounded c
    → IsBounded (Plain.change id f c)
unfolding Plain.change
change-IsBounded id f c b = record {
  positive = b.positive;
  users = b.users;
  assistants = rw (length-modify id f c.assistant_turns) b.assistants;
  summary = b.summary;
}

begun-IsBounded :
    (id : Text) (s : ℤ) (now : ℕ) (c : Conversation) (o : Option AssistantTurnRecord)
    → IsBounded c
    → IsBounded (Plain.begun id s now c o)
unfolding Plain.begun
begun-IsBounded id s now c (some r) b = b
begun-IsBounded id s now c none b =
    trim-IsBounded (record c { assistant_turns = c.assistant_turns ++ new_assistant id s now ∷ [] })
      b.positive b.summary

specified-IsBounded : (k : Call) (c : Conversation) → IsBounded c → IsBounded (specified k c)
unfolding specified Plain.begin Plain.play Plain.replace_user Plain.append_text
specified-IsBounded (user_said turn now) c b = append_user-IsBounded turn now c b
specified-IsBounded (user_corrected turn now) c b =
    let r = user_record turn now in
    corrected-IsBounded turn now c (replace_last r c.user_turns)
      (replace_last-length r c.user_turns) b
specified-IsBounded (assistant_began id s now) c b =
    begun-IsBounded id s now c (find_record id c.assistant_turns) b
specified-IsBounded (assistant_wrote id t) c b = elim (Bool-cases (is_nil (strip t))) [
  | inl e ↦ rw e b
  | inr e ↦ rw e (change-IsBounded id (with_text t) c b)
]
specified-IsBounded (assistant_played p now) c b =
    let id = p.message_id in
    change-IsBounded id (with_playback p)
      (Plain.begun id p.sequence_id now c (find_record id c.assistant_turns))
      (begun-IsBounded id p.sequence_id now c (find_record id c.assistant_turns) b)

specified_run-IsBounded :
    (ks : List Call) (c : Conversation) → IsBounded c → IsBounded (specified_run ks c)
unfolding specified_run
specified_run-IsBounded [] c b = b
specified_run-IsBounded (k ∷ ks) c b =
    specified_run-IsBounded ks (specified k c) (specified-IsBounded k c b)

-- Whatever methods are called, the context of a long call stays small: where the bound on the turns is
-- positive, no more user turns and no more assistant turns are held than it allows, and the summary
-- of the older turns stays within its budget.
pub run-IsBounded :
    (ks : List Call) (m : ContextManager)
    → Agrees m
    → IsBounded (view m)
    → IsBounded (view (run ks m))
run-IsBounded ks m g b = rw ((run-Refines ks m g).1) (specified_run-IsBounded ks (view m) b)
