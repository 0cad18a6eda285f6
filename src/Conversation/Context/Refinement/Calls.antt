-- ===== src/Conversation/Context/Refinement/Calls.antt =====
-- Any calls of the methods, against the specification.
use voice_agent_v.Prelude.{ℕ, ◌≡◌, refl, ap, ◌∙◌, some, List, [], ◌∷◌, nat_eq, list_eq}
use voice_agent_v.Prelude.Dict.{get}
use voice_agent_v.Conversation.Records.{user_record, with_playback, replace_last}
use voice_agent_v.Conversation.Plain
use voice_agent_v.Conversation.Plain.{Conversation, find_record, modify}
use voice_agent_v.Conversation.Context.{
  ContextManager, replace_user_turn, start_assistant_turn, assigned, append_assistant_text,
  update_assistant_from_playback, Call, user_said, user_corrected, assistant_began, assistant_wrote,
  assistant_played, call, run,
}
use voice_agent_v.Conversation.Context.Refinement.{
  view, Agrees, with_playback_keeps, Refines, append_user_turn-Refines, replaced-Refines,
}
use voice_agent_v.Conversation.Context.Refinement.Messages.{
  assigned-Refines, started-Refines, appended-Refines,
}

-- A call of the specification.
unfoldable pub specified : Call → Conversation → Conversation
specified (user_said turn now) c = Plain.append_user turn now c
specified (user_corrected turn now) c = Plain.replace_user turn now c
specified (assistant_began id s now) c = Plain.begin id s now c
specified (assistant_wrote id t) c = Plain.append_text id t c
specified (assistant_played p now) c = Plain.play p now c

unfoldable pub specified_run : List Call → Conversation → Conversation
unfolding specified
specified_run [] c = c
specified_run (k ∷ ks) c = specified_run ks (specified k c)

call-Refines : (k : Call) (m : ContextManager) → Refines m (call k m) (specified k (view m))
unfolding call specified
call-Refines (user_said turn now) m g = append_user_turn-Refines turn now m g
call-Refines (user_corrected turn now) m g =
    unfold replace_user_turn Plain.replace_user in
    replaced-Refines turn now m (replace_last (user_record turn now) m.user_turns) g
call-Refines (assistant_began id s now) m g =
    let r = started-Refines m g id s now (get m.assistant_by_message_id id) refl in
    unfold start_assistant_turn in (r.0, r.1)
call-Refines (assistant_wrote id t) m g =
    unfold append_assistant_text in
    appended-Refines m g id t (get m.assistant_by_message_id id) refl
call-Refines (assistant_played p now) m g =
    let r =
      started-Refines m g p.message_id p.sequence_id now
        (get m.assistant_by_message_id p.message_id) refl in
    unfold update_assistant_from_playback start_assistant_turn Plain.play in played r.0 r.1 r.2
  where
    played :
        {m' : ContextManager} {a : ℕ} {c : Conversation}
        → Agrees m'
        → view m' ≡ c
        → get m'.assistant_by_message_id p.message_id ≡ some a
        → Agrees (assigned a (with_playback p) m')
          × (view (assigned a (with_playback p) m') ≡ Plain.change p.message_id (with_playback p) c)
    played {m'} {a} k v e =
        let done =
          assigned-Refines m' k p.message_id a (with_playback p) (with_playback_keeps p) e in
        (done.0, done.1 ∙ ap (Plain.change p.message_id (with_playback p)) v)

-- The context, with its shared objects and its dictionary, refines the plain conversation: after any
-- calls of its methods from a state in which the dictionary agrees with the list, the objects in the
-- list stand for the records that the specification has, and the dictionary agrees again, so that a
-- later change reaches the record that the prompt is built from.
pub run-Refines :
    (ks : List Call) (m : ContextManager)
    → Agrees m
    → Agrees (run ks m) × (view (run ks m) ≡ specified_run ks (view m))
unfolding run specified_run
run-Refines [] m g = (g, refl)
run-Refines (k ∷ ks) m g =
    let step = call-Refines k m g in
    let later = run-Refines ks (call k m) step.0 in
    (later.0, later.1 ∙ ap (specified_run ks) step.1)
