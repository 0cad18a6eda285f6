-- ===== src/Playback/Tracker/Links.antt =====
-- core/playback/playback_tracker.py: the tracker's indices and the messages that it holds.
use voice_agent_v.Prelude.{
  ℕ, ℤ, ◌≡◌, inl, inr, Bool, true, Option, some, arith, is_some, int_eq, list_eq, nat_eq,
  list_beq_iff, Option-cases,
}
use voice_agent_v.Prelude.Dict.{Dict, get, put, get-put}
use voice_agent_v.Text.{Text}
use voice_agent_v.Contracts.{AudioFrame}
use voice_agent_v.Playback.Message.{MessagePlayback, new_message}
use voice_agent_v.Playback.Tracker.{
  PlaybackTracker, new, start_message, update, message_of_frame, mark_audio_sent,
  mark_checkpoint_sent,
}

abbrev pub holds : PlaybackTracker → Text → Bool
holds k id = is_some (get k.messages id)

pub record Linked (k : PlaybackTracker) : Type 0 where
  pub sequences : (s : ℤ) (id : Text) → get k.sequence_to_message_id s ≡ some id → holds k id ≡ true
  pub checkpoints : (c id : Text) → get k.checkpoint_to_message_id c ≡ some id → holds k id ≡ true

pub new-Linked : (call : Text) → Linked (new call)
unfolding new get
new-Linked call = record { sequences = λ s id h. cc; checkpoints = λ c id h. cc }

-- A write keeps the messages that were there, and the one that it writes is there.
pub holds-put :
    (d : Dict Text MessagePlayback) (id j : Text) (p : MessagePlayback)
    → is_some (get d j) ≡ true
    → is_some (get (put d id p) j) ≡ true
holds-put d id j p h = ground (arith, get-put d id j p)

pub holds-put_self :
    (d : Dict Text MessagePlayback) (id : Text) (p : MessagePlayback)
    → is_some (get (put d id p) id) ≡ true
holds-put_self d id p = ground (arith, get-put d id id p, list_beq_iff id id)

-- New messages only: the indices stay as they are.
pub put-Linked :
    (k : PlaybackTracker) (id : Text) (p : MessagePlayback)
    → Linked k
    → Linked (record k { messages = put k.messages id p })
put-Linked k id p h = record {
  sequences = λ s j e. holds-put k.messages id j p (h.sequences s j e);
  checkpoints = λ c j e. holds-put k.messages id j p (h.checkpoints c j e);
}

sequence-Linked :
    (k : PlaybackTracker) (s : ℤ) (id : Text)
    → Linked k
    → holds k id ≡ true
    → Linked (record k { sequence_to_message_id = put k.sequence_to_message_id s id })
sequence-Linked k s id h there = record {
  sequences = λ t j e. ground (arith, get-put k.sequence_to_message_id s t id, h.sequences t j);
  checkpoints = h.checkpoints;
}

checkpoint-Linked :
    (k : PlaybackTracker) (c id : Text)
    → Linked k
    → holds k id ≡ true
    → Linked (record k { checkpoint_to_message_id = put k.checkpoint_to_message_id c id })
checkpoint-Linked k c id h there = record {
  sequences = h.sequences;
  checkpoints =
      λ t j e. ground (arith, get-put k.checkpoint_to_message_id c t id, h.checkpoints t j);
}

pub start_message-Linked :
    (id : Text) (s : ℤ) (begun : Option ℕ) (k : PlaybackTracker)
    → Linked k
    → Linked (start_message id s begun k).1
unfolding start_message
start_message-Linked id s begun k h = elim (Option-cases (get k.messages id)) [
  | inl absent ↦
      let p = new_message k.call_id id s begun in
      let k' : PlaybackTracker = record k { messages = put k.messages id p } in
      rw absent (sequence-Linked k' s id (put-Linked k id p h) (holds-put_self k.messages id p))
  | inr (p, there) ↦ rw there (sequence-Linked k s id h (rw there))
]

-- After it the tracker holds the message.
pub start_message-holds :
    (id : Text) (s : ℤ) (begun : Option ℕ) (k : PlaybackTracker)
    → holds (start_message id s begun k).1 id ≡ true
unfolding start_message
start_message-holds id s begun k = elim (Option-cases (get k.messages id)) [
  | inl absent ↦ rw absent (holds-put_self k.messages id _)
  | inr (p, there) ↦ rw there (rw there)
]

pub update-Linked :
    (id : Text) (f : MessagePlayback → MessagePlayback) (k : PlaybackTracker)
    → Linked k
    → Linked (update id f k)
unfolding update
update-Linked id f k h = elim (Option-cases (get k.messages id)) [
  | inl absent ↦ rw (absent, update) h
  | inr (p, there) ↦ rw (there, update) (put-Linked k id (f p) h)
]

pub mark_audio_sent-Linked :
    (now : ℕ) (f : AudioFrame) (time : Option ℕ) (k : PlaybackTracker)
    → Linked k
    → Linked (mark_audio_sent now f time k).1
unfolding mark_audio_sent
mark_audio_sent-Linked now f time k h = elim (Option-cases (message_of_frame k f)) [
  | inl lost ↦ rw (lost, mark_audio_sent) h
  | inr (id, found) ↦
      rw (found, mark_audio_sent) (put-Linked _ id _ (start_message-Linked id _ _ k h))
]

pub mark_checkpoint_sent-Linked :
    (now : ℕ) (id c : Text) (time : Option ℕ) (k : PlaybackTracker)
    → Linked k
    → Linked (mark_checkpoint_sent now id c time k)
unfolding mark_checkpoint_sent
mark_checkpoint_sent-Linked now id c time k h = elim (Option-cases (get k.messages id)) [
  | inl absent ↦ rw (absent, mark_checkpoint_sent) h
  | inr (p, there) ↦
      rw (there, mark_checkpoint_sent)
        (checkpoint-Linked (record k { messages = put k.messages id _ }) c id (put-Linked k id _ h)
          (holds-put_self k.messages id _))
]
