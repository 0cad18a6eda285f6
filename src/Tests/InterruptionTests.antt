-- ===== src/Tests/InterruptionTests.antt =====
-- The interruption of a response at concrete data.
use voice_agent_v.Prelude.{
  pos, nat_eq, list_eq, ◌≡◌, refl, inl, true, false, some, List, [], ◌∷◌, int_eq, ◌≤◌, arith,
  length,
}
use voice_agent_v.Prelude.Sets.{contains}
use voice_agent_v.Text.{text, ascii, starts_with}
use voice_agent_v.Contracts.{force_interrupt_phrase, long_user_speech}
use voice_agent_v.Interruption.Sequences.{is_valid}
use voice_agent_v.Interruption.Sequences.Validity.{Op, create, drop, drop_all, apply, here, next}
use voice_agent_v.Interruption.Sequences.Staleness.{Stale, Run-Stale}
use voice_agent_v.Interruption.Phrases.{
  PhraseDecision, match_phrase, first_match, sort_longest, insert_longest, matches, decide,
}
use voice_agent_v.Interruption.Phrases.Longest.{match_phrase_longest}
use voice_agent_v.Interruption.State.{can_consider_interruption}
use voice_agent_v.Interruption.Manager.{confirm, judge, handle_transcript}
use voice_agent_v.Interruption.Manager.Confirmed.{IsConfirmed, IsShut, confirm-IsShut}
use voice_agent_v.Interruption.Manager.Decisions.{
  verdict, outcome_of, Effect, HasReason, handle_transcript-verdict, judge_never_long,
}
use voice_agent_v.Interruption.Manager.Records.{
  Coherent, Call, speech_starts, speech_stops, transcribed, calls, calls-Coherent,
}
use voice_agent_v.Tests.Samples.{
  config, sequences, sequences-WellFormed, speaking, says, speech_start_at, speech_stop_at,
}

abbrev dropping : Op sequences
dropping = drop (pos 1) (omega arith, omega arith)

Run-Stale_example : Stale (apply (apply sequences drop_all) create) (pos 1)
unfolding is_valid
Run-Stale_example =
    Run-Stale sequences (apply (apply sequences drop_all) create) (pos 1) sequences-WellFormed
      ((omega arith, omega arith), refl) (next (next here drop_all) create)

match_phrase_longest_example :
    (contains (text "haan ji") (text "haan" ∷ text "haan ji" ∷ []) ≡ true)
    × (matches (text "haan ji bolo") (text "haan ji") ≡ true)
    × (length (text "haan") ≤ length (text "haan ji"))
unfolding match_phrase first_match sort_longest insert_longest matches starts_with
match_phrase_longest_example =
    match_phrase_longest (text "haan ji bolo") (text "haan" ∷ text "haan ji" ∷ []) (text "haan ji")
      (text "haan") refl refl refl

abbrev heard : PhraseDecision
heard = record {
  content = text "stop";
  normalized_text = text "stop";
  word_count = 1;
  is_force_interrupt = true;
  is_backchannel = false;
  matched_phrase = some (text "stop");
}

confirm-IsShut_example :
    IsConfirmed (confirm config 2000 force_interrupt_phrase heard (says (text "Stop.")) speaking).0
    × IsShut speaking
        (confirm config 2000 force_interrupt_phrase heard (says (text "Stop.")) speaking).1
confirm-IsShut_example =
    confirm-IsShut config 2000 force_interrupt_phrase heard (says (text "Stop.")) speaking

handle_transcript-verdict_example :
    let rule = verdict 3 (decide ⦃u = ascii⦄ config.classifier (text "Stop.")) in
    (outcome_of (handle_transcript config ⦃u = ascii⦄ 2000 (says (text "Stop.")) speaking).0
      ≡ some rule)
    × Effect config rule speaking
        (handle_transcript config ⦃u = ascii⦄ 2000 (says (text "Stop.")) speaking).1
unfolding can_consider_interruption
handle_transcript-verdict_example =
    handle_transcript-verdict config ⦃u = ascii⦄ 2000 (says (text "Stop.")) speaking refl (inl refl)

judge_never_long_example :
    ¬ HasReason long_user_speech (judge config 2000 (says (text "Stop.")) heard speaking).0
judge_never_long_example = judge_never_long config 2000 (says (text "Stop.")) heard speaking

abbrev conversation : List Call
conversation =
    speech_starts (speech_start_at 1000)
    ∷ transcribed 1600 (says (text "haan ji"))
    ∷ speech_starts (speech_start_at 2000)
    ∷ speech_stops 2500 (speech_stop_at 2400)
    ∷ transcribed 3000 (says (text "Stop."))
    ∷ []

calls-Coherent_example : Coherent (calls config ⦃u = ascii⦄ conversation speaking).state
calls-Coherent_example =
    calls-Coherent config ⦃u = ascii⦄ conversation speaking
      (record { confirmations = refl; rejections = refl; candidate = refl })
