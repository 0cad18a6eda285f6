-- ===== src/Tests/TurnTests.antt =====
-- The caller's turns at concrete data.
use voice_agent_v.Prelude.{
  min, map, ℕ, ℕ, ◌+◌, ◌-◌, ◌≤◌, ◌≡◌, refl, true, false, none, some, List, [], ◌∷◌, ◌++◌, arith,
  or_ms, nat_eq, list_eq, length, drop,
}
use voice_agent_v.Text.{
  text, ascii, casefold, is_space, lstrip_by, rstrip_by, strip_by, lstrip, rstrip, strip, words_by,
  split, join, starts_with, ends_with, find, is_in, strip_chars,
}
use voice_agent_v.Contracts.{UserTurnFinal, TranscriptEvent}
use voice_agent_v.Turn.Rules.{
  normalize_text, words, word_count, ends_with_incomplete_connector, is_complete_short_answer,
}
use voice_agent_v.Turn.Merge.{merge_norm, merge_words, merge_turn_text, overlap_from, dedupe_text}
use voice_agent_v.Turn.Merge.Overlap.{IsLongest, merge_turn_text-split}
use voice_agent_v.Turn.State.{final_text, turn_text, has_final_text, has_unfinalized_interim_tail}
use voice_agent_v.Turn.Manager.{uses_smart_turn, event_time}
use voice_agent_v.Turn.Evaluate.{
  evaluate, evaluate_started, by_words, by_signals, unfinalized, silence_ms, speech_duration_ms,
  transcript_age_ms, inside_end_of_turn_grace,
}
use voice_agent_v.Turn.Evaluate.Sound.{IsOver, evaluate-IsOver, evaluate_forced}
use voice_agent_v.Turn.Emit.{is_late_duplicate, amend_with, amend_last_emitted_turn}
use voice_agent_v.Turn.Emit.Ids.{
  Call, discarding, emitting, forcing, transcribed, speech_starts, run, Numbered, run-Numbered,
}
use voice_agent_v.Turn.Emit.Late.{Amends, amend_last_emitted_turn-Amends}
use voice_agent_v.Tests.Samples.{turn, says, speech_start_at}

apart :
    (is_in
        (merge_norm ⦃u = ascii⦄ (text "order kahan"))
        (merge_norm ⦃u = ascii⦄ (text "mera order"))
      ≡ false)
    × (is_in
          (merge_norm ⦃u = ascii⦄ (text "mera order"))
          (merge_norm ⦃u = ascii⦄ (text "order kahan"))
        ≡ false)
unfolding casefold is_space lstrip_by rstrip_by strip_by lstrip rstrip strip words_by split join
    starts_with ends_with find is_in strip_chars normalize_text merge_norm
apart = (refl, refl)

merge_turn_text-split_example :
    (n : ℕ) × IsLongest n
      (min (length (split (text "mera order"))) (length (split (text "order kahan"))))
      (map (merge_norm ⦃u = ascii⦄) (split (text "mera order")))
      (map (merge_norm ⦃u = ascii⦄) (split (text "order kahan")))
    × (split (merge_turn_text ⦃u = ascii⦄ (text "mera order") (text "order kahan"))
        ≡ split (text "mera order") ++ drop n (split (text "order kahan")))
unfolding is_space lstrip_by rstrip_by strip_by lstrip rstrip strip
merge_turn_text-split_example =
    merge_turn_text-split ⦃u = ascii⦄ (text "mera order") (text "order kahan") refl refl apart.0
      apart.1

abbrev conversation : List Call
conversation =
    emitting 3000 none
    ∷ speech_starts (speech_start_at 4000)
    ∷ transcribed 4500 (says (text "jaldi batao")) none
    ∷ forcing 5000 none
    ∷ discarding
    ∷ []

run-Numbered_example :
    Numbered ⦃u = ascii⦄ 4 (run ⦃u = ascii⦄ turn conversation).0
    × ((run ⦃u = ascii⦄ turn conversation).1.state.turn_id
        ≡ 4 + length (run ⦃u = ascii⦄ turn conversation).0)
run-Numbered_example = run-Numbered ⦃u = ascii⦄ conversation turn

turn_over : (evaluate ⦃u = ascii⦄ 3000 none turn).should_emit ≡ true
unfolding casefold is_space lstrip_by rstrip_by strip_by lstrip rstrip strip words_by split join
    starts_with ends_with find is_in strip_chars normalize_text words word_count
    ends_with_incomplete_connector is_complete_short_answer merge_norm merge_words merge_turn_text
    overlap_from dedupe_text final_text turn_text has_final_text has_unfinalized_interim_tail
    evaluate evaluate_started by_words by_signals unfinalized silence_ms speech_duration_ms
    transcript_age_ms inside_end_of_turn_grace uses_smart_turn
turn_over = refl

turn_says : turn_text ⦃u = ascii⦄ turn.state ≡ text "mera order kahan hai"
unfolding casefold is_space lstrip_by rstrip_by strip_by lstrip rstrip strip words_by split join
    starts_with ends_with find is_in strip_chars normalize_text words word_count
    ends_with_incomplete_connector is_complete_short_answer merge_norm merge_words merge_turn_text
    overlap_from dedupe_text final_text turn_text has_final_text has_unfinalized_interim_tail
turn_says = refl

evaluate-IsOver_example :
    (turn.state.emitted_turn ≡ false)
    × (start : ℕ) × (turn.state.user_started_ms ≡ some start)
    × IsOver ⦃u = ascii⦄ (or_ms none 3000) start turn
evaluate-IsOver_example = evaluate-IsOver ⦃u = ascii⦄ 3000 none turn turn_over

evaluate_forced_example : (evaluate ⦃u = ascii⦄ 3000 none turn).should_emit ≡ true
unfolding silence_ms speech_duration_ms transcript_age_ms inside_end_of_turn_grace uses_smart_turn
evaluate_forced_example =
    evaluate_forced ⦃u = ascii⦄ 3000 none turn 1000 refl refl (rw turn_says refl) (omega arith)
      (omega arith) (omega arith) (omega arith) refl refl

abbrev late : TranscriptEvent
late = says (text "jaldi batao")

abbrev ordered : UserTurnFinal
ordered = record {
  call_id = text "call";
  turn_id = 4;
  content = text "mera order";
  language = none;
  confidence = 900000;
  start_ms = some 100;
  end_ms = some 500;
}

abbrev amendment : UserTurnFinal
amendment = record ordered { content = text "mera order jaldi batao"; end_ms = some 900 }

amends : (amend_last_emitted_turn ⦃u = ascii⦄ 900 late (some 900) turn).0 ≡ some amendment
unfolding casefold is_space lstrip_by rstrip_by strip_by lstrip rstrip strip words_by split join
    starts_with ends_with find is_in strip_chars normalize_text merge_norm merge_words
    merge_turn_text overlap_from dedupe_text event_time is_late_duplicate amend_with
    amend_last_emitted_turn
amends = refl

amend_last_emitted_turn-Amends_example :
    Amends ⦃u = ascii⦄ 900 late turn
      (amend_last_emitted_turn ⦃u = ascii⦄ 900 late (some 900) turn).1
      ordered
      amendment
    × (900 - 500 ≤ 1200)
unfolding event_time
amend_last_emitted_turn-Amends_example =
    amend_last_emitted_turn-Amends ⦃u = ascii⦄ 900 late (some 900) turn ordered amendment 500 refl
      refl amends
