-- ===== src/Response/Aggregator/Stream/Waiting.antt =====
-- How long the loop waits for a token, and what the timeout does then.
use voice_agent_v.Prelude.{
  ℕ, ◌+◌, ◌≡◌, refl, Option, none, some, arith, is_some, ltb, option_beq, nat_eq, Option-cases, inl,
  inr, sym, ap, ◌∙◌, ◌-◌, ◌≤◌, false,
}
use mathlib.Core.Option.{none-ne-some, some-injective}
use voice_agent_v.Response.Sanitize.{sanitize_for_speech}
use voice_agent_v.Response.Aggregator.{
  SentenceAggregator, current_text, emptied, flush, deadline, flush_due, flush_after, wait_of,
  seconds_until_flush,
}

-- The buffer is due exactly when there is nothing to wait for, at any time and for any buffer.
pub flush_due-seconds_until_flush :
    (timestamp : Option ℕ) (now : ℕ) (a : SentenceAggregator)
    → is_some (flush_due timestamp now a).1
      ≡ option_beq (seconds_until_flush timestamp now a) (some 0)
unfolding flush_due seconds_until_flush
flush_due-seconds_until_flush timestamp now a = elim (Option-cases (deadline a)) [
  | inl e ↦ rw e
  | inr (due, e) ↦ rw e (ground arith)
]

leb-ltb : (due ts : ℕ) → due ≤ ts → ltb ts due ≡ false
leb-ltb due ts h = ground arith

flush_after-due :
    (a : SentenceAggregator) (due ts : ℕ)
    → due ≤ ts
    → flush_after a ts (some due) ≡ (emptied a, some (sanitize_for_speech (current_text a)))
unfolding flush
flush_after-due a due ts h = rw (leb-ltb due ts h) refl

-- Where the wait is some number of milliseconds, a timeout that comes no earlier sends all the text
-- that is held, and leaves an empty buffer without a time: no second timeout comes for it.
pub flush_due-waited :
    (now wait more : ℕ) (a : SentenceAggregator)
    → seconds_until_flush none now a ≡ some wait
    → (flush_due none (now + wait + more) a
        ≡ (emptied a, some (sanitize_for_speech (current_text a))))
      × (seconds_until_flush none (now + wait + more) (emptied a) ≡ none)
unfolding flush_due seconds_until_flush
flush_due-waited now wait more a h = elim (Option-cases (deadline a)) [
  | inl e ↦ absurd (none-ne-some wait (sym (ap (wait_of now) e) ∙ h))
  | inr (due, e) ↦
      let passed : due - now ≡ wait =
        some-injective (due - now) wait (sym (ap (wait_of now) e) ∙ h) in
      (
        ap (flush_after a (now + wait + more)) e
            ∙ flush_after-due a due (now + wait + more) (omega arith),
        refl,
      )
]
