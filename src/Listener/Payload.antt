-- ===== src/Listener/Payload.antt =====
-- core/listener/end_call_listener.py: what the answer of the language model says.
use voice_agent_v.Prelude.{
  zero, suc, ℤ, pos, negsuc, Bool, true, false, not, ◌&&◌, ◌||◌, Option, none, some, List, [], ◌∷◌,
  ◌==◌, list_eq, nat_eq, int_eq, is_nil, if◌then◌else◌,
}
use voice_agent_v.Prelude.Sets.{contains}
use voice_agent_v.Text.{Text, Unicode, text, strip, casefold}

-- A value of the answer. A number comes with the text that `str` gives, a string with the number
-- that `float` reads in it; of a list or an object only the truth and the text are read.
pub data Value : Type 0 where
  null : Value
  bool : Bool → Value
  number : ℤ → Text → Value
  str : Text → Option ℤ → Value
  container : Bool → Text → Value

-- The keys that the listener reads; a missing key is `null`.
pub record Payload : Type 0 where
  pub label : Value
  pub should_hangup : Value
  pub hangup : Value
  pub end_call : Value
  pub confidence : Value
  pub reason : Value

-- bool(value)
unfoldable pub is_true : Value → Bool
is_true null = false
is_true (bool b) = b
is_true (number n t) = not (n == pos 0)
is_true (str t n) = not (is_nil t)
is_true (container b t) = b

-- str(value)
unfoldable pub str_of : Value → Text
str_of null = text "None"
str_of (bool true) = text "True"
str_of (bool false) = text "False"
str_of (number n t) = t
str_of (str t n) = t
str_of (container b t) = t

-- `str(value or "")`
unfoldable pub text_or_empty : Value → Text
unfolding is_true str_of
text_or_empty v = if is_true v then str_of v else []

abbrev yes_words : List Text
yes_words = text "1" ∷ text "true" ∷ text "yes" ∷ text "y" ∷ text "hangup" ∷ text "end_call" ∷ []

abbrev end_labels : List Text
end_labels =
    text "hangup" ∷ text "end_call" ∷ text "close_call" ∷ text "call_end" ∷ text "goodbye" ∷ []

unfoldable pub truthy : ⦃u : Unicode⦄ → Value → Bool
unfolding is_true strip casefold
truthy (str t n) = contains (casefold (strip t)) yes_words
truthy v = is_true v

-- float(value), or the default where it raises.
unfoldable pub float_value : Value → ℤ → ℤ
float_value null default = default
float_value (bool true) default = pos 1000000
float_value (bool false) default = pos 0
float_value (number n t) default = n
float_value (str t none) default = default
float_value (str t (some n)) default = n
float_value (container b t) default = default

unfoldable pub is_positive : ℤ → Bool
is_positive (pos zero) = false
is_positive (pos (suc n)) = true
is_positive (negsuc n) = false

-- `a or b` on texts.
abbrev pub or_text : Text → Text → Text
or_text [] b = b
or_text (c ∷ cs) b = c ∷ cs

pub record Verdict : Type 0 where
  pub hangs_up : Bool
  pub confidence : ℤ
  pub reason : Text

unfoldable pub decision_from_payload : ⦃u : Unicode⦄ → Payload → Verdict
unfolding truthy float_value text_or_empty strip casefold is_positive
decision_from_payload p =
    let label = casefold (strip (text_or_empty p.label)) in
    let hangs_up =
      truthy p.should_hangup
      || (truthy p.hangup || (truthy p.end_call || contains label end_labels)) in
    let confidence = float_value p.confidence (pos 0) in
    record {
      hangs_up = hangs_up;
      confidence = if hangs_up && not (is_positive confidence) then pos 800000 else confidence;
      reason = or_text (text_or_empty p.reason) (or_text label (text "listener_decision"));
    }
