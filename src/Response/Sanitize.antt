-- ===== src/Response/Sanitize.antt =====
-- core/response/sentence_aggregator.py: sanitize_for_speech, with the regular expressions as
-- scanners from left to right. Each pattern matches at most one length at a position, so that the
-- scanner has nothing to try again.
pub mod Blanks
pub mod Marks
pub mod Spoken
use voice_agent_v.Prelude.{
  ℕ, zero, suc, ◌+◌, ◌≡◌, refl, Bool, true, false, ◌&&◌, ◌||◌, Option, none, some, [], ◌∷◌, ◌++◌,
  if◌then◌else◌, ltb, leb, ◌==◌, nat_eq, min, drop, length,
}
use voice_agent_v.Text.{Text, is_space, text, find, starts_with, strip}

-- A pattern gives the length of its match at a position; the flag says whether a line begins there.
abbrev pub Pattern : Type 0
Pattern = Bool → Text → Option ℕ

-- What stands for one position: the character itself, or the replacement and the text behind the
-- match, of which one character has been read. An empty match would leave the character.
unfoldable pub splice : Text → ℕ → (ℕ → Text) → Option ℕ → Text
splice r c rest none = c ∷ rest 0
splice r c rest (some zero) = r ++ (c ∷ rest 0)
splice r c rest (some (suc n)) = r ++ rest n

-- re.sub(pattern, r, t), with the number of characters that the last match still covers.
unfoldable pub re_sub : Pattern → Text → Bool → ℕ → Text → Text
unfolding splice
re_sub m r b k [] = []
re_sub m r b (suc k) (c ∷ cs) = re_sub m r (c == 10) k cs
re_sub m r b zero (c ∷ cs) = splice r c (λ n. re_sub m r (c == 10) n cs) (m b (c ∷ cs))

-- The length of the run of a class that the text begins with.
unfoldable pub span : (ℕ → Bool) → Text → ℕ
span p [] = 0
span p (c ∷ cs) = let n = span p cs in if p c then suc n else 0

-- A match of at least one character.
abbrev pub some_of : ℕ → Option ℕ
some_of zero = none
some_of (suc n) = some (suc n)

abbrev pub fence : Text
fence = text "```"

-- The text from a fence to the next, where both are there.
unfoldable pub closed_fence : Option ℕ → Option ℕ
closed_fence none = none
closed_fence (some n) = some (n + 6)

-- ```.*?```
unfoldable pub fenced : Pattern
unfolding closed_fence starts_with find
fenced b cs = if starts_with cs fence then closed_fence (find (drop 3 cs) fence) else none

-- The literal text of str.replace.
unfoldable pub literal : Text → Pattern
unfolding starts_with
literal s b cs = if starts_with cs s then some_of (length s) else none

-- The marks and the white space behind white space of the length n.
unfoldable pub heading_of : ℕ → Text → Option ℕ
unfolding span
heading_of n cs =
    let marks = min 6 (span (λ c. c == 35) cs) in
    if leb n 3 && ltb 0 marks then some (n + (marks + span is_space (drop marks cs))) else none

-- ^\s{0,3}#{1,6}\s*
unfoldable pub heading : Pattern
unfolding heading_of span is_space
heading b cs = let n = span is_space cs in if b then heading_of n (drop n cs) else none

-- The mark of an item and the white space behind it.
unfoldable pub item_of : ℕ → Text → Option ℕ
unfolding span is_space
item_of n [] = none
item_of n (c ∷ cs) =
    let m = span is_space cs in
    if (c == 45 || (c == 42 || c == 43)) && ltb 0 m then some (n + (1 + m)) else none

-- ^\s*[-*+]\s+
unfoldable pub item : Pattern
unfolding item_of span is_space
item b cs = let n = span is_space cs in if b then item_of n (drop n cs) else none

-- \s+
unfoldable pub blanks : Pattern
unfolding span is_space
blanks b cs = some_of (span is_space cs)

-- re.sub from the begin of the text.
unfoldable pub substitute : Pattern → Text → Text → Text
unfolding re_sub
substitute m r t = re_sub m r true 0 t

-- The text without the marks.
unfoldable pub unmarked : Text → Text
unfolding substitute fenced literal heading item
unmarked t =
    let a = substitute fenced (text " ") t in
    let b = substitute (literal (text "`")) [] a in
    let c = substitute heading [] b in
    let d = substitute item [] c in
    substitute (literal (text "__")) [] (substitute (literal (text "**")) [] d)

unfoldable pub sanitize_for_speech : Text → Text
unfolding unmarked substitute blanks strip
sanitize_for_speech t = strip (substitute blanks (text " ") (unmarked t))

sanitize_for_speech_example :
    sanitize_for_speech (text "# Plan\n- **one** `x`\n```py\nno\n```  two ") ≡ text "Plan one x two"
unfolding sanitize_for_speech
sanitize_for_speech_example = refl
