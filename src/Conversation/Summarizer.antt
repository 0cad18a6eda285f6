-- ===== src/Conversation/Summarizer.antt =====
-- core/context/summarizer.py: ConversationSummarizer.
pub mod Budget
use voice_agent_v.Prelude.{
  ℕ, zero, ◌-◌, Bool, true, false, ◌&&◌, ◌||◌, List, [], ◌∷◌, ◌++◌, ◌==◌, nat_eq, leb, length, drop,
  is_nil, if◌then◌else◌,
}
use voice_agent_v.Text.{Text, text, strip, lstrip, split, join}

pub data Role : Type 0 where
  user assistant : Role

pub record SummaryTurn : Type 0 where
  pub role : Role
  pub content : Text

unfoldable pub clean_content : Text → Text
unfolding split join
clean_content t = join (text " ") (split t)

abbrev role_name : Role → Text
role_name user = text "User"
role_name assistant = text "Assistant"

unfoldable pub pieces : List SummaryTurn → List Text
unfolding clean_content
pieces [] = []
pieces (t ∷ ts) =
    let rest = pieces ts in
    let content = clean_content t.content in
    if is_nil content then rest else (role_name t.role ++ (text ": " ++ content)) ∷ rest

-- The characters that end a line.
unfoldable pub is_break : ℕ → Bool
is_break c =
    (leb 10 c && leb c 13) || ((leb 28 c && leb c 30) || (c == 133 || (c == 8232 || c == 8233)))

unfoldable pub onto_first : ℕ → List Text → List Text
onto_first c [] = (c ∷ []) ∷ []
onto_first c (l ∷ ls) = (c ∷ l) ∷ ls

-- t.splitlines(); the flag says that the character before was a carriage return, whose line feed
-- ends no second line.
unfoldable pub lines_from : Bool → Text → List Text
unfolding is_break onto_first
lines_from cr [] = []
lines_from cr (c ∷ cs) =
    let same = lines_from false cs in
    let next = lines_from (c == 13) cs in
    if cr && c == 10 then same else if is_break c then [] ∷ next else onto_first c same

unfoldable pub splitlines : Text → List Text
unfolding lines_from
splitlines = lines_from false

abbrev newline : Text
newline = text "\n"

-- The loop that drops the first line while the lines are too long.
unfoldable pub fit : ℕ → List Text → List Text
unfolding join
fit max_chars [] = []
fit max_chars (l ∷ ls) =
    let rest = fit max_chars ls in
    if leb (length (join newline (l ∷ ls))) max_chars then l ∷ ls else rest

-- t[-n:] for a positive n.
abbrev last_chars : ℕ → Text → Text
last_chars n t = drop (length t - n) t

unfoldable pub trim_summary : Text → ℕ → Text
unfolding fit splitlines lstrip join
trim_summary summary max_chars =
    let trimmed = join newline (fit max_chars (splitlines summary)) in
    if leb max_chars 0
    then []
    else if leb (length summary) max_chars
    then summary
    else if leb (length trimmed) max_chars
    then trimmed
    else lstrip (last_chars max_chars trimmed)

unfoldable pub update : ℕ → Text → List SummaryTurn → Text
unfolding trim_summary pieces strip join
update max_chars current turns =
    let before = strip current in
    let new = pieces turns in
    trim_summary (join newline (if is_nil before then new else before ∷ new)) max_chars
