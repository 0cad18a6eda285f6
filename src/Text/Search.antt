-- ===== src/Text/Search.antt =====
-- Searching and slicing: str.startswith, str.endswith, `in`, str.index, strip of given characters.
use voice_agent_v.Prelude.{
  ℕ, suc, ◌≡◌, refl, Bool, true, false, ◌&&◌, ◌||◌, [], ◌∷◌, Option, none, some, if◌then◌else◌,
  ◌==◌, list_eq, nat_eq, is_nil,
}
use voice_agent_v.Prelude.Sets.{contains}
use voice_agent_v.Text.Chars.{Text, text}
use voice_agent_v.Text.Strip.{strip_by}

-- t.startswith(prefix)
unfoldable pub starts_with : Text → Text → Bool
starts_with t [] = true
starts_with [] (p ∷ ps) = false
starts_with (c ∷ cs) (p ∷ ps) = c == p && starts_with cs ps

-- t.find(s), with `none` for -1
unfoldable pub find : Text → Text → Option ℕ
unfolding starts_with
find [] s = if is_nil s then some 0 else none
find (c ∷ cs) s =
    let rest : Option ℕ = elim (find cs s) [ none ↦ none | some i ↦ some (suc i) ] in
    if starts_with (c ∷ cs) s then some 0 else rest

-- s in t
unfoldable pub is_in : Text → Text → Bool
unfolding starts_with
is_in s [] = is_nil s
is_in s (c ∷ cs) = starts_with (c ∷ cs) s || is_in s cs

-- The last character of the text is one of those given: t.endswith of a tuple of characters.
unfoldable pub ends_with : Text → Text → Bool
ends_with [] chars = false
ends_with (c ∷ []) chars = contains c chars
ends_with (c ∷ (d ∷ cs)) chars = ends_with (d ∷ cs) chars

-- t.strip(chars)
unfoldable pub strip_chars : Text → Text → Text
unfolding strip_by
strip_chars chars t = strip_by (λ c. contains c chars) t

is_in_example : is_in (text "ell") (text "hello") ≡ true
unfolding is_in
is_in_example = refl

find_example : find (text "hello") (text "lo") ≡ some 3
unfolding find
find_example = refl
