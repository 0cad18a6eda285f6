-- ===== src/Listener/Phrases.antt =====
-- core/listener/end_call_listener.py: the search for a phrase of the caller, word by word.
pub mod Windows
use voice_agent_v.Prelude.{
  ℕ, zero, suc, ◌+◌, ◌-◌, Bool, false, not, ◌&&◌, ◌||◌, List, [], ◌∷◌, ◌++◌, ◌==◌, list_eq, nat_eq,
  any, take, drop, length, is_nil, if◌then◌else◌,
}
use voice_agent_v.Text.{Text, Unicode, text, split, join}

-- The characters of words, folded, and a blank for each other one.
unfoldable pub folded : ⦃u : Unicode⦄ → Text → Text
folded [] = []
folded ⦃u⦄ (c ∷ cs) = (if u.is_alnum c then u.fold c else 32 ∷ []) ++ folded cs

unfoldable pub normalize_listener_text : ⦃u : Unicode⦄ → Text → Text
unfolding folded split join
normalize_listener_text t = join (text " ") (split (folded t))

-- i, i + 1, ...: the given number of them.
unfoldable pub count_from : ℕ → ℕ → List ℕ
count_from i zero = []
count_from i (suc n) = i ∷ count_from (suc i) n

-- The words from a position on are the phrase.
unfoldable pub window : List Text → List Text → ℕ → Bool
window ts ps i = take (length ps) (drop i ts) == ps

unfoldable pub has_window : List Text → List Text → Bool
unfolding count_from window
has_window ts ps = any (window ts ps) (count_from 0 (length ts + 1 - length ps))

unfoldable pub contains_phrase : Text → Text → Bool
unfolding split has_window
contains_phrase t p =
    let ts = split t in let ps = split p in not (is_nil ts) && (not (is_nil ps) && has_window ts ps)
