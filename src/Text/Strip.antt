-- ===== src/Text/Strip.antt =====
-- str.lstrip, str.rstrip and str.strip, for a class of characters and for white space.
use voice_agent_v.Prelude.{ℕ, ◌≡◌, refl, Bool, ◌&&◌, [], ◌∷◌, is_nil, if◌then◌else◌}
use voice_agent_v.Text.Chars.{Text, is_space}

unfoldable pub lstrip_by : (ℕ → Bool) → Text → Text
lstrip_by p [] = []
lstrip_by p (c ∷ cs) = let rest = lstrip_by p cs in if p c then rest else c ∷ cs

unfoldable pub rstrip_by : (ℕ → Bool) → Text → Text
rstrip_by p [] = []
rstrip_by p (c ∷ cs) = let rest = rstrip_by p cs in if p c && is_nil rest then [] else c ∷ rest

unfoldable pub strip_by : (ℕ → Bool) → Text → Text
strip_by p cs = rstrip_by p (lstrip_by p cs)

unfoldable pub lstrip : Text → Text
unfolding lstrip_by
lstrip = lstrip_by is_space

unfoldable pub rstrip : Text → Text
unfolding rstrip_by
rstrip = rstrip_by is_space

unfoldable pub strip : Text → Text
unfolding lstrip_by rstrip_by strip_by
strip = strip_by is_space

pub strip-nil : strip [] ≡ []
unfolding strip
strip-nil = refl
