-- ===== src/Text/Chars.antt =====
-- Code points: literals, white space, and the character tables.
use Prim.Native.Char.{code}
use Prim.Native.String.{String}
use voice_agent_v.Prelude.{
  ℕ, ◌+◌, ◌≡◌, refl, Bool, false, ◌&&◌, ◌||◌, List, [], ◌∷◌, ◌++◌, arith, leb, ◌==◌, All,
  if◌then◌else◌, nat_eq,
}

abbrev pub Text : Type 0
Text = List ℕ

-- The code points of a literal.
abbrev pub text : String → Text
text String.[] = []
text (String.◌∷◌ c s) = code c ∷ text s

-- str.isspace() of one character.
unfoldable pub is_space : ℕ → Bool
is_space c =
    (leb 9 c && leb c 13)
    || (leb 28 c && leb c 32)
    || c == 133
    || c == 160
    || c == 5760
    || (leb 8192 c && leb c 8202)
    || c == 8232
    || c == 8233
    || c == 8239
    || c == 8287
    || c == 12288

-- The tables of the interpreter's Unicode database: full case folding, the class \w of `re`, and
-- str.isalnum(). A folded character is folded already, and a space is neither changed by folding
-- nor part of a word.
pub record Unicode : Type 0 where
  pub fold : ℕ → Text
  pub is_word : ℕ → Bool
  pub is_alnum : ℕ → Bool
  pub fold_fixed : (c : ℕ) → All (λ d. fold d ≡ d ∷ []) (fold c)
  pub fold_space : fold 32 ≡ 32 ∷ []
  pub space_not_word : is_word 32 ≡ false

-- t.casefold()
unfoldable pub casefold : ⦃u : Unicode⦄ → Text → Text
casefold [] = []
casefold ⦃u⦄ (c ∷ cs) = u.fold c ++ casefold cs

-- The tables at ASCII characters, where folding is lower case.
abbrev pub ascii_fold : ℕ → Text
ascii_fold c = if leb 65 c && leb c 90 then (c + 32) ∷ [] else c ∷ []

abbrev pub ascii_alnum : ℕ → Bool
ascii_alnum c = (leb 48 c && leb c 57) || (leb 65 c && leb c 90) || (leb 97 c && leb c 122)

pub ascii_fold_fixed : (c : ℕ) → All (λ d. ascii_fold d ≡ d ∷ []) (ascii_fold c)
ascii_fold_fixed c = ground arith

abbrev pub ascii : Unicode
ascii = record {
  fold = ascii_fold;
  is_word = λ c. ascii_alnum c || c == 95;
  is_alnum = ascii_alnum;
  fold_fixed = ascii_fold_fixed;
  fold_space = refl;
  space_not_word = refl;
}
