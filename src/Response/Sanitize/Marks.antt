-- ===== src/Response/Sanitize/Marks.antt =====
-- core/response/sentence_aggregator.py: the characters that the replacements leave.
use voice_agent_v.Prelude.{
  ℕ, zero, suc, ◌≡◌, refl, Bool, true, false, Option, none, some, [], ◌∷◌, ◌++◌, arith, ◌==◌,
  nat_eq,
}
use voice_agent_v.Prelude.Sets.{contains}
use voice_agent_v.Text.{Text, is_space, text, starts_with, strip, lstrip_by, rstrip_by, strip_by}
use voice_agent_v.Response.Sanitize.{
  Pattern, re_sub, splice, literal, fenced, heading, item, blanks, substitute, unmarked,
  sanitize_for_speech,
}

-- The character does not stand in the text.
abbrev Free : ℕ → Text → Type 0
Free x t = contains x t ≡ false

Free-append : (x : ℕ) (s t : Text) → Free x s → Free x t → Free x (s ++ t)
Free-append x [] t h k = k
Free-append x (c ∷ s) t h k = ground (arith, Free-append x s t)

Free-rest : (x c : ℕ) (t : Text) → Free x (c ∷ t) → Free x t
Free-rest x c t h = ground arith

Free-cons : (x c : ℕ) (t u : Text) → Free x (c ∷ t) → Free x u → Free x (c ∷ u)
Free-cons x c t u h k = ground arith

splice-Free :
    (x : ℕ) (r : Text) (c : ℕ) (cs : Text) (rest : ℕ → Text) (o : Option ℕ)
    → Free x r
    → Free x (c ∷ cs)
    → ((n : ℕ) → Free x (rest n))
    → Free x (splice r c rest o)
unfolding splice
splice-Free x r c cs rest none f h k = Free-cons x c cs (rest 0) h (k 0)
splice-Free x r c cs rest (some zero) f h k =
    Free-append x r (c ∷ rest 0) f (Free-cons x c cs (rest 0) h (k 0))
splice-Free x r c cs rest (some (suc n)) f h k = Free-append x r (rest n) f (k n)

re_sub-Free :
    (x : ℕ) (m : Pattern) (r cs : Text) (b : Bool) (k : ℕ)
    → Free x r
    → Free x cs
    → Free x (re_sub m r b k cs)
unfolding re_sub
re_sub-Free x m r [] b k f h = refl
re_sub-Free x m r (c ∷ cs) b (suc k) f h = re_sub-Free x m r cs (c == 10) k f (Free-rest x c cs h)
re_sub-Free x m r (c ∷ cs) b zero f h =
    splice-Free x r c cs (λ n. re_sub m r (c == 10) n cs) (m b (c ∷ cs)) f h
      (λ n. re_sub-Free x m r cs (c == 10) n f (Free-rest x c cs h))

substitute-Free :
    (x : ℕ) (m : Pattern) (r t : Text) → Free x r → Free x t → Free x (substitute m r t)
unfolding substitute
substitute-Free x m r t f h = re_sub-Free x m r t true 0 f h

-- A single character that is replaced by nothing is gone.
re_sub-literal-Free :
    (x : ℕ) (cs : Text) (b : Bool) (k : ℕ) → k ≡ 0 → Free x (re_sub (literal (x ∷ [])) [] b k cs)
unfolding re_sub literal splice starts_with
re_sub-literal-Free x [] b k e = refl
re_sub-literal-Free x (c ∷ cs) b (suc k) e = absurd (omega arith)
re_sub-literal-Free x (c ∷ cs) b zero e = ground (arith, re_sub-literal-Free x cs (c == 10) 0 refl)

substitute-literal-Free : (x : ℕ) (t : Text) → Free x (substitute (literal (x ∷ [])) [] t)
unfolding substitute
substitute-literal-Free x t = re_sub-literal-Free x t true 0 refl

lstrip-Free : (x : ℕ) (t : Text) → Free x t → Free x (lstrip_by is_space t)
unfolding lstrip_by
lstrip-Free x [] h = refl
lstrip-Free x (c ∷ t) h = ground (arith, lstrip-Free x t)

rstrip-Free : (x : ℕ) (t : Text) → Free x t → Free x (rstrip_by is_space t)
unfolding rstrip_by
rstrip-Free x [] h = refl
rstrip-Free x (c ∷ t) h = ground (arith, rstrip-Free x t)

-- No back quote is spoken, whatever the text.
pub sanitize_for_speech-Free : (t : Text) → contains 96 (sanitize_for_speech t) ≡ false
unfolding sanitize_for_speech unmarked strip strip_by
sanitize_for_speech-Free t =
    let bare = substitute fenced (text " ") t in
    let b = substitute (literal (text "`")) [] bare in
    let c = substitute heading [] b in
    let d = substitute item [] c in
    let s = substitute (literal (text "**")) [] d in
    let u = substitute (literal (text "__")) [] s in
    let v = substitute blanks (text " ") u in
    let free_b : Free 96 b = substitute-literal-Free 96 bare in
    let free_c : Free 96 c = substitute-Free 96 heading [] b refl free_b in
    let free_d : Free 96 d = substitute-Free 96 item [] c refl free_c in
    let free_s : Free 96 s = substitute-Free 96 (literal (text "**")) [] d refl free_d in
    let free_u : Free 96 u = substitute-Free 96 (literal (text "__")) [] s refl free_s in
    let free_v : Free 96 v = substitute-Free 96 blanks (text " ") u refl free_u in
    rstrip-Free 96 (lstrip_by is_space v) (lstrip-Free 96 v free_v)
