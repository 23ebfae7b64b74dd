-- ===== src/Grep.antt =====
-- grep.c: the matcher of regular expressions with ^, $, . and *. A C string is the list of its
-- characters, without the 0 at its end.
pub mod Language
use p2b.Prelude.{ℕ, Bool, true, false, ◌&&◌, ◌||◌, List, [], ◌∷◌, ◌==◌, if◌then◌else◌}

-- '^', '*', '$' and '.'.
abbrev pub caret : ℕ
caret = 94

abbrev pub star : ℕ
star = 42

abbrev pub dollar : ℕ
dollar = 36

abbrev pub dot : ℕ
dot = 46

-- The empty string?
abbrev pub at_end : List ℕ → Bool
at_end [] = true
at_end (c ∷ cs) = false

-- The loop of `matchstar`, for what `matchhere` says of the rest of the expression.
abbrev pub star_loop : (ℕ → Bool) → (List ℕ → Bool) → List ℕ → Bool
star_loop admits rest [] = rest []
star_loop admits rest (t ∷ text) = rest (t ∷ text) || (admits t && star_loop admits rest text)

-- Does the character of the expression admit the one of the text?
abbrev pub admits : ℕ → ℕ → Bool
admits c t = c == dot || c == t

-- The last clause of `matchhere`: a character of the text, and the rest.
abbrev pub one_char : (c : ℕ) → (List ℕ → Bool) → List ℕ → Bool
one_char c rest [] = false
one_char c rest (t ∷ text) = admits c t && rest text

-- `matchhere`, with `matchstar` in it.
pub matchhere : List ℕ → List ℕ → Bool
matchhere [] text = true
matchhere (c ∷ []) text = if c == dollar then at_end text else one_char c (matchhere []) text
matchhere (c ∷ d ∷ re) text =
    if d == star
    then star_loop (admits c) (matchhere re) text
    else one_char c (matchhere (d ∷ re)) text

-- The loop of `match`.
pub search_from : List ℕ → List ℕ → Bool
search_from re [] = matchhere re []
search_from re (t ∷ text) = matchhere re (t ∷ text) || search_from re text

pub match_re : List ℕ → List ℕ → Bool
unfolding search_from
match_re [] text = search_from [] text
match_re (c ∷ re) text = if c == caret then matchhere re text else search_from (c ∷ re) text
