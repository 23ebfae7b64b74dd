-- ===== src/Tests/Patterns.antt =====
-- The theorem on the matcher of grep, for ^ab*$ and abbb.
use p2b.Prelude.{ℕ, ◌≡◌, ◌↔◌, true, List, [], ◌∷◌}
use p2b.Grep.{caret, star, dollar, match_re}
use p2b.Grep.Language.{Found, match_re_iff}

abbrev expression : List ℕ
expression = caret ∷ 97 ∷ 98 ∷ star ∷ dollar ∷ []

abbrev word : List ℕ
word = 97 ∷ 98 ∷ 98 ∷ 98 ∷ []

match_re_iff_example : (match_re expression word ≡ true) ↔ Found expression word
match_re_iff_example = match_re_iff expression word
