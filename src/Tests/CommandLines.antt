-- ===== src/Tests/CommandLines.antt =====
-- The theorems on the parser of the shell, at short command lines.
use p2b.Prelude.{arith, ℕ, ◌≡◌, refl, List, [], ◌∷◌, ◌⊎◌}
use p2b.Shell.{Cmd, exec, redir, pipe, back, ok, panic, parsecmd}
use p2b.Shell.Fuel.{parsecmd_total}
use p2b.Shell.Words.{Word, text, argv_of, parsecmd-text}

-- "a <f|b&"
abbrev line : List ℕ
line = 97 ∷ 32 ∷ 60 ∷ 102 ∷ 124 ∷ 98 ∷ 38 ∷ []

line_lem :
    parsecmd line
    ≡ ok (back (pipe (redir (exec ((97 ∷ []) ∷ [])) (102 ∷ []) 0 0) (exec ((98 ∷ []) ∷ [])))) []
unfolding parsecmd
line_lem = refl

parsecmd_total_example : ((cmd : Cmd) × (parsecmd line ≡ ok cmd [])) ⊎ (parsecmd line ≡ panic)
parsecmd_total_example = parsecmd_total line

-- "ls" and "-a".
abbrev ls : Word
ls = record { first = 108; others = 115 ∷ []; plain = refl; plains = (refl, tt) }

abbrev dash_a : Word
dash_a = record { first = 45; others = 97 ∷ []; plain = refl; plains = (refl, tt) }

parsecmd-text_example :
    parsecmd (text (ls ∷ dash_a ∷ [])) ≡ ok (exec (argv_of (ls ∷ dash_a ∷ []))) []
parsecmd-text_example = parsecmd-text (ls ∷ dash_a ∷ []) (omega arith)
