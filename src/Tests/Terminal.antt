-- ===== src/Tests/Terminal.antt =====
-- The theorems on the console, with counters that wrap.
use p2b.Prelude.{◌≡◌, refl, false, some, [], ◌∷◌, arith, inr, update}
use p2b.Console.{Console, consoleintr, consoleread}
use p2b.Console.Line.{Holds}
use p2b.Console.Edit.{Typing, Refines, visible}
use p2b.Console.Keys.{edits, asks_listing, consoleintr_lem}
use p2b.Console.Read.{ReadMeans, consoleread_lem}

-- "hi" and a newline are to be read, and "a" is being edited.
abbrev typing_a : Console
typing_a = record {
  buf = update (update (update (update (λ _. 0) 126 104) 127 105) 0 10) 1 97;
  r = 4294967294;
  w = 1;
  e = 2;
  shown = 97 ∷ [];
  wakeups = 1;
}

abbrev line_a : Typing
line_a = record { queue = 104 ∷ 105 ∷ 10 ∷ []; line = 97 ∷ []; above = [] }

typing_a-Holds : Holds typing_a (104 ∷ 105 ∷ 10 ∷ []) (97 ∷ [])
typing_a-Holds = record {
  reads = omega arith;
  writes = refl;
  edits = refl;
  room = omega arith;
  bytes = refl;
  plain = (((λ e. omega arith), λ e. omega arith), tt);
  open_line = inr (omega arith);
}

typing_a-Refines : Refines typing_a line_a
unfolding visible
typing_a-Refines = record { holds = typing_a-Holds; screen = refl }

-- 'b', ^H and '\r'.
consoleintr_lem_example :
    (s' : Console) × (consoleintr (98 ∷ 8 ∷ 13 ∷ []) false typing_a
      ≡ some (s', asks_listing (98 ∷ 8 ∷ 13 ∷ [])))
    × Refines s' (edits (98 ∷ 8 ∷ 13 ∷ []) line_a)
consoleintr_lem_example = consoleintr_lem (98 ∷ 8 ∷ 13 ∷ []) line_a (omega arith) typing_a-Refines

-- What the keys come to: the line "a" is to be read.
edited_lem : (edits (98 ∷ 8 ∷ 13 ∷ []) line_a).queue ≡ 104 ∷ 105 ∷ 10 ∷ 97 ∷ 10 ∷ []
unfolding edits
edited_lem = refl

consoleread_lem_example :
    ReadMeans false 8 8 (104 ∷ 105 ∷ 10 ∷ []) (97 ∷ []) (consoleread false 8 8 typing_a)
consoleread_lem_example = consoleread_lem false 8 8 (104 ∷ 105 ∷ 10 ∷ []) (97 ∷ []) typing_a-Holds
