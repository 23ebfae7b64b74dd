-- ===== src/Shell/Words.antt =====
-- A command line of words for the parser of sh.c.
use p2b.Prelude.{
  ℕ, zero, suc, ◌+◌, ◌*◌, ◌<◌, ◌≤◌, ◌≡◌, refl, ap, sym, ◌∙◌, true, false, List, [], ◌∷◌, ◌++◌,
  arith, length, length-append, leb, ◌==◌, All,
}
use mathlib.Core.List.{append-nil, append_assoc}
use p2b.Shell.{
  is_space, is_mark, greater, in_word, is_angle, ends_exec, maxargs, skip_space, word_part,
  skip_word, word, token_at, gettoken, peek, exec, Parse, ok, redirs, parseredirs, Redirection,
  take_token, arguments, parsesimple, backs, parseline, parsepipe, parseexec, enough, finish,
  parsecmd,
}

-- A first character and others, none of them a space or a symbol.
pub record Word : Type 0 where
  pub first : ℕ
  pub others : List ℕ
  pub plain : in_word first ≡ true
  pub plains : All (λ c. in_word c ≡ true) others

abbrev pub chars : Word → List ℕ
chars w = w.first ∷ w.others

-- Each word with a space behind it.
abbrev pub text : List Word → List ℕ
text [] = []
text (w ∷ ws) = chars w ++ 32 ∷ text ws

abbrev pub argv_of : List Word → List (List ℕ)
argv_of [] = []
argv_of (w ∷ ws) = chars w ∷ argv_of ws

word_part-text : (l s : List ℕ) → All (λ c. in_word c ≡ true) l → word_part (l ++ 32 ∷ s) ≡ l
unfolding word_part
word_part-text [] s h = refl
word_part-text (c ∷ l) s h = rw (h.0) (ap (λ t. c ∷ t) (word_part-text l s h.1))

skip_word-text : (l s : List ℕ) → All (λ c. in_word c ≡ true) l → skip_word (l ++ 32 ∷ s) ≡ 32 ∷ s
unfolding skip_word
skip_word-text [] s h = refl
skip_word-text (c ∷ l) s h = rw (h.0) (skip_word-text l s h.1)

no_mark : (c : ℕ) → in_word c ≡ true → is_mark c ≡ false
no_mark c h = ground arith

no_greater : (c : ℕ) → in_word c ≡ true → (c == greater) ≡ false
no_greater c h = ground arith

no_space : (c : ℕ) → in_word c ≡ true → is_space c ≡ false
no_space c h = ground arith

no_angle : (c : ℕ) → in_word c ≡ true → is_angle c ≡ false
no_angle c h = ground arith

no_end : (c : ℕ) → in_word c ≡ true → ends_exec c ≡ false
no_end c h = ground arith

skip_space-text : (ws : List Word) → skip_space (text ws) ≡ text ws
unfolding skip_space
skip_space-text [] = refl
skip_space-text (w ∷ ws) = rw (no_space w.first w.plain) refl

token_at-word :
    (c : ℕ) (u : List ℕ) (d : ℕ) (v : List ℕ)
    → in_word c ≡ true
    → u ≡ d ∷ v
    → token_at (c ∷ d ∷ v) ≡ (word (c ∷ word_part u), skip_word u)
unfolding token_at
token_at-word c u d v h e = rw (e, no_mark c h, no_greater c h, token_at) refl

token_at-text : (w : Word) (s : List ℕ) → token_at (chars w ++ 32 ∷ s) ≡ (word (chars w), 32 ∷ s)
token_at-text w s = go w.others w.plains
  where
    go :
        (l : List ℕ)
        → All (λ c. in_word c ≡ true) l
        → token_at (w.first ∷ (l ++ 32 ∷ s)) ≡ (word (w.first ∷ l), 32 ∷ s)
    go [] h =
        token_at-word w.first (32 ∷ s) 32 s w.plain refl
        ∙ rw (word_part-text [] s h, skip_word-text [] s h) refl
    go (d ∷ l) h =
        token_at-word w.first (d ∷ (l ++ 32 ∷ s)) d (l ++ 32 ∷ s) w.plain refl
        ∙ rw (word_part-text (d ∷ l) s h, skip_word-text (d ∷ l) s h) refl

gettoken-text : (w : Word) (ws : List Word) → gettoken (text (w ∷ ws)) ≡ (word (chars w), text ws)
unfolding gettoken skip_space
gettoken-text w ws =
    rw (no_space w.first w.plain, token_at-text w (text ws))
      (ap (λ s. (word (chars w), s)) (skip_space-text ws))

no_redirection : (ws : List Word) → peek is_angle (skip_space (text ws)) ≡ false
unfolding peek
no_redirection [] = rw (skip_space-text []) refl
no_redirection (w ∷ ws) = rw (skip_space-text (w ∷ ws)) (no_angle w.first w.plain)

parseredirs-text :
    (rs : List Redirection) (ws : List Word) → parseredirs rs (text ws) ≡ ok rs (text ws)
unfolding parseredirs redirs
parseredirs-text rs ws = rw (no_redirection ws, redirs) (ap (ok rs) (skip_space-text ws))

-- One word more, with room for it.
take_token-word :
    (again : List (List ℕ) × List Redirection → List ℕ → Parse (List (List ℕ) × List Redirection))
    (argv : List (List ℕ)) (w : List ℕ) (ws : List Word)
    → length argv + 1 < maxargs
    → take_token again (argv, []) (word w) (text ws) ≡ again (argv ++ w ∷ [], []) (text ws)
unfolding take_token
take_token-word again argv w ws lt =
    let room : leb maxargs (length (argv ++ w ∷ [])) ≡ false =
      ground (arith, length-append argv (w ∷ [])) in
    rw (room, take_token, parseredirs-text [] ws) refl

arguments-step :
    (fuel : ℕ) (sofar : List (List ℕ) × List Redirection) (s : List ℕ)
    → peek ends_exec (skip_space s) ≡ false
    → arguments (suc fuel) sofar s ≡ take_token (arguments fuel) sofar (gettoken s).0 (gettoken s).1
unfolding arguments
arguments-step fuel sofar s more = rw (more, arguments) refl

no_words : (fuel : ℕ) (argv : List (List ℕ)) → arguments (suc fuel) (argv, []) [] ≡ ok (argv, []) []
unfolding arguments
no_words fuel argv = refl

more_words : (w : Word) (ws : List Word) → peek ends_exec (skip_space (text (w ∷ ws))) ≡ false
unfolding peek
more_words w ws = rw (skip_space-text (w ∷ ws)) (no_end w.first w.plain)

arguments-text :
    (fuel : ℕ) (argv : List (List ℕ)) (ws : List Word)
    → length ws < fuel
    → length argv + length ws < maxargs
    → arguments fuel (argv, []) (text ws) ≡ ok (argv ++ argv_of ws, []) []
arguments-text zero argv ws lt few = absurd (omega arith)
arguments-text (suc fuel) argv [] lt few =
    no_words fuel argv ∙ ap (λ l. ok (l, []) []) (sym (append-nil argv))
arguments-text (suc fuel) argv (w ∷ ws) lt few =
    arguments-step fuel (argv, []) (text (w ∷ ws)) (more_words w ws)
    ∙ ap (λ g. take_token (arguments fuel) (argv, []) g.0 g.1) (gettoken-text w ws)
    ∙ take_token-word (arguments fuel) argv (chars w) ws (omega arith)
    ∙ arguments-text fuel (argv ++ chars w ∷ []) ws (omega arith)
        (omega (arith, length-append argv (chars w ∷ [])))
    ∙ ap (λ l. ok (l, []) []) (append_assoc argv (chars w ∷ []) (argv_of ws))

length-text : (ws : List Word) → length ws ≤ length (text ws)
length-text [] = omega arith
length-text (w ∷ ws) = omega (arith, length-text ws, length-append w.others (32 ∷ text ws))

parsesimple-text :
    (ws : List Word) → length ws < maxargs → parsesimple (text ws) ≡ ok (exec (argv_of ws)) []
unfolding parsesimple
parsesimple-text ws few =
    rw
      (
        parseredirs-text [] ws,
        arguments-text (suc (length (text ws))) [] ws (omega (arith, length-text ws)) (omega arith),
      )
      refl

no_block : (c : ℕ) → in_word c ≡ true → (c == 40) ≡ false
no_block c h = ground arith

no_bracket : (ws : List Word) → peek (λ c. c == 40) (skip_space (text ws)) ≡ false
unfolding peek
no_bracket [] = rw (skip_space-text []) refl
no_bracket (w ∷ ws) = rw (skip_space-text (w ∷ ws)) (no_block w.first w.plain)

parseexec-text :
    (fuel : ℕ) (ws : List Word)
    → length ws < maxargs
    → parseexec (suc fuel) (text ws) ≡ ok (exec (argv_of ws)) []
unfolding parseexec
parseexec-text fuel ws few = rw (no_bracket ws, parseexec) (parsesimple-text ws few)

parseline-text :
    (fuel : ℕ) (ws : List Word)
    → length ws < maxargs
    → parseline (suc (suc (suc fuel))) (text ws) ≡ ok (exec (argv_of ws)) []
unfolding parseline parsepipe backs skip_space peek
parseline-text fuel ws few = rw (parseexec-text fuel ws few) refl

-- A command line of fewer than ten words, each with a space behind it, is parsed as the command with just
-- these words as its arguments.
pub parsecmd-text :
    (ws : List Word) → length ws < maxargs → parsecmd (text ws) ≡ ok (exec (argv_of ws)) []
unfolding parsecmd finish skip_space
parsecmd-text ws few =
    let e : enough (text ws) ≡ suc (suc (suc (4 * length (text ws) + 1))) = omega arith in
    rw (e, parseline-text (4 * length (text ws) + 1) ws few) refl
