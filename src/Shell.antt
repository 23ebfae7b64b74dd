-- ===== src/Shell.antt =====
-- sh.c: the parser of command lines. A C string is the list of its characters, without the 0 at its end,
-- and a position in it is the rest of the string. A word is the text from `q` to `eq`, which `nulterminate`
-- makes a string of its own. `malloc` is taken not to fail.
pub mod Lexer
pub mod Fuel
pub mod Words
use p2b.Prelude.{
  ℕ, zero, suc, ◌+◌, ◌*◌, ◌-◌, Bool, true, false, not, ◌&&◌, ◌||◌, List, [], ◌∷◌, ◌++◌, ◌==◌, ltb,
  leb, if◌then◌else◌, length,
}

-- " \t\r\n\v"
abbrev pub is_space : ℕ → Bool
is_space c = c == 32 || c == 9 || c == 13 || c == 10 || c == 11

-- "|();&<", each a token by itself.
abbrev pub is_mark : ℕ → Bool
is_mark c = c == 124 || c == 40 || c == 41 || c == 59 || c == 38 || c == 60

-- '>'
abbrev pub greater : ℕ
greater = 62

-- "<|>&;()"
abbrev pub is_symbol : ℕ → Bool
is_symbol c = is_mark c || c == greater

pub skip_space : List ℕ → List ℕ
skip_space [] = []
skip_space (c ∷ s) = if is_space c then skip_space s else c ∷ s

abbrev pub in_word : ℕ → Bool
in_word c = not (is_space c) && not (is_symbol c)

-- The characters of a word, and what follows.
pub word_part : List ℕ → List ℕ
word_part [] = []
word_part (c ∷ s) = if in_word c then c ∷ word_part s else []

pub skip_word : List ℕ → List ℕ
skip_word [] = []
skip_word (c ∷ s) = if in_word c then skip_word s else c ∷ s

-- What `gettoken` returns: 0 at the end, a mark, '>', '+' for ">>", and 'a' for a word.
pub data Token : Type 0 where
  nothing : Token
  mark : ℕ → Token
  into : Token
  append : Token
  word : List ℕ → Token

-- The token at a character that is no space.
pub token_at : List ℕ → Token × List ℕ
token_at [] = (nothing, [])
token_at (c ∷ []) =
    if is_mark c then (mark c, []) else if c == greater then (into, []) else (word (c ∷ []), [])
token_at (c ∷ d ∷ s) =
    if is_mark c
    then (mark c, d ∷ s)
    else if c == greater
    then (if d == greater then (append, s) else (into, d ∷ s))
    else (word (c ∷ word_part (d ∷ s)), skip_word (d ∷ s))

pub gettoken : List ℕ → Token × List ℕ
unfolding skip_space token_at word_part skip_word
gettoken s = let (t, rest) = token_at (skip_space s) in (t, skip_space rest)

-- Is the next character one of `toks`?
pub peek : (ℕ → Bool) → List ℕ → Bool
peek toks [] = false
peek toks (c ∷ s) = toks c

abbrev pub read_only : ℕ
read_only = 0

-- O_WRONLY | O_CREATE
abbrev pub write_create : ℕ
write_create = 513

pub data Cmd : Type 0 where
  exec : (argv : List (List ℕ)) → Cmd
  redir : Cmd → (file : List ℕ) → (mode fd : ℕ) → Cmd
  pipe : Cmd → Cmd → Cmd
  list : Cmd → Cmd → Cmd
  back : Cmd → Cmd

-- A value with the rest of the text, a panic, or no more fuel.
pub data Parse {ℓ} (A : Type ℓ) : Type ℓ where
  ok : A → List ℕ → Parse A
  panic : Parse A
  no_fuel : Parse A

infixl 5 ◌>>=◌
abbrev pub ◌>>=◌ {ℓ κ} : {A : Type ℓ} {B : Type κ} → Parse A → (A → List ℕ → Parse B) → Parse B
ok a s >>= f = f a s
panic >>= f = panic
no_fuel >>= f = no_fuel

-- A redirection, around the command that it is for.
pub record Redirection : Type 0 where
  pub file : List ℕ
  pub mode : ℕ
  pub fd : ℕ

abbrev pub wrap : Cmd → List Redirection → Cmd
wrap cmd [] = cmd
wrap cmd (r ∷ rs) = wrap (redir cmd r.file r.mode r.fd) rs

-- Which redirection a token is; after `peek` it is one.
abbrev pub redirection : Token → List ℕ → List Redirection
redirection (mark c) file = record { file = file; mode = read_only; fd = 0 } ∷ []
redirection into file = record { file = file; mode = write_create; fd = 1 } ∷ []
redirection append file = record { file = file; mode = write_create; fd = 1 } ∷ []
redirection nothing file = []
redirection (word w) file = []

abbrev pub file_name : Token × List ℕ → Parse (List ℕ)
file_name (word w, s) = ok w s
file_name (nothing, s) = panic
file_name (mark c, s) = panic
file_name (into, s) = panic
file_name (append, s) = panic

abbrev pub is_angle : ℕ → Bool
is_angle c = c == 60 || c == greater

-- `parseredirs`: the redirections, the inner ones first.
pub redirs : ℕ → List Redirection → List ℕ → Parse (List Redirection)
unfolding gettoken skip_space peek
redirs zero rs s = no_fuel
redirs (suc fuel) rs s = elim (peek is_angle (skip_space s)) [
  | false ↦ ok rs (skip_space s)
  | true ↦
      let (tok, s1) = gettoken s in
      file_name (gettoken s1) >>= λ file s2. redirs fuel (rs ++ redirection tok file) s2
]

pub parseredirs : List Redirection → List ℕ → Parse (List Redirection)
unfolding redirs
parseredirs rs s = redirs (suc (length s)) rs s

abbrev pub maxargs : ℕ
maxargs = 10

-- "|)&;"
abbrev pub ends_exec : ℕ → Bool
ends_exec c = c == 124 || c == 41 || c == 38 || c == 59

-- The arguments and the redirections so far.
abbrev pub Simple : Type 0
Simple = List (List ℕ) × List Redirection

-- What the loop of `parseexec` does with a token, where `again` is the loop from there.
pub take_token : (again : Simple → List ℕ → Parse Simple) → Simple → Token → List ℕ → Parse Simple
unfolding parseredirs
take_token again sofar nothing s = ok sofar s
take_token again (argv, rs) (word w) s =
    let argv1 = argv ++ w ∷ [] in
    elim (leb maxargs (length argv1)) [
      | true ↦ panic
      | false ↦ parseredirs rs s >>= λ rs1 s1. again (argv1, rs1) s1
    ]
take_token again sofar (mark c) s = panic
take_token again sofar into s = panic
take_token again sofar append s = panic

-- The loop of `parseexec`.
pub arguments : ℕ → Simple → List ℕ → Parse Simple
unfolding take_token peek gettoken
arguments zero sofar s = no_fuel
arguments (suc fuel) sofar s = elim (peek ends_exec (skip_space s)) [
  | true ↦ ok sofar (skip_space s)
  | false ↦ let (tok, s1) = gettoken s in take_token (arguments fuel) sofar tok s1
]

-- `parseexec` of a command that does not start with '('.
pub parsesimple : List ℕ → Parse Cmd
unfolding parseredirs arguments
parsesimple s = parseredirs [] s >>= λ rs s1.
    arguments (suc (length s1)) ([], rs) s1 >>= λ done s2. ok (wrap (exec done.0) done.1) s2

-- The loop of `parseline` over '&'.
pub backs : ℕ → Cmd → List ℕ → Parse Cmd
unfolding peek gettoken
backs zero cmd s = no_fuel
backs (suc fuel) cmd s = elim (peek (λ c. c == 38) (skip_space s)) [
  | true ↦ backs fuel (back cmd) (gettoken s).1
  | false ↦ ok cmd (skip_space s)
]

unfoldable mutual
  unfolding parsesimple parseredirs backs peek gettoken

  pub parseline : ℕ → List ℕ → Parse Cmd
  parseline zero s = no_fuel
  parseline (suc fuel) s = parsepipe fuel s >>= λ first s1.
      backs (suc (length s1)) first s1 >>= λ cmd s2. elim (peek (λ c. c == 59) (skip_space s2)) [
        | true ↦ parseline fuel (gettoken s2).1 >>= λ rest s3. ok (list cmd rest) s3
        | false ↦ ok cmd (skip_space s2)
      ]

  pub parsepipe : ℕ → List ℕ → Parse Cmd
  parsepipe zero s = no_fuel
  parsepipe (suc fuel) s = parseexec fuel s >>= λ cmd s1.
      elim (peek (λ c. c == 124) (skip_space s1)) [
        | true ↦ parsepipe fuel (gettoken s1).1 >>= λ rest s2. ok (pipe cmd rest) s2
        | false ↦ ok cmd (skip_space s1)
      ]

  pub parseexec : ℕ → List ℕ → Parse Cmd
  parseexec zero s = no_fuel
  parseexec (suc fuel) s = elim (peek (λ c. c == 40) (skip_space s)) [
    | true ↦ parseblock fuel s
    | false ↦ parsesimple s
  ]

  -- After the `peek` of `parseexec`.
  pub parseblock : ℕ → List ℕ → Parse Cmd
  parseblock zero s = no_fuel
  parseblock (suc fuel) s = parseline fuel (gettoken s).1 >>= λ cmd s1.
      elim (peek (λ c. c == 41) (skip_space s1)) [
        | true ↦ parseredirs [] (gettoken s1).1 >>= λ rs s2. ok (wrap cmd rs) s2
        | false ↦ panic
      ]

-- Fuel for `parsecmd`.
abbrev pub enough : List ℕ → ℕ
enough s = 4 * length s + 4

-- Leftovers are a panic.
pub finish : Cmd → List ℕ → Parse Cmd
finish cmd [] = ok cmd []
finish cmd (c ∷ s) = panic

unfoldable pub parsecmd : List ℕ → Parse Cmd
unfolding parseline parsepipe parseexec parseblock finish
parsecmd s = parseline (enough s) s >>= λ cmd s1. finish cmd (skip_space s1)
