-- ===== src/Console.antt =====
-- console.c: the keys that `consoleintr` takes from `getc`, the line that they edit in the ring buffer
-- `input`, and `consoleread`. `r`, `w` and `e` are `uint` counters that wrap at 2 ^ 32. A key is a
-- byte. `shown` has what `consputc` got, the last first, and `wakeups` counts the calls of
-- wakeup(&input.r).
pub mod Line
pub mod Edit
pub mod Keys
pub mod Read
use p2b.Prelude.{
  ℕ, zero, suc, ◌+◌, ◌-◌, ◌%◌, ◌^◌, Bool, true, false, ◌&&◌, ◌||◌, not, Option, none, some, List,
  [], ◌∷◌, ◌==◌, ltb, if◌then◌else◌, update,
}

abbrev pub input_buf : ℕ
input_buf = 128

-- What `consputc` takes for a step back, 0x100.
abbrev pub backspace : ℕ
backspace = 256

abbrev pub newline : ℕ
newline = 10

-- C('D'), C('H'), C('P') and C('U').
abbrev pub ctrl_d : ℕ
ctrl_d = 4

abbrev pub ctrl_h : ℕ
ctrl_h = 8

abbrev pub ctrl_p : ℕ
ctrl_p = 16

abbrev pub ctrl_u : ℕ
ctrl_u = 21

pub record Console : Type 0 where
  pub buf : ℕ → ℕ
  pub r : ℕ
  pub w : ℕ
  pub e : ℕ
  pub shown : List ℕ
  pub wakeups : ℕ

-- `input` is zero at the start.
abbrev pub fresh : Console
fresh = record { buf = λ _. 0; r = 0; w = 0; e = 0; shown = []; wakeups = 0 }

-- input.e - 1
abbrev pub before : ℕ → ℕ
before e = (e + 4294967295) % 2 ^ 32

-- input.e--; consputc(BACKSPACE)
pub rub_out : Console → Console
rub_out s = record s { e = before s.e; shown = backspace ∷ s.shown }

-- The loop of C('U'); `none` when the fuel is out.
pub kill_line : ℕ → Console → Option Console
kill_line zero s = none
kill_line (suc fuel) s =
    let rest = kill_line fuel (rub_out s) in
    if s.e == s.w || s.buf (before s.e % input_buf) == newline then some s else rest

pub store_char : ℕ → Console → Console
store_char c s = record s {
  buf = update s.buf (s.e % input_buf) c;
  e = (s.e + 1) % 2 ^ 32;
  shown = c ∷ s.shown;
}

pub commit_line : Console → Console
commit_line s = record s { w = s.e; wakeups = s.wakeups + 1 }

abbrev pub ends_line : ℕ → Console → Bool
ends_line c s = c == newline || c == ctrl_d || s.e == (s.r + input_buf) % 2 ^ 32

pub enter_char : ℕ → Console → Console
unfolding store_char commit_line
enter_char c s = let s1 = store_char c s in if ends_line c s1 then commit_line s1 else s1

-- '\r' becomes '\n'.
abbrev pub no_return : ℕ → ℕ
no_return c = if c == 13 then newline else c

abbrev pub has_room : Console → Bool
has_room s = ltb ((s.e + 2 ^ 32 - s.r) % 2 ^ 32) input_buf

-- The default case of the switch.
pub type_char : ℕ → Console → Console
unfolding enter_char
type_char c s = if not (c == 0) && has_room s then enter_char (no_return c) s else s

-- The switch; a process listing is left to `consoleintr`.
pub press : ℕ → Console → Option Console
unfolding kill_line rub_out type_char
press c s =
    if c == ctrl_p
    then some s
    else if c == ctrl_u
    then kill_line (input_buf + 1) s
    else some
        (if c == ctrl_h || c == 127 then (if s.e == s.w then s else rub_out s) else type_char c s)

-- The keys that `getc` returns before a negative number; the result says too if `procdump` is called.
pub consoleintr : (keys : List ℕ) (dump : Bool) → Console → Option (Console × Bool)
unfolding press
consoleintr [] dump s = some (s, dump)
consoleintr (c ∷ keys) dump s = elim (press c s) [
  | none ↦ none
  | some s1 ↦ consoleintr keys (dump || c == ctrl_p) s1
]

-- What `consoleread` comes to: the bytes at `dst`, -1, or the bytes so far and the count that is left
-- when it sleeps.
pub data Reading : Type 0 where
  got : List ℕ → Console → Reading
  interrupted : Console → Reading
  sleeps : List ℕ → (left : ℕ) → Console → Reading

-- *dst++ = c
pub after : ℕ → Reading → Reading
after c (got cs s) = got (c ∷ cs) s
after c (interrupted s) = interrupted s
after c (sleeps cs left s) = sleeps (c ∷ cs) left s

pub next_char : Console → ℕ
next_char s = s.buf (s.r % input_buf)

pub drop_char : Console → Console
drop_char s = record s { r = (s.r + 1) % 2 ^ 32 }

-- The loop of `consoleread` for `target` bytes, with `n` left. Taking ^D back leaves the state as it was.
pub consoleread : (killed : Bool) (target n : ℕ) → Console → Reading
unfolding next_char drop_char after
consoleread killed target zero s = got [] s
consoleread killed target (suc n) s =
    let rest = consoleread killed target n (drop_char s) in
    if s.r == s.w
    then (if killed then interrupted s else sleeps [] (suc n) s)
    else if next_char s == ctrl_d
    then got [] (if ltb (suc n) target then s else drop_char s)
    else after (next_char s) (if next_char s == newline then got [] (drop_char s) else rest)
