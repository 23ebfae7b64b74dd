-- ===== src/Console/Read.antt =====
-- `consoleread` of console.c, on the queue of bytes.
use p2b.Prelude.{
  ℕ, zero, suc, ◌+◌, ◌<◌, ◌≤◌, ◌≡◌, refl, ap, Bool, true, false, List, [], ◌∷◌, arith, length, All,
  ◌==◌, ltb, if◌then◌else◌, Bool-cases, inl, inr,
}
use mathlib.Core.Path.{subst}
use p2b.Console.{
  Console, newline, ctrl_d, next_char, drop_char, Reading, got, interrupted, sleeps, after,
  consoleread,
}
use p2b.Console.Line.{Holds, IsPlain, drop_char-Holds}

-- A read with `n` of `target` bytes left takes `out` from the queue `q` and leaves `rest`: up to `n`
-- bytes, to a newline, or to a ^D, which is taken only if it is the first byte of the read.
pub data Takes (target : ℕ) : (n : ℕ) (q out rest : List ℕ) → Type 0 where
  enough : (q : List ℕ) → Takes target zero q [] q
  at_newline : (n : ℕ) (q : List ℕ) → Takes target (suc n) (newline ∷ q) (newline ∷ []) q
  at_eof : (n : ℕ) (q : List ℕ) → target ≤ suc n → Takes target (suc n) (ctrl_d ∷ q) [] q
  before_eof :
      (n : ℕ) (q : List ℕ) → suc n < target → Takes target (suc n) (ctrl_d ∷ q) [] (ctrl_d ∷ q)
  one_more :
      (n c : ℕ) (q out rest : List ℕ)
      → IsPlain c
      → Takes target n q out rest
      → Takes target (suc n) (c ∷ q) (c ∷ out) rest

-- What `consoleread` comes to on the queue `q`. A read that sleeps has the whole queue, with no newline
-- or ^D in it, and is still short of `n`; so is one that a kill interrupts, whose bytes are lost.
abbrev pub ReadMeans : (killed : Bool) (target n : ℕ) (q line : List ℕ) → Reading → Type 0
ReadMeans killed target n q line (got out s) =
    (rest : List ℕ) × Takes target n q out rest × Holds s rest line
ReadMeans killed target n q line (sleeps out left s) =
    (out ≡ q)
    × (length q + left ≡ n)
    × (0 < left)
    × All IsPlain q
    × Holds s [] line
    × (killed ≡ false)
ReadMeans killed target n q line (interrupted s) =
    (length q < n) × All IsPlain q × Holds s [] line × (killed ≡ true)

after-ReadMeans :
    (killed : Bool) (target n c : ℕ) (q line : List ℕ) (o : Reading)
    → IsPlain c
    → ReadMeans killed target n q line o
    → ReadMeans killed target (suc n) (c ∷ q) line (after c o)
unfolding after
after-ReadMeans killed target n c q line (got out s) p (rest, takes, holds) =
    (rest, one_more n c q out rest p takes, holds)
after-ReadMeans killed target n c q line (sleeps out left s) p (e, l, pos, plain, holds, k) =
    (ap (λ t. c ∷ t) e, omega arith, pos, (p, plain), holds, k)
after-ReadMeans killed target n c q line (interrupted s) p (l, plain, holds, k) =
    (omega arith, (p, plain), holds, k)

is_drained : {s : Console} {line : List ℕ} → Holds s [] line → (s.r == s.w) ≡ true
is_drained h = ground (arith, h.writes, h.reads)

is_drained-cons :
    {s : Console} {c : ℕ} {q line : List ℕ} → Holds s (c ∷ q) line → (s.r == s.w) ≡ false
is_drained-cons h = ground (arith, h.writes, h.reads, h.room)

no_bytes :
    (killed : Bool) (target n : ℕ) (s : Console) (line : List ℕ)
    → Holds s [] line
    → ReadMeans killed target
        (suc n)
        []
        line
        (if killed then interrupted s else sleeps [] (suc n) s)
no_bytes true target n s line h = (omega arith, tt, h, refl)
no_bytes false target n s line h = (refl, omega arith, omega arith, tt, h, refl)

-- The end of file, taken or left.
eof-ReadMeans :
    (killed : Bool) (target n : ℕ) (s : Console) (q line : List ℕ)
    → Holds s (ctrl_d ∷ q) line
    → ReadMeans killed target
        (suc n)
        (ctrl_d ∷ q)
        line
        (got [] (if ltb (suc n) target then s else drop_char s))
eof-ReadMeans killed target n s q line h = elim (Bool-cases (ltb (suc n) target)) [
  | inl later ↦ rw later (ctrl_d ∷ q, before_eof n q (ground arith), h)
  | inr first ↦ rw first (q, at_eof n q (ground arith), (drop_char-Holds ctrl_d q line h).1)
]

step_zero : (killed : Bool) (target : ℕ) (s : Console) → consoleread killed target zero s ≡ got [] s
unfolding consoleread
step_zero killed target s = refl

step_empty :
    (killed : Bool) (target n : ℕ) (s : Console)
    → (s.r == s.w) ≡ true
    → consoleread killed target (suc n) s ≡ (if killed then interrupted s else sleeps [] (suc n) s)
unfolding consoleread
step_empty killed target n s e = rw e

module _ (killed : Bool) (target n : ℕ) (s : Console) (c : ℕ) (some_left : (s.r == s.w) ≡ false)
    (first : next_char s ≡ c) where
  step_eof :
      (c == ctrl_d) ≡ true
      → consoleread killed target (suc n) s ≡ got [] (if ltb (suc n) target then s else drop_char s)
  unfolding consoleread
  step_eof e = rw (some_left, first, e)

  step_newline :
      (c == ctrl_d) ≡ false
      → (c == newline) ≡ true
      → consoleread killed target (suc n) s ≡ got (c ∷ []) (drop_char s)
  unfolding consoleread after
  step_newline e f = rw (some_left, first, e, f)

  step_more :
      (c == ctrl_d) ≡ false
      → (c == newline) ≡ false
      → consoleread killed target (suc n) s ≡ after c (consoleread killed target n (drop_char s))
  unfolding consoleread
  step_more e f = rw (some_left, first, e, f)

-- A read from the console takes bytes from the queue in order and leaves the others and the line that is
-- being edited: up to `n`, to the end of a line, or to a ^D, which is left for the next read if there are
-- bytes before it. It sleeps, or fails if the reader is killed, just when the queue runs out first; the
-- bytes that a sleeping read has are those of the queue, and those of a killed one are lost.
pub consoleread_lem :
    (killed : Bool) (target n : ℕ) {s : Console} (q line : List ℕ)
    → Holds s q line
    → ReadMeans killed target n q line (consoleread killed target n s)
consoleread_lem killed target zero {s} q line h = rw (step_zero killed target s) (q, enough q, h)
consoleread_lem killed target (suc n) {s} [] line h =
    rw (step_empty killed target n s (is_drained h)) (no_bytes killed target n s line h)
consoleread_lem killed target (suc n) {s} (c ∷ q) line h =
    let some_left = is_drained-cons h in
    let (first, tail) = drop_char-Holds c q line h in
    elim (Bool-cases (c == ctrl_d)) [
      | inl eof ↦ rw (step_eof killed target n s c some_left first eof) (
          subst
            (λ d.
              ReadMeans killed target (suc n) (d ∷ q) line
                (got [] (if ltb (suc n) target then s else drop_char s)))
            (ground arith)
            (eof-ReadMeans killed target n s q line
              (subst (λ d. Holds s (d ∷ q) line) (ground arith) h)))
      | inr more ↦ elim (Bool-cases (c == newline)) [
        | inl end ↦ rw (step_newline killed target n s c some_left first more end) (
          q,
          subst (λ d. Takes target (suc n) (d ∷ q) (d ∷ []) q) (ground arith) (at_newline n q),
          tail,
        )
        | inr other ↦ rw (step_more killed target n s c some_left first more other) (
            after-ReadMeans killed target n c q line (consoleread killed target n (drop_char s))
              ((λ e. ground arith), λ e. ground arith)
              (consoleread_lem killed target n q line tail))
      ]
    ]
