-- ===== src/Shell/Fuel.antt =====
-- The parser of sh.c ends.
use p2b.Prelude.{
  ℕ, zero, suc, ◌+◌, ◌*◌, ◌<◌, ◌≤◌, ◌≡◌, ◌≢◌, ◌⊎◌, refl, true, List, [], ◌∷◌, ◌++◌, arith, length,
  ◌==◌, leb, Bool-cases, inl, inr,
}
use mathlib.Core.Path.{subst}
use p2b.Shell.{
  is_angle, ends_exec, maxargs, skip_space, Token, nothing, mark, into, append, word, gettoken,
  peek, Cmd, back, list, pipe, exec, Parse, ok, panic, no_fuel, ◌>>=◌, Redirection, redirection,
  file_name, redirs, parseredirs, Simple, take_token, arguments, parsesimple, backs, parseline,
  parsepipe, parseexec, parseblock, enough, finish, parsecmd, wrap,
}
use p2b.Shell.Lexer.{length-skip_space, length-gettoken-peek, length-gettoken-word, length-gettoken}

-- Fuel was left, and the result leaves `n` characters at most.
abbrev pub Ends {ℓ} : {A : Type ℓ} → ℕ → Parse A → Type 0
Ends n (ok a s) = length s ≤ n
Ends n panic = Unit
Ends n no_fuel = ⊥

module _ {ℓ κ} {A : Type ℓ} {B : Type κ} where
  Ends-bind :
      (n m : ℕ) (p : Parse A) (f : A → List ℕ → Parse B)
      → Ends n p
      → ((a : A) (s : List ℕ) → length s ≤ n → Ends m (f a s))
      → Ends m (p >>= f)
  Ends-bind n m (ok a s) f e g = g a s e
  Ends-bind n m panic f e g = tt
  Ends-bind n m no_fuel f e g = e

Ends-le {ℓ} : {A : Type ℓ} (n m : ℕ) (p : Parse A) → n ≤ m → Ends n p → Ends m p
Ends-le n m (ok a s) le e = omega arith
Ends-le n m panic le e = tt
Ends-le n m no_fuel le e = e

file_name-Ends :
    (n : ℕ) (t : Token × List ℕ) → (t.0 ≢ nothing → length t.1 ≤ n) → Ends n (file_name t)
file_name-Ends n (word w, s) h = h (λ e. cc)
file_name-Ends n (nothing, s) h = tt
file_name-Ends n (mark c, s) h = tt
file_name-Ends n (into, s) h = tt
file_name-Ends n (append, s) h = tt

Ends-redirs :
    (fuel : ℕ) (rs : List Redirection) (s : List ℕ)
    → length s < fuel
    → Ends (length s) (redirs fuel rs s)
unfolding redirs
Ends-redirs zero rs s h = absurd (omega arith)
Ends-redirs (suc fuel) rs s h = elim (Bool-cases (peek is_angle (skip_space s))) [
  | inr none ↦ rw (none, redirs) (length-skip_space s)
  | inl some ↦
      rw (some, redirs)
        (Ends-bind (length (gettoken s).1) (length s) (file_name (gettoken (gettoken s).1)) _
          (file_name-Ends (length (gettoken s).1) (gettoken (gettoken s).1)
            (λ t. omega (arith, length-gettoken-word (gettoken s).1 t)))
          (λ file s2 le.
            Ends-le (length s2) (length s) _ (omega (arith, length-gettoken-peek is_angle s some)) (
              Ends-redirs fuel (rs ++ redirection (gettoken s).0 file) s2
                (omega (arith, length-gettoken-peek is_angle s some)))))
]

Ends-parseredirs : (rs : List Redirection) (s : List ℕ) → Ends (length s) (parseredirs rs s)
unfolding parseredirs
Ends-parseredirs rs s = Ends-redirs (suc (length s)) rs s (omega arith)

Ends-take_token :
    (n : ℕ) (again : Simple → List ℕ → Parse Simple) (sofar : Simple) (t : Token × List ℕ)
    → ((sofar : Simple) (s : List ℕ) → length s < n → Ends (length s) (again sofar s))
    → (t.0 ≢ nothing → length t.1 < n)
    → length t.1 ≤ n
    → Ends n (take_token again sofar t.0 t.1)
unfolding take_token
Ends-take_token n again sofar (nothing, s) h less le = le
Ends-take_token n again sofar (mark c, s) h less le = tt
Ends-take_token n again sofar (into, s) h less le = tt
Ends-take_token n again sofar (append, s) h less le = tt
Ends-take_token n again (argv, rs) (word w, s) h less le =
    let below : length s < n = less (λ e. cc) in
    elim (Bool-cases (leb maxargs (length (argv ++ w ∷ [])))) [
      | inl many ↦ rw (many, take_token) tt
      | inr few ↦
          rw (few, take_token)
            (Ends-bind (length s) n (parseredirs rs s) (λ rs1 s1. again (argv ++ w ∷ [], rs1) s1)
              (Ends-parseredirs rs s)
              (λ rs1 s1 le1.
                Ends-le (length s1) n (again (argv ++ w ∷ [], rs1) s1) (omega arith)
                  (h (argv ++ w ∷ [], rs1) s1 (omega arith))))
    ]

Ends-arguments :
    (fuel : ℕ) (sofar : Simple) (s : List ℕ)
    → length s < fuel
    → Ends (length s) (arguments fuel sofar s)
unfolding arguments
Ends-arguments zero sofar s h = absurd (omega arith)
Ends-arguments (suc fuel) sofar s h = elim (Bool-cases (peek ends_exec (skip_space s))) [
  | inl end ↦ rw (end, arguments) (length-skip_space s)
  | inr more ↦
      rw (more, arguments)
        (Ends-take_token (length s) (arguments fuel) sofar (gettoken s)
          (λ next s1 less. Ends-arguments fuel next s1 (omega arith)) (length-gettoken-word s)
          (length-gettoken s))
]

Ends-parsesimple : (s : List ℕ) → Ends (length s) (parsesimple s)
unfolding parsesimple
Ends-parsesimple s =
    Ends-bind (length s) (length s) (parseredirs [] s) _ (Ends-parseredirs [] s) (λ rs s1 le.
      Ends-bind (length s) (length s) (arguments (suc (length s1)) ([], rs) s1)
        (λ done s2. ok (wrap (exec done.0) done.1) s2)
        (Ends-le (length s1) (length s) (arguments (suc (length s1)) ([], rs) s1) le
          (Ends-arguments (suc (length s1)) ([], rs) s1 (omega arith)))
        (λ done s2 le2. le2))

Ends-backs :
    (fuel : ℕ) (cmd : Cmd) (s : List ℕ) → length s < fuel → Ends (length s) (backs fuel cmd s)
unfolding backs
Ends-backs zero cmd s h = absurd (omega arith)
Ends-backs (suc fuel) cmd s h = elim (Bool-cases (peek (λ c. c == 38) (skip_space s))) [
  | inl more ↦
      rw (more, backs)
        (Ends-le (length (gettoken s).1) (length s) _ (length-gettoken s) (
          Ends-backs fuel (back cmd) (gettoken s).1
            (omega (arith, length-gettoken-peek (λ c. c == 38) s more))))
  | inr none ↦ rw (none, backs) (length-skip_space s)
]

-- With fuel for the characters that are left and for the level of the grammar, each function ends.
mutual
  unfolding parseline parsepipe parseexec parseblock

  Ends-parseline :
      (fuel : ℕ) (s : List ℕ) → 4 * length s + 3 < fuel → Ends (length s) (parseline fuel s)
  Ends-parseline zero s h = absurd (omega arith)
  Ends-parseline (suc fuel) s h =
      Ends-bind (length s) (length s) (parsepipe fuel s) _ (Ends-parsepipe fuel s (omega arith))
        (λ first s1 le.
          Ends-bind (length s) (length s) (backs (suc (length s1)) first s1) _
            (Ends-le (length s1) (length s) (backs (suc (length s1)) first s1) le
              (Ends-backs (suc (length s1)) first s1 (omega arith)))
            (λ cmd s2 le2. elim (Bool-cases (peek (λ c. c == 59) (skip_space s2))) [
              | inr none ↦ rw none (omega (arith, length-skip_space s2))
              | inl some ↦ rw some (
                  let less : length (gettoken s2).1 < length s =
                    omega (arith, length-gettoken-peek (λ c. c == 59) s2 some) in
                  Ends-bind (length (gettoken s2).1) (length s) (parseline fuel (gettoken s2).1)
                    (λ rest s3. ok (list cmd rest) s3)
                    (Ends-parseline fuel (gettoken s2).1 (omega arith))
                    (λ rest s3 le3. omega arith))
            ]))

  Ends-parsepipe :
      (fuel : ℕ) (s : List ℕ) → 4 * length s + 2 < fuel → Ends (length s) (parsepipe fuel s)
  Ends-parsepipe zero s h = absurd (omega arith)
  Ends-parsepipe (suc fuel) s h =
      Ends-bind (length s) (length s) (parseexec fuel s) _ (Ends-parseexec fuel s (omega arith))
        (λ cmd s1 le. elim (Bool-cases (peek (λ c. c == 124) (skip_space s1))) [
          | inr none ↦ rw none (omega (arith, length-skip_space s1))
          | inl some ↦ rw some (
              let less : length (gettoken s1).1 < length s =
                omega (arith, length-gettoken-peek (λ c. c == 124) s1 some) in
              Ends-bind (length (gettoken s1).1) (length s) (parsepipe fuel (gettoken s1).1)
                (λ rest s2. ok (pipe cmd rest) s2)
                (Ends-parsepipe fuel (gettoken s1).1 (omega arith)) (λ rest s2 le2. omega arith))
        ])

  Ends-parseexec :
      (fuel : ℕ) (s : List ℕ) → 4 * length s + 1 < fuel → Ends (length s) (parseexec fuel s)
  Ends-parseexec zero s h = absurd (omega arith)
  Ends-parseexec (suc fuel) s h = elim (Bool-cases (peek (λ c. c == 40) (skip_space s))) [
    | inl open_bracket ↦
        rw (open_bracket, parseexec) (Ends-parseblock fuel s open_bracket (omega arith))
    | inr plain ↦ rw (plain, parseexec) (Ends-parsesimple s)
  ]

  Ends-parseblock :
      (fuel : ℕ) (s : List ℕ)
      → peek (λ c. c == 40) (skip_space s) ≡ true
      → 4 * length s < fuel
      → Ends (length s) (parseblock fuel s)
  Ends-parseblock zero s open_bracket h = absurd (omega arith)
  Ends-parseblock (suc fuel) s open_bracket h =
      let less : length (gettoken s).1 < length s =
        length-gettoken-peek (λ c. c == 40) s open_bracket in
      Ends-bind (length (gettoken s).1) (length s) (parseline fuel (gettoken s).1) _
        (Ends-parseline fuel (gettoken s).1 (omega arith))
        (λ cmd s1 le. elim (Bool-cases (peek (λ c. c == 41) (skip_space s1))) [
          | inr none ↦ rw none tt
          | inl some ↦ rw some (
              Ends-bind (length (gettoken s1).1) (length s) (parseredirs [] (gettoken s1).1)
                (λ rs s2. ok (wrap cmd rs) s2) (Ends-parseredirs [] (gettoken s1).1)
                (λ rs s2 le2. omega (arith, length-gettoken s1)))
        ])

parseline-enough : (s : List ℕ) → parseline (enough s) s ≢ no_fuel
parseline-enough s e = subst (Ends (length s)) e (Ends-parseline (enough s) s (omega arith))

-- Whatever the text of a command line is, the parser ends: with a command that uses up the text, or with a
-- panic.
pub parsecmd_total : (s : List ℕ) → ((cmd : Cmd) × (parsecmd s ≡ ok cmd [])) ⊎ (parsecmd s ≡ panic)
unfolding parsecmd
parsecmd_total s = ends (parseline (enough s) s) (parseline-enough s)
  where
    leftovers :
        (cmd : Cmd) (rest : List ℕ)
        → ((c : Cmd) × (finish cmd rest ≡ ok c [])) ⊎ (finish cmd rest ≡ panic)
    leftovers cmd [] = inl (cmd, refl)
    leftovers cmd (c ∷ r) = inr refl

    ends :
        (p : Parse Cmd)
        → p ≢ no_fuel
        → ((cmd : Cmd) × ((p >>= λ cmd s1. finish cmd (skip_space s1)) ≡ ok cmd []))
          ⊎ ((p >>= λ cmd s1. finish cmd (skip_space s1)) ≡ panic)
    ends (ok cmd s1) h = leftovers cmd (skip_space s1)
    ends panic h = inr refl
    ends no_fuel h = absurd (h refl)
