-- ===== src/Files/Count.antt =====
-- How many descriptors there are for a file.
use p2b.Prelude.{
  update_here, update_other, ℕ, zero, suc, ◌+◌, ◌<◌, ◌≤◌, ◌≡◌, ◌≢◌, refl, ap, ◌∙◌, Option, none,
  some, arith, ◌==◌, if◌then◌else◌, update,
}
use native.Mathlib.Decide.{ℕ_discrete}
use p2b.Proc.{nproc, nofile}

-- g 0 + … + g (n - 1)
unfoldable pub sum : ℕ → (ℕ → ℕ) → ℕ
sum zero g = 0
sum (suc n) g = sum n g + g n

sum-eq : (n : ℕ) (g h : ℕ → ℕ) → ((i : ℕ) → i < n → g i ≡ h i) → sum n g ≡ sum n h
unfolding sum
sum-eq zero g h same = refl
sum-eq (suc n) g h same =
    omega (arith, sum-eq n g h (λ i lt. same i (omega arith)), same n (omega arith))

-- Two functions that differ at one number.
sum-other :
    (n p : ℕ) (g h : ℕ → ℕ) → p < n → ((i : ℕ) → i ≢ p → g i ≡ h i) → sum n g + h p ≡ sum n h + g p
unfolding sum
sum-other zero p g h lt same = absurd (omega arith)
sum-other (suc n) p g h lt same = elim (ℕ_discrete n p) [
  | yes e ↦ omega (arith, sum-eq n g h (λ i below. same i (omega arith)), ap g e, ap h e)
  | no ne ↦ omega (arith, sum-other n p g h (omega arith) same, same n ne)
]

le-sum : (n p : ℕ) (g : ℕ → ℕ) → p < n → g p ≤ sum n g
unfolding sum
le-sum zero p g lt = absurd (omega arith)
le-sum (suc n) p g lt = elim (ℕ_discrete n p) [
  | yes e ↦ omega (arith, ap g e)
  | no ne ↦ omega (arith, le-sum n p g (omega arith))
]

abbrev pub points : Option ℕ → ℕ → ℕ
points none f = 0
points (some g) f = if g == f then 1 else 0

-- The descriptors of one process that are for file `f`.
unfoldable pub refs_of : (ℕ → Option ℕ) → ℕ → ℕ
refs_of fds f = sum nofile (λ fd. points (fds fd) f)

-- Those of all processes.
unfoldable pub refs : (ofile : ℕ → ℕ → Option ℕ) → ℕ → ℕ
refs ofile f = sum nproc (λ p. refs_of (ofile p) f)

refs_of-update :
    (fds : ℕ → Option ℕ) (fd f : ℕ) (v : Option ℕ)
    → fd < nofile
    → refs_of (update fds fd v) f + points (fds fd) f ≡ refs_of fds f + points v f
unfolding refs_of
refs_of-update fds fd f v below =
    sum-other nofile fd (λ d. points (update fds fd v d) f) (λ d. points (fds d) f) below
      (λ d ne. ap (λ w. points w f) (update_other fds fd v d ne))
    ∙ ap (λ w. sum nofile (λ d. points (fds d) f) + points w f) (update_here fds fd v)

-- One descriptor changes.
pub refs-update :
    (ofile : ℕ → ℕ → Option ℕ) (p fd f : ℕ) (v : Option ℕ)
    → p < nproc
    → fd < nofile
    → refs (update ofile p (update (ofile p) fd v)) f + points (ofile p fd) f
      ≡ refs ofile f + points v f
unfolding refs
refs-update ofile p fd f v lt below = omega (
  arith,
  refs_of-update (ofile p) fd f v below,
  sum-other nproc p (λ q. refs_of (update ofile p (update (ofile p) fd v) q) f)
      (λ q. refs_of (ofile q) f) lt
      (λ q ne. ap (λ g. refs_of g f) (update_other ofile p (update (ofile p) fd v) q ne)),
  ap (λ g. refs_of g f) (update_here ofile p (update (ofile p) fd v)),
)

-- A descriptor counts.
pub refs-pos :
    (ofile : ℕ → ℕ → Option ℕ) (p fd f : ℕ)
    → p < nproc
    → fd < nofile
    → ofile p fd ≡ some f
    → 1 ≤ refs ofile f
unfolding refs refs_of
refs-pos ofile p fd f lt below e =
    let one : points (ofile p fd) f ≡ 1 = rw e (ground arith) in
    omega (
      arith,
      one,
      le-sum nofile fd (λ d. points (ofile p d) f) below,
      le-sum nproc p (λ q. sum nofile (λ d. points (ofile q d) f)) lt,
    )
