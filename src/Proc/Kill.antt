-- ===== src/Proc/Kill.antt =====
-- `kill` of proc.c.
use p2b.Prelude.{
  ℕ, ◌<◌, ◌≡◌, ◌≢◌, Bool, true, arith, ◌==◌, update, none, some, IsFirst, find_first,
  find_first-some, find_first-none, find_first-eq, Option-cases, inl, inr, refl, ◌↔◌,
}
use mathlib.Core.Path.{subst}
use native.Mathlib.Decide.{ℕ_discrete}
use p2b.Proc.{is_unused, Proc, Table, nproc, sleeping, kill, mark_killed}

abbrev pub has_pid : ℕ → Proc → Bool
has_pid pid p = p.pid == pid

-- Slot `i` is the first with the pid, is marked, and does not sleep on; the other slots are as
-- they were.
pub record Killed (pid : ℕ) (t t' : Table) (i : ℕ) : Type 0 where
  pub first : IsFirst (has_pid pid) 0 nproc t i
  pub marked : (t' i).killed ≡ true
  pub awake : (t' i).state ≢ sleeping
  pub same_pid : (t' i).pid ≡ pid
  pub others : (j : ℕ) → j ≢ i → t' j ≡ t j

kill-hit :
    (pid : ℕ) (t : Table) (i : ℕ)
    → find_first (has_pid pid) nproc 0 t ≡ some i
    → kill pid t ≡ (some tt, update t i (mark_killed (t i)))
unfolding kill
kill-hit pid t i hit = rw (hit, kill)

pub kill-first :
    (pid : ℕ) (t : Table) (i : ℕ)
    → IsFirst (has_pid pid) 0 nproc t i
    → kill pid t ≡ (some tt, update t i (mark_killed (t i)))
kill-first pid t i f = kill-hit pid t i (find_first-eq (has_pid pid) nproc 0 t i f)

kill-miss :
    (pid : ℕ) (t : Table) → find_first (has_pid pid) nproc 0 t ≡ none → kill pid t ≡ (none, t)
unfolding kill
kill-miss pid t miss = rw (miss, kill)

Killed-update :
    (pid : ℕ) (t : Table) (i : ℕ)
    → IsFirst (has_pid pid) 0 nproc t i
    → Killed pid t (update t i (mark_killed (t i))) i
Killed-update pid t i first = record {
  first = first;
  marked = ground arith;
  awake = ground arith;
  same_pid = ground (arith, first.passes);
  others = λ j ne. ground arith;
}

-- If some slot of the table has the pid, `kill` succeeds and marks the first such slot, waking it
-- if it sleeps, and changes no other slot.
pub kill_succeeds :
    (pid : ℕ) (t : Table) (j : ℕ)
    → j < nproc
    → (t j).pid ≡ pid
    → ((kill pid t).0 ≡ some tt) × ((i : ℕ) × Killed pid t (kill pid t).1 i)
kill_succeeds pid t j h e = elim (Option-cases (find_first (has_pid pid) nproc 0 t)) [
  | inl miss ↦ absurd (ground (arith, find_first-none (has_pid pid) nproc 0 t miss j))
  | inr (i, hit) ↦
      rw (kill-hit pid t i hit)
        (refl, (i, Killed-update pid t i (find_first-some (has_pid pid) nproc 0 t i hit)))
]

-- `kill` fails exactly when no slot of the table has the pid.
pub kill_fails_iff :
    (pid : ℕ) (t : Table) → ((kill pid t).0 ≡ none) ↔ ((j : ℕ) → j < nproc → (t j).pid ≢ pid)
kill_fails_iff pid t = elim (Option-cases (find_first (has_pid pid) nproc 0 t)) [
  | inl miss ↦
      rw (kill-miss pid t miss)
        (λ _ j h e. ground (arith, find_first-none (has_pid pid) nproc 0 t miss j), λ _. refl)
  | inr (i, hit) ↦ rw (kill-hit pid t i hit) (
      let first = find_first-some (has_pid pid) nproc 0 t i hit in
      (λ e. cc, λ all. absurd (all i first.upper (ground (arith, first.passes)))))
]

-- `kill` changes no pid and puts no slot to use, and frees none.
pub kill-pid :
    (pid : ℕ) (t : Table) (j : ℕ)
    → (((kill pid t).1 j).pid ≡ (t j).pid)
      × (is_unused ((kill pid t).1 j).state ≡ is_unused (t j).state)
kill-pid pid t j = elim (Option-cases (find_first (has_pid pid) nproc 0 t)) [
  | inl miss ↦ rw (kill-miss pid t miss) (refl, refl)
  | inr (i, hit) ↦ rw (kill-hit pid t i hit) (elim (ℕ_discrete i j) [
    | yes e ↦
        subst
          (λ m.
            ((update t i (mark_killed (t i)) m).pid ≡ (t m).pid)
            × (is_unused (update t i (mark_killed (t i)) m).state ≡ is_unused (t m).state))
          e (ground arith, ground arith)
    | no ne ↦ (ground arith, ground arith)
  ])
]
