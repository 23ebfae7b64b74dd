-- ===== src/Lifecycle/Wait.antt =====
-- proc.c: `wait`, one pass over the table under the lock. A pass that sleeps is followed by another
-- when the caller wakes up.
pub mod Reap
use p2b.Prelude.{
  ℕ, zero, suc, ◌+◌, Bool, true, false, not, ◌||◌, Option, none, some, ◌≡◌, ◌<◌, ◌≤◌, refl, arith,
  ◌==◌, if◌then◌else◌, update, Bool-cases, inl, inr,
}
use p2b.Proc.{Proc, Table, nproc, unused, sleeping, zombie, is_zombie, points_to, at_proc, nowhere}
use p2b.Lifecycle.{Services, Kernel, set_proc, set_rest}

-- What a pass over the children finds.
pub data Scan : Type 0 where
  found : ℕ → Scan
  no_zombie : (havekids : Bool) → Scan

scan : (cur n i : ℕ) → (havekids : Bool) → Table → Scan
scan cur zero i havekids t = no_zombie havekids
scan cur (suc n) i havekids t =
    let child = points_to (t i).parent cur in
    let rest = scan cur n (i + 1) (havekids || child) t in
    if not child then rest else if is_zombie (t i).state then found i else rest

-- What one pass comes to.
pub data Pass (R : Type 0) : Type 0 where
  reaped : (pid : ℕ) → Kernel R → Pass R
  failed : Pass R
  sleeps : Kernel R → Pass R

-- The fields of a zombie that its parent clears.
abbrev pub clear_proc : Proc → Proc
clear_proc p = record p {
  kstack = 0;
  pid = 0;
  parent = none;
  name = update p.name 0 0;
  killed = false;
  state = unused;
}

module _ (svc : Services) where
  open svc use {Rest, kfree, freevm}

  reap : ℕ → Kernel Rest → Pass Rest
  reap i k = reaped (k.proc i).pid (
      set_proc (set_rest k (freevm (k.proc i).pgdir (kfree (k.proc i).kstack k.rest))) i
        (clear_proc (k.proc i)))

  fall_asleep : ℕ → Kernel Rest → Kernel Rest
  fall_asleep cur k = set_proc k cur (record (k.proc cur) { chan = at_proc cur; state = sleeping })

  pub wait_pass : (cur : ℕ) → Kernel Rest → Pass Rest
  wait_pass cur k = elim (scan cur nproc 0 false k.proc) [
    | found i ↦ reap i k
    | no_zombie havekids ↦
        if not havekids || (k.proc cur).killed then failed else sleeps (fall_asleep cur k)
  ]
