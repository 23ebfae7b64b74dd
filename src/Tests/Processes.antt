-- ===== src/Tests/Processes.antt =====
-- The theorems on processes, at small kernels.
use p2b.Prelude.{
  ℕ, ◌+◌, ◌<◌, ◌≤◌, ◌^◌, ◌≡◌, ◌≢◌, ◌↔◌, ◌⊎◌, inl, inr, refl, Bool, true, false, ◌&&◌, Option, none,
  some, arith, ◌==◌, if◌then◌else◌, IsFirst, Bool-cases,
}
use p2b.Proc.{Table, nproc, nofile, running, sleeping, zombie, at_proc, kill, settickets, Pstat}
use p2b.Proc.Kill.{has_pid}
use p2b.Lifecycle.{Kernel, done, fork, exit}
use p2b.Lifecycle.Alloc.{is_free}
use p2b.Lifecycle.Fork.{NoChild, Child, fork_cases}
use p2b.Lifecycle.Closes.{put_back, with_closes}
use p2b.Lifecycle.Exit.{Left, exit_leaves}
use p2b.Lifecycle.Stale.{fork_born_killed}
use p2b.Lifecycle.Wait.{wait_pass}
use p2b.Lifecycle.Wait.Reap.{PassMeans, wait_pass_lem}
use p2b.Life.{next, sets_tickets}
use p2b.Life.Calls.{fork-Reach}
use p2b.Life.Pids.{IsSound, Reach-IsSound}
use p2b.Tests.{toy, blank, process, booted}

-- init and its child, which runs; a sleeper on init's slot; and a zombie child of slot 1.
abbrev family : Table
family i =
    if i == 0
    then record (process 1 1 none sleeping) { chan = at_proc 0 }
    else if i == 1
    then process 2 1 (some 0) running
    else if i == 2
    then process 3 0 (some 1) zombie
    else blank

abbrev alone : Table
alone i = if i == 0 then process 1 1 none running else blank

abbrev no_stat : Pstat
no_stat = record { inuse = λ _. 5; tickets = λ _. 5; pid = λ _. 5; ticks = λ _. 5 }

fork_cases_example :
    NoChild toy 0 (booted alone) (fork toy 0 (booted alone))
    ⊎ ((np : ℕ) × Child toy 0 np (booted alone) (fork toy 0 (booted alone)))
fork_cases_example = fork_cases toy 0 (booted alone) refl

exit_leaves_example :
    (k' : Kernel ℕ) × (exit toy 1 (booted family) ≡ done k')
    × Left (some 0) 1 family k'.proc
    × ((fd : ℕ) → fd < nofile → (k'.proc 1).ofile fd ≡ 0)
    × (k'.rest
        ≡ put_back toy
            (family 1).cwd
            (with_closes toy nofile (family 1).ofile (booted family).rest))
    × (k'.nextpid ≡ 10)
exit_leaves_example = exit_leaves toy 1 (booted family) refl

wait_pass_lem_example : PassMeans toy 1 (booted family) (wait_pass toy 1 (booted family))
wait_pass_lem_example = wait_pass_lem toy 1 (booted family)

free_at_1 : IsFirst is_free 0 nproc alone 1
free_at_1 = record {
  lower = omega arith;
  upper = omega arith;
  passes = refl;
  before = λ j lo hi. let e : j ≡ 0 = omega arith in rw e refl;
}

stale_at_1 : IsFirst (has_pid 0) 0 nproc alone 1
stale_at_1 = record {
  lower = omega arith;
  upper = omega arith;
  passes = refl;
  before = λ j lo hi. let e : j ≡ 0 = omega arith in rw e refl;
}

-- kill(0), and then the fork of a process that nobody killed.
fork_born_killed_example :
    let k' = (fork toy 0 (record (booted alone) { proc = (kill 0 alone).1 })).1 in
    ((kill 0 alone).0 ≡ some tt) × ((k'.proc 1).pid ≡ 10) × ((k'.proc 1).killed ≡ true)
unfolding kill fork p2b.Prelude.find_first
fork_born_killed_example =
    fork_born_killed toy 0 1 0 10 (booted alone) refl free_at_1 stale_at_1 refl

alone-IsSound : IsSound (booted alone)
alone-IsSound = record {
  positive = omega arith;
  pids = record {
    below = λ i h u. elim (Bool-cases (i == 0)) [
      | inl e ↦ ground arith
      | inr ne ↦ absurd (ground arith)
    ];
    unique = λ i j hi hj ui uj e. ground arith;
  };
}

abbrev forked : Kernel ℕ
forked = (fork toy 0 (booted alone)).1

abbrev lowered : Kernel ℕ
lowered = record forked { proc = (settickets 0 0 forked.proc).1 }

Reach-IsSound_example : IsSound lowered
Reach-IsSound_example =
    Reach-IsSound toy alone-IsSound
      (next (fork-Reach toy 0 (booted alone) refl (omega arith)) (sets_tickets 0 0))
