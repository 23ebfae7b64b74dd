-- ===== src/Life/Pids.antt =====
-- The pids of the processes in use, under the steps of proc.c.
use p2b.Prelude.{ℕ, ◌+◌, ◌<◌, ◌^◌, ◌≡◌, refl, sym, false, arith}
use mathlib.Core.Path.{subst}
use native.Mathlib.Decide.{ℕ_discrete}
use p2b.Proc.Kill.{kill-pid}
use p2b.Proc.Calls.{settickets-pid}
use p2b.Lifecycle.{Services, Kernel, claim_slot, leave_table}
use p2b.Lifecycle.Alloc.{is_free}
use p2b.Lifecycle.Pids.{
  UniquePids, UniquePids-le, Shrinks, Shrinks-UniquePids, Shrinks-update, Shrinks-wakeup1,
  claimed-UniquePids,
}
use p2b.Lifecycle.Exit.{leave_table-Left}
use p2b.Lifecycle.Parts.{
  claim_slot-Claimed, Settled, Settled-Shrinks, finish_alloc-Settled, fork_into-Settled,
  close_all-Settled,
}
use p2b.Lifecycle.Wait.{Pass, reaped, failed, sleeps, wait_pass}
use p2b.Lifecycle.Wait.Reap.{PassMeans, wait_pass_lem}
use p2b.Sched.{start, yield_cpu, sleep_on}
use p2b.Life.{
  Step, Reach, IsUsed, claims, gets_stack, forks, closes, leaves, reaps, waits, sleeps_on, wakes,
  kills, sets_tickets, starts, yields, here, next,
}

-- The counter never goes back to 0, and is above every pid in use.
pub record IsSound {R : Type 0} (k : Kernel R) : Type 0 where
  pub positive : 0 < k.nextpid
  pub pids : UniquePids k.proc k.nextpid

abbrev PassSound : {R : Type 0} → Pass R → Type 0
PassSound (reaped pid k') = IsSound k'
PassSound failed = Unit
PassSound (sleeps k') = IsSound k'

module _ (svc : Services) where
  open svc use {Rest, kalloc}

  -- A step that changes no pid, puts no slot to use and leaves the counter alone.
  Shrinks-IsSound :
      {k k' : Kernel Rest}
      → Shrinks k.proc k'.proc
      → k'.nextpid ≡ k.nextpid
      → IsSound k
      → IsSound k'
  Shrinks-IsSound {k} {k'} shrinks e s = record {
    positive = omega arith;
    pids = UniquePids-le (omega arith) (Shrinks-UniquePids shrinks s.pids);
  }

  claim_slot-IsSound :
      (i : ℕ) (k : Kernel Rest) → k.nextpid + 1 < 2 ^ 32 → IsSound k → IsSound (claim_slot svc i k)
  claim_slot-IsSound i k small s =
      let c = claim_slot-Claimed svc i k in
      record {
        positive = omega (arith, c.nextpid);
        pids = claimed-UniquePids c.others c.pid s.positive (omega (arith, c.nextpid)) s.pids;
      }

  Settled-IsSound :
      (i : ℕ) {k k' : Kernel Rest} → IsUsed k i → Settled svc i k k' → IsSound k → IsSound k'
  Settled-IsSound i {k} {k'} used e s =
      Shrinks-IsSound {k = k} {k' = k'} (Settled-Shrinks svc used e) e.nextpid s

  leave_table-IsSound :
      (cur : ℕ) (k : Kernel Rest)
      → IsUsed k cur
      → IsSound k
      → IsSound (record k { proc = leave_table k.initproc cur k.proc })
  leave_table-IsSound cur k used s =
      let left = leave_table-Left k.initproc cur k.proc in
      let k' = record k { proc = leave_table k.initproc cur k.proc } in
      Shrinks-IsSound {k = k} {k' = k'} (λ j h u. ground (arith, left.used used j, left.pids j))
        refl s

  pass-IsSound :
      (cur : ℕ) (k : Kernel Rest) (p : Pass Rest)
      → PassMeans svc cur k p
      → IsUsed k cur
      → IsSound k
      → PassSound p
  pass-IsSound cur k (reaped pid k') (i, r) u s =
      Shrinks-IsSound {k = k} {k' = k'}
        (λ j h e. elim (ℕ_discrete j i) [
          | yes q ↦ absurd (ground (arith, r.free, subst (λ m. is_free (k'.proc m) ≡ false) q e))
          | no ne ↦ ground (arith, r.others j ne)
        ])
        r.nextpid s
  pass-IsSound cur k failed m u s = tt
  pass-IsSound cur k (sleeps k') (_, a) u s =
      Shrinks-IsSound {k = k} {k' = k'}
        (λ j h e. elim (ℕ_discrete j cur) [
          | yes q ↦
              subst (λ m. (is_free (k.proc m) ≡ false) × ((k'.proc m).pid ≡ (k.proc m).pid)) (sym q)
                (u, a.pid)
          | no ne ↦ ground (arith, a.others j ne)
        ])
        a.nextpid s

  -- Every step keeps the pids of the processes in use different and below the counter.
  Step-IsSound : {k k' : Kernel Rest} → Step svc k k' → IsSound k → IsSound k'
  unfolding start yield_cpu sleep_on
  Step-IsSound {k} (claims i first small) s = claim_slot-IsSound i k small s
  Step-IsSound {k} (gets_stack i e) s =
      Settled-IsSound i (ground (arith, e)) (finish_alloc-Settled svc i (kalloc k.rest) k) s
  Step-IsSound {k} (forks cur np used ne e) s =
      Settled-IsSound np (ground (arith, e)) (fork_into-Settled svc cur np _ k ne) s
  Step-IsSound {k} (closes cur used other) s =
      Settled-IsSound cur used (close_all-Settled svc cur k) s
  Step-IsSound {k} (leaves cur used other) s = leave_table-IsSound cur k used s
  Step-IsSound {k} (reaps cur pid lt used e) s =
      subst PassSound e (pass-IsSound cur k (wait_pass svc cur k) (wait_pass_lem svc cur k) used s)
  Step-IsSound {k} (waits cur lt used e) s =
      subst PassSound e (pass-IsSound cur k (wait_pass svc cur k) (wait_pass_lem svc cur k) used s)
  Step-IsSound {k} (sleeps_on cur c used) s = record {
    positive = s.positive;
    pids = Shrinks-UniquePids (Shrinks-update k.proc cur _ (λ _. (used, refl))) s.pids;
  }
  Step-IsSound {k} (wakes c) s = record {
    positive = s.positive;
    pids = Shrinks-UniquePids (Shrinks-wakeup1 c k.proc) s.pids;
  }
  Step-IsSound {k} (kills pid) s = record {
    positive = s.positive;
    pids = Shrinks-UniquePids (λ j h e. ground (arith, kill-pid pid k.proc j)) s.pids;
  }
  Step-IsSound {k} (sets_tickets cur ticket) s = record {
    positive = s.positive;
    pids = Shrinks-UniquePids (λ j h e. ground (arith, settickets-pid cur ticket k.proc j)) s.pids;
  }
  Step-IsSound {k} (starts i ready) s = record {
    positive = s.positive;
    pids = Shrinks-UniquePids (Shrinks-update k.proc i _ (λ _. (ground arith, refl))) s.pids;
  }
  Step-IsSound {k} (yields cur used) s = record {
    positive = s.positive;
    pids = Shrinks-UniquePids (Shrinks-update k.proc cur _ (λ _. (used, refl))) s.pids;
  }

  -- Whatever processes and CPUs do, in whatever order, the processes in use have different pids,
  -- all positive and below the counter, if that was so at the start and the counter does not wrap.
  pub Reach-IsSound : {k k' : Kernel Rest} → IsSound k → Reach svc k k' → IsSound k'
  Reach-IsSound s here = s
  Reach-IsSound s (next r st) = Step-IsSound st (Reach-IsSound s r)
