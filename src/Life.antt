-- ===== src/Life.antt =====
-- proc.c as a whole: the steps that processes and CPUs take on the table, in any order. A step is
-- what one of them does while it holds `ptable.lock`, or between two times that it does to a slot
-- which is its own by then: only `kill` and the like touch it meanwhile.
pub mod Calls
pub mod Pids
use p2b.Prelude.{ℕ, ◌+◌, ◌<◌, ◌^◌, ◌≡◌, ◌≢◌, true, false, IsFirst}
use p2b.Proc.{
  Proc, Chan, nproc, embryo, is_unused, is_runnable, points_to, wakeup1, kill, settickets,
}
use p2b.Lifecycle.{Services, Kernel, claim_slot, finish_alloc, fork_into, close_all, leave_table}
use p2b.Lifecycle.Alloc.{is_free}
use p2b.Lifecycle.Wait.{reaped, sleeps, wait_pass}
use p2b.Sched.{start, yield_cpu, sleep_on}

abbrev pub IsUsed : {R : Type 0} → Kernel R → ℕ → Type 0
IsUsed k i = is_unused (k.proc i).state ≡ false

module _ (svc : Services) where
  open svc use {Rest, kalloc, copyuvm}

  -- A process that acts is in use. `fork` is three steps: `allocproc` under the lock, which claims a
  -- slot while its pid is no wrap of the counter; the stack of the claimed slot; and the rest of
  -- `fork`, from `copyuvm` on. `exit` is two: the caller's files, and the table under the lock.
  pub data Step (k : Kernel Rest) : Kernel Rest → Type 0 where
    claims :
        (i : ℕ)
        → IsFirst is_free 0 nproc k.proc i
        → k.nextpid + 1 < 2 ^ 32
        → Step k (claim_slot svc i k)
    gets_stack :
        (i : ℕ) → (k.proc i).state ≡ embryo → Step k (finish_alloc svc i (kalloc k.rest) k).1
    forks :
        (cur np : ℕ)
        → IsUsed k cur
        → cur ≢ np
        → (k.proc np).state ≡ embryo
        → Step k (fork_into svc cur np (copyuvm (k.proc cur).pgdir (k.proc cur).sz k.rest) k).1
    closes :
        (cur : ℕ) → IsUsed k cur → points_to k.initproc cur ≡ false → Step k (close_all svc cur k)
    leaves :
        (cur : ℕ)
        → IsUsed k cur
        → points_to k.initproc cur ≡ false
        → Step k (record k { proc = leave_table k.initproc cur k.proc })
    reaps :
        (cur pid : ℕ) {k' : Kernel Rest}
        → cur < nproc
        → IsUsed k cur
        → wait_pass svc cur k ≡ reaped pid k'
        → Step k k'
    waits :
        (cur : ℕ) {k' : Kernel Rest}
        → cur < nproc
        → IsUsed k cur
        → wait_pass svc cur k ≡ sleeps k'
        → Step k k'
    sleeps_on :
        (cur : ℕ) (c : Chan) → IsUsed k cur → Step k (record k { proc = sleep_on cur c k.proc })
    wakes : (c : Chan) → Step k (record k { proc = wakeup1 c k.proc })
    kills : (pid : ℕ) → Step k (record k { proc = (kill pid k.proc).1 })
    sets_tickets : (cur ticket : ℕ) → Step k (record k { proc = (settickets cur ticket k.proc).1 })
    starts : (i : ℕ) → is_runnable (k.proc i).state ≡ true → Step k (start svc i k)
    yields : (cur : ℕ) → IsUsed k cur → Step k (record k { proc = yield_cpu cur k.proc })

  pub data Reach (k : Kernel Rest) : Kernel Rest → Type 0 where
    here : Reach k k
    next : {k' k'' : Kernel Rest} → Reach k k' → Step k' k'' → Reach k k''
