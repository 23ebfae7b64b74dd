-- ===== src/Sched.antt =====
-- proc.c: `getHighPriority`, `scheduler` and `yield`. What happens between the two sides of `swtch`
-- is a parameter `run`: the kernel as the process in a slot leaves it when it gives the CPU back.
-- `log` is no variable of the code: it notes each dispatch, the newest first.
pub mod Count
pub mod Loop
pub mod Priority
pub mod Ends
pub mod Starves
use p2b.Prelude.{
  ℕ, zero, suc, ◌+◌, ◌%◌, ◌^◌, Bool, true, false, ◌&&◌, Option, none, some, List, ◌∷◌, ◌==◌, ltb,
  if◌then◌else◌, update, for_range, find_first,
}
use p2b.Proc.{Proc, Table, Chan, nproc, running, runnable, sleeping, is_runnable}
use p2b.Lifecycle.{Services, Kernel, set_proc, set_rest}

abbrev pub is_high : Proc → Bool
is_high p = is_runnable p.state && p.priority == 1

-- `getHighPriority`.
pub high_count : Table → ℕ
high_count t = for_range nproc 0 (λ i n. if is_high (t i) then n + 1 else n) 0

-- A process gets the CPU: its slot, its priority, and how many of priority 1 could have run.
pub record Dispatch : Type 0 where
  pub slot : ℕ
  pub priority : ℕ
  pub high : ℕ

-- `has_hp` is the local variable `hasHP`. `c->proc` is the slot that `run` is given, and 0 here.
pub record Cpu (R : Type 0) : Type 0 where
  pub kernel : Kernel R
  pub has_hp : Bool
  pub log : List Dispatch

-- `p` when the scheduler switches to it.
abbrev pub started : Proc → Proc
started p = record p { state = running; run_ticks = (p.run_ticks + 1) % 2 ^ 32 }

module _ (svc : Services) where
  open svc use {Rest, switchuvm}

  unfoldable pub start : ℕ → Kernel Rest → Kernel Rest
  start i k = set_proc (set_rest k (switchuvm (k.proc i) k.rest)) i (started (k.proc i))

  module _ (run : ℕ → Kernel Rest → Kernel Rest) where
    pub dispatch : ℕ → Cpu Rest → Cpu Rest
    dispatch i c = record c {
      kernel = run i (start i c.kernel);
      log =
          record {
            slot = i;
            priority = (c.kernel.proc i).priority;
            high = high_count c.kernel.proc;
          }
          ∷ c.log;
    }

    -- One slot in the scan for processes of priority 1, and the scan.
    offer_high : ℕ → Cpu Rest → Cpu Rest
    offer_high i c =
        if is_high (c.kernel.proc i) then dispatch i (record c { has_hp = true }) else c

    pub high_pass : Cpu Rest → Cpu Rest
    unfolding offer_high
    high_pass c = for_range nproc 0 offer_high c

    -- `while (hpcnt > 0)`; `none` when the fuel runs out.
    pub high_loop : ℕ → Cpu Rest → Option (Cpu Rest)
    high_loop zero c = none
    high_loop (suc fuel) c = elim (ltb 0 (high_count c.kernel.proc)) [
      | true ↦ high_loop fuel (high_pass c)
      | false ↦ some c
    ]

    -- One job of any priority, if no job of priority 1 has run.
    pub low_pass : Cpu Rest → Cpu Rest
    low_pass c =
        if c.has_hp
        then c
        else elim (find_first (λ (p : Proc). is_runnable p.state) nproc 0 c.kernel.proc) [
          | none ↦ c
          | some i ↦ dispatch i c
        ]

    -- One round of `for(;;)` in `scheduler`.
    pub round : ℕ → Cpu Rest → Option (Cpu Rest)
    round fuel c = elim (high_loop fuel (record c { has_hp = false })) [
      | none ↦ none
      | some c' ↦ some (low_pass c')
    ]

    -- `scheduler`, for the given number of rounds.
    pub scheduler : (fuel rounds : ℕ) → Cpu Rest → Option (Cpu Rest)
    scheduler fuel zero c = some c
    scheduler fuel (suc n) c = elim (round fuel c) [ none ↦ none | some c' ↦ scheduler fuel n c' ]

-- `yield`, up to its call of `sched`.
unfoldable pub yield_cpu : (cur : ℕ) → Table → Table
yield_cpu cur t = update t cur (record (t cur) { state = runnable })

-- `sleep`, with `ptable.lock` held, up to its call of `sched`.
unfoldable pub sleep_on : (cur : ℕ) → Chan → Table → Table
sleep_on cur c t = update t cur (record (t cur) { chan = c; state = sleeping })
