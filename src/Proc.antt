-- ===== src/Proc.antt =====
-- proc.h and proc.c: the process table. A slot of `ptable.proc` is its index; pointers to other
-- objects are numbers with 0 for null; a C `int` is its bit pattern below 2 ^ 32. A function that
-- returns -1 (or a null pointer) returns `none`. Each function stands for the code between
-- `acquire(&ptable.lock)` and `release`, so it is one atomic step of the table.

pub mod Wakeup
pub mod Kill
pub mod Calls
use p2b.Prelude.{
  ℕ, ◌^◌, Bool, true, false, ◌&&◌, ◌||◌, not, Option, none, some, ◌==◌, ltb, leb, if◌then◌else◌,
  update, for_range, find_first,
}

pub data ProcState : Type 0 where
  unused embryo sleeping runnable running zombie : ProcState

abbrev pub is_unused : ProcState → Bool
is_unused unused = true
is_unused _ = false

abbrev pub is_sleeping : ProcState → Bool
is_sleeping sleeping = true
is_sleeping _ = false

abbrev pub is_runnable : ProcState → Bool
is_runnable runnable = true
is_runnable _ = false

abbrev pub is_zombie : ProcState → Bool
is_zombie zombie = true
is_zombie _ = false

-- The address that a process sleeps on: null, a slot of the table (`wait` sleeps on the caller's
-- own), or another object of the kernel. Distinct objects have distinct addresses.
pub data Chan : Type 0 where
  nowhere : Chan
  at_proc : ℕ → Chan
  at_object : ℕ → Chan

abbrev pub chan_eq : Chan → Chan → Bool
chan_eq nowhere nowhere = true
chan_eq (at_proc i) (at_proc j) = i == j
chan_eq (at_object a) (at_object b) = a == b
chan_eq _ _ = false

abbrev pub chan_of : Option ℕ → Chan
chan_of none = nowhere
chan_of (some i) = at_proc i

-- p->parent == q, for a process q.
abbrev pub points_to : Option ℕ → ℕ → Bool
points_to none j = false
points_to (some i) j = i == j

-- The saved user registers: `eax`, and the others together.
pub record Trapframe : Type 0 where
  pub eax : ℕ
  pub others : ℕ → ℕ

pub record Context : Type 0 where
  pub edi : ℕ
  pub esi : ℕ
  pub ebx : ℕ
  pub ebp : ℕ
  pub eip : ℕ

-- `frame` and `saved` are what `tf` and `context` point at, on the kernel stack.
pub record Proc : Type 0 where
  pub sz : ℕ
  pub pgdir : ℕ
  pub kstack : ℕ
  pub state : ProcState
  pub pid : ℕ
  pub parent : Option ℕ
  pub tf : ℕ
  pub frame : Trapframe
  pub context : ℕ
  pub saved : Context
  pub chan : Chan
  pub killed : Bool
  pub ofile : ℕ → ℕ
  pub cwd : ℕ
  pub name : ℕ → ℕ
  pub priority : ℕ
  pub run_ticks : ℕ

abbrev pub nproc : ℕ
nproc = 64

abbrev pub nofile : ℕ
nofile = 16

abbrev pub Table : Type 0
Table = ℕ → Proc

-- `wakeup1`: every sleeper on `chan` becomes runnable.
wake : Chan → Proc → Proc
wake c p = if is_sleeping p.state && chan_eq p.chan c then record p { state = runnable } else p

pub wakeup1 : Chan → Table → Table
unfolding wake
wakeup1 c t = for_range nproc 0 (λ i s. update s i (wake c (s i))) t

-- `kill`: the first slot with the pid, whatever its state.
abbrev pub mark_killed : Proc → Proc
mark_killed p = record p {
  killed = true;
  state = if is_sleeping p.state then runnable else p.state;
}

unfoldable pub kill : ℕ → Table → Option (Unit {0}) × Table
kill pid t = elim (find_first (λ (p : Proc). p.pid == pid) nproc 0 t) [
  | none ↦ (none, t)
  | some i ↦ (some tt, update t i (mark_killed (t i)))
]

-- Is the bit pattern of an `int` that of a negative number?
abbrev pub is_negative : ℕ → Bool
is_negative w = leb (2 ^ 31) w

set_priority : (cur ticket value : ℕ) → Table → Table
set_priority cur ticket value t =
    if ticket == value then update t cur (record (t cur) { priority = value }) else t

-- `settickets`, called by the process in slot `cur`.
pub settickets : (cur ticket : ℕ) → Table → Option (Unit {0}) × Table
unfolding set_priority
settickets cur ticket t =
    if is_negative ticket || (ltb 1 ticket && not (is_negative ticket))
    then (none, t)
    else (some tt, set_priority cur ticket 1 (set_priority cur ticket 0 t))

-- `struct pstat`.
pub record Pstat : Type 0 where
  pub inuse : ℕ → ℕ
  pub tickets : ℕ → ℕ
  pub pid : ℕ → ℕ
  pub ticks : ℕ → ℕ

fill_pstat : Table → ℕ → Pstat → Pstat
fill_pstat t i s = record {
  inuse = update s.inuse i (if is_unused (t i).state then 0 else 1);
  tickets = update s.tickets i (t i).priority;
  pid = update s.pid i (t i).pid;
  ticks = update s.ticks i (t i).run_ticks;
}

pub getpinfo : Table → Pstat → Pstat
unfolding fill_pstat
getpinfo t s = for_range nproc 0 (fill_pstat t) s
