-- ===== src/Lifecycle.antt =====
-- proc.c: processes come and go (`allocproc`, `fork`, `exit`, `wait`, `growproc`). Each function is
-- one step here. `fork` and `exit` do part of their work without the lock: their parts are functions
-- of their own, which are the steps in Life. `none` stands for -1 or a null pointer.
pub mod Alloc
pub mod Copies
pub mod Pids
pub mod ForkInto
pub mod Fork
pub mod Closes
pub mod Exit
pub mod Stale
pub mod Wait
pub mod Parts
use p2b.Prelude.{
  ℕ, zero, suc, ◌+◌, ◌-◌, ◌%◌, ◌^◌, Bool, true, false, Option, none, some, ◌==◌, if◌then◌else◌,
  update, for_range, find_first,
}
use p2b.Proc.{
  Proc, Context, Table, nproc, nofile, unused, embryo, runnable, zombie, is_unused, is_zombie,
  points_to, chan_of, at_proc, nowhere, wakeup1,
}

-- What the process code calls elsewhere in the kernel: the page allocator, the page tables, the
-- file and inode tables, whose state is `Rest`. A returned 0 is a null pointer.
pub record Services : Type 1 where
  pub Rest : Type 0
  pub forkret : ℕ
  pub kalloc : Rest → ℕ × Rest
  pub kfree : ℕ → Rest → Rest
  pub copyuvm : ℕ → ℕ → Rest → ℕ × Rest
  pub allocuvm : (pgdir oldsz newsz : ℕ) → Rest → ℕ × Rest
  pub deallocuvm : (pgdir oldsz newsz : ℕ) → Rest → ℕ × Rest
  pub switchuvm : Proc → Rest → Rest
  pub freevm : ℕ → Rest → Rest
  pub filedup : ℕ → Rest → ℕ × Rest
  pub fileclose : ℕ → Rest → Rest
  pub idup : ℕ → Rest → ℕ × Rest
  pub begin_op : Rest → Rest
  pub iput : ℕ → Rest → Rest
  pub end_op : Rest → Rest

-- What the code of this module may change.
pub record Kernel (R : Type 0) : Type 0 where
  pub proc : Table
  pub nextpid : ℕ
  pub initproc : Option ℕ
  pub rest : R

-- What a call that may not return comes to.
pub data Outcome (A : Type 0) : Type 0 where
  done : A → Outcome A
  panic : Outcome A

abbrev pub set_proc : {R : Type 0} → Kernel R → ℕ → Proc → Kernel R
set_proc k i p = record k { proc = update k.proc i p }

abbrev pub set_rest : {R : Type 0} → Kernel R → R → Kernel R
set_rest k r = record k { rest = r }

abbrev pub kstacksize : ℕ
kstacksize = 4096

-- sizeof(struct trapframe) and sizeof(struct context).
abbrev pub trapframe_size : ℕ
trapframe_size = 76

abbrev pub context_size : ℕ
context_size = 20

-- `p` as `allocproc` leaves it: at `found`, and once its kernel stack is there.
claim : (pid : ℕ) → Proc → Proc
claim pid p = record p { state = embryo; pid = pid; priority = 1; run_ticks = 0 }

-- Below the trap frame are the 4 bytes of `trapret`, and below these the context.
set_kstack : (forkret stack : ℕ) → Proc → Proc
set_kstack forkret stack p = record p {
  kstack = stack;
  tf = stack + kstacksize - trapframe_size;
  context = stack + kstacksize - trapframe_size - 4 - context_size;
  saved = record { edi = 0; esi = 0; ebx = 0; ebp = 0; eip = forkret };
}

-- What `fork` copies before the loop.
inherit : (cur pgdir : ℕ) → Proc → Proc → Proc
inherit cur pgdir parent p = record p {
  pgdir = pgdir;
  run_ticks = 0;
  priority = parent.priority;
  sz = parent.sz;
  parent = some cur;
  frame = record { eax = 0; others = parent.frame.others };
}

-- `safestrcpy` of a name from byte `i` on, with `n` bytes before the last of the 16.
pub copy_name : (n i : ℕ) (src dst : ℕ → ℕ) → ℕ → ℕ
copy_name zero i src dst = update dst i 0
copy_name (suc n) i src dst = elim (src i == 0) [
  | true ↦ update (update dst i (src i)) (i + 1) 0
  | false ↦ copy_name n (i + 1) src (update dst i (src i))
]

-- One round of the loop of `exit` over the table.
abandon : (init : Option ℕ) (cur i : ℕ) → Table → Table
abandon init cur i t =
    if points_to (t i).parent cur
    then (let t1 = update t i (record (t i) { parent = init }) in
        if is_zombie (t i).state then wakeup1 (chan_of init) t1 else t1)
    else t

-- `exit` under the lock, up to its call of `sched`.
pub leave_table : (init : Option ℕ) (cur : ℕ) → Table → Table
unfolding abandon
leave_table init cur t =
    let t1 = for_range nproc 0 (abandon init cur) (wakeup1 (chan_of (t cur).parent) t) in
    update t1 cur (record (t1 cur) { state = zombie })

module _ (svc : Services) where
  open svc use {
    Rest, forkret, kalloc, kfree, copyuvm, allocuvm, deallocuvm, switchuvm, freevm, filedup,
    fileclose, idup, begin_op, iput, end_op,
  }

  pub finish_alloc : (i : ℕ) → ℕ × Rest → Kernel Rest → Option ℕ × Kernel Rest
  finish_alloc i (stack, r) k =
      if stack == 0
      then (none, set_proc (set_rest k r) i (record (k.proc i) { kstack = 0; state = unused }))
      else (some i, set_proc (set_rest k r) i (set_kstack forkret stack (k.proc i)))

  pub claim_slot : ℕ → Kernel Rest → Kernel Rest
  claim_slot i k = record (set_proc k i (claim k.nextpid (k.proc i))) {
    nextpid = (k.nextpid + 1) % 2 ^ 32;
  }

  pub allocproc : Kernel Rest → Option ℕ × Kernel Rest
  unfolding claim_slot finish_alloc claim set_kstack
  allocproc k = elim (find_first (λ (p : Proc). is_unused p.state) nproc 0 k.proc) [
    | none ↦ (none, k)
    | some i ↦ finish_alloc i (kalloc k.rest) (claim_slot i k)
  ]

  -- One round of the loop of `fork` over the open files of `cur`.
  pub dup_file : (cur np fd : ℕ) → Kernel Rest → Kernel Rest
  dup_file cur np fd k =
      if (k.proc cur).ofile fd == 0
      then k
      else let (f, r) = filedup ((k.proc cur).ofile fd) k.rest in
        set_proc (set_rest k r) np (record (k.proc np) { ofile = update (k.proc np).ofile fd f })

  -- The loop, and what follows it.
  start_child : (cur np : ℕ) → Kernel Rest → Kernel Rest
  unfolding dup_file copy_name
  start_child cur np k =
      let k1 = for_range nofile 0 (dup_file cur np) k in
      let (cwd, r) = idup (k1.proc cur).cwd k1.rest in
      set_proc (set_rest k1 r) np (record (k1.proc np) {
        cwd = cwd;
        name = copy_name 15 0 (k1.proc cur).name (k1.proc np).name;
        state = runnable;
      })

  -- `fork` from `copyuvm` on, with its result: the child's pid.
  pub fork_into : (cur np : ℕ) → ℕ × Rest → Kernel Rest → Option ℕ × Kernel Rest
  unfolding start_child inherit
  fork_into cur np (pgdir, r) k =
      if pgdir == 0
      then (
        none,
        set_proc (set_rest k (kfree (k.proc np).kstack r)) np
            (record (k.proc np) { pgdir = 0; kstack = 0; state = unused }),
      )
      else (
        some (k.proc np).pid,
        start_child cur np
            (set_proc (set_rest k r) np (inherit cur pgdir (k.proc cur) (k.proc np))),
      )

  unfoldable pub fork : (cur : ℕ) → Kernel Rest → Option ℕ × Kernel Rest
  unfolding fork_into allocproc
  fork cur k =
      let (r, k1) = allocproc k in
      elim r [
        | none ↦ (none, k1)
        | some np ↦ fork_into cur np (copyuvm (k1.proc cur).pgdir (k1.proc cur).sz k1.rest) k1
      ]

  -- The loop of `exit` over the caller's files.
  close_file : (cur fd : ℕ) → Kernel Rest → Kernel Rest
  close_file cur fd k =
      if (k.proc cur).ofile fd == 0
      then k
      else set_proc (set_rest k (fileclose ((k.proc cur).ofile fd) k.rest)) cur
          (record (k.proc cur) { ofile = update (k.proc cur).ofile fd 0 })

  pub close_all : (cur : ℕ) → Kernel Rest → Kernel Rest
  unfolding close_file
  close_all cur k =
      let k1 = for_range nofile 0 (close_file cur) k in
      set_proc (set_rest k1 (end_op (iput (k1.proc cur).cwd (begin_op k1.rest)))) cur
        (record (k1.proc cur) { cwd = 0 })

  pub exit : (cur : ℕ) → Kernel Rest → Outcome (Kernel Rest)
  exit cur k =
      if points_to k.initproc cur
      then panic
      else let k1 = close_all cur k in
        done (record k1 { proc = leave_table k1.initproc cur k1.proc })
