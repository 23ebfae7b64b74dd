-- ===== src/Tests.antt =====
-- Small kernels, disks and memories, and the theorems applied to them.
mod Processes
mod Cpu
mod Disk
mod Bytes
mod Locks
mod Patterns
mod PageTables
mod FileSystem
mod Buffers
mod Terminal
mod CommandLines
mod OpenFiles
mod Numbers
use p2b.Prelude.{
  ℕ, ◌+◌, Bool, true, false, Option, none, some, List, [], ◌∷◌, ◌==◌, if◌then◌else◌, update,
}
use p2b.Proc.{Proc, ProcState, Table, unused, runnable, sleeping, nowhere}
use p2b.Lifecycle.{Services, Kernel}

-- Services whose state is the next free page; file and inode numbers stand for their references.
abbrev pub toy : Services
toy = record {
  Rest = ℕ;
  forkret = 7;
  kalloc = λ r. (r, r + 4096);
  kfree = λ v r. r;
  copyuvm = λ pg sz r. (r, r + 4096);
  allocuvm = λ pg old new r. (new, r);
  deallocuvm = λ pg old new r. (new, r);
  switchuvm = λ p r. r;
  freevm = λ pg r. r;
  filedup = λ f r. (f, r);
  fileclose = λ f r. r;
  idup = λ f r. (f, r);
  begin_op = λ r. r;
  iput = λ f r. r;
  end_op = λ r. r;
}

-- A slot that was never used, and a process.
abbrev pub blank : Proc
blank = record {
  sz = 0;
  pgdir = 0;
  kstack = 0;
  state = unused;
  pid = 0;
  parent = none;
  tf = 0;
  frame = record { eax = 0; others = λ _. 0 };
  context = 0;
  saved = record { edi = 0; esi = 0; ebx = 0; ebp = 0; eip = 0 };
  chan = nowhere;
  killed = false;
  ofile = λ _. 0;
  cwd = 0;
  name = λ _. 0;
  priority = 0;
  run_ticks = 0;
}

abbrev pub process : (pid priority : ℕ) (parent : Option ℕ) → ProcState → Proc
process pid priority parent state = record blank {
  sz = 4096;
  pgdir = 9;
  kstack = 8;
  state = state;
  pid = pid;
  parent = parent;
  cwd = 1;
  priority = priority;
}

abbrev pub booted : Table → Kernel ℕ
booted t = record { proc = t; nextpid = 10; initproc = some 0; rest = 8192 }
