-- ===== src/Files.antt =====
-- file.c and the calls of sysfile.c on descriptors: the table of open files with its counts of references,
-- and the descriptors of all processes. A pointer to a file is its slot. A call is one step: a process
-- alone changes its descriptors, and the table is changed under its lock. `released` has what the last
-- reference to a file let go, the last first; the pipe or inode itself is with Pipe and Fs.
pub mod Count
pub mod Calls
pub mod Descriptors
pub mod Loops
pub mod Reach
use p2b.Prelude.{
  ℕ, ◌+◌, ◌-◌, Bool, true, false, not, Option, none, some, List, [], ◌∷◌, ◌==◌, ltb, if◌then◌else◌,
  update, find_first, for_range,
}
use p2b.Proc.{nofile}

abbrev pub nfile : ℕ
nfile = 100

pub data FileType : Type 0 where
  fd_none : FileType
  fd_pipe : FileType
  fd_inode : FileType

pub record File : Type 0 where
  pub type : FileType
  pub ref : ℕ
  pub readable : Bool
  pub writable : Bool
  pub pipe : ℕ
  pub ip : ℕ
  pub off : ℕ

-- What `fileclose` does for the last reference: pipeclose, iput or nothing.
pub data Release : Type 0 where
  pipeclose : (pipe : ℕ) (writable : Bool) → Release
  iput : (ip : ℕ) → Release

pub record Open : Type 0 where
  pub file : ℕ → File
  pub ofile : (p fd : ℕ) → Option ℕ
  pub released : List Release

abbrev pub set_file : ℕ → File → Open → Open
set_file f x o = record o { file = update o.file f x }

abbrev pub set_fd : (p fd : ℕ) → Option ℕ → Open → Open
set_fd p fd v o = record o { ofile = update o.ofile p (update (o.ofile p) fd v) }

abbrev pub set_ref : ℕ → ℕ → Open → Open
set_ref f n o = set_file f (record (o.file f) { ref = n }) o

-- The first file with no reference.
unfoldable pub filealloc : Open → Option (ℕ × Open)
filealloc o = elim (find_first (λ x. x.ref == 0) nfile 0 o.file) [
  | none ↦ none
  | some f ↦ some (f, set_ref f 1 o)
]

-- `none` is a panic.
unfoldable pub filedup : ℕ → Open → Option Open
filedup f o = if ltb (o.file f).ref 1 then none else some (set_ref f ((o.file f).ref + 1) o)

abbrev pub releases : File → List Release → List Release
releases x l = elim (x.type) [
  | fd_none ↦ l
  | fd_pipe ↦ pipeclose x.pipe x.writable ∷ l
  | fd_inode ↦ iput x.ip ∷ l
]

-- What `fileclose` does when the count falls to 0.
abbrev pub close_last : ℕ → Open → Open
close_last f o = record o {
  file = update o.file f (record (o.file f) { ref = 0; type = fd_none });
  released = releases (o.file f) o.released;
}

pub fileclose : ℕ → Open → Option Open
fileclose f o =
    if ltb (o.file f).ref 1
    then none
    else if ltb 0 ((o.file f).ref - 1)
    then some (set_ref f ((o.file f).ref - 1) o)
    else some (close_last f o)

abbrev pub is_null : Option ℕ → Bool
is_null none = true
is_null (some f) = false

-- The first descriptor of process `p` that is free.
unfoldable pub fdalloc : (p f : ℕ) → Open → Option (ℕ × Open)
fdalloc p f o = elim (find_first is_null nofile 0 (o.ofile p)) [
  | none ↦ none
  | some fd ↦ some (fd, set_fd p fd (some f) o)
]

-- A negative number is a large one.
abbrev pub argfd : (p n : ℕ) → Open → Option ℕ
argfd p n o = if ltb n nofile then o.ofile p n else none

-- What a call comes to: -1, a number, or a panic.
pub data Call : Type 0 where
  fails : Open → Call
  returns : ℕ → Open → Call
  panics : Call

-- `k` goes on from a call of file.c, unless that panics.
abbrev pub unless_panic : Option Open → (Open → Call) → Call
unless_panic none k = panics
unless_panic (some o) k = k o

unfoldable pub sys_dup : (p n : ℕ) → Open → Call
unfolding fdalloc filedup
sys_dup p n o = elim (argfd p n o) [
  | none ↦ fails o
  | some f ↦ elim (fdalloc p f o) [
    | none ↦ fails o
    | some (fd, o1) ↦ unless_panic (filedup f o1) (returns fd)
  ]
]

pub sys_close : (p n : ℕ) → Open → Call
unfolding fileclose
sys_close p n o = elim (argfd p n o) [
  | none ↦ fails o
  | some f ↦ unless_panic (fileclose f (set_fd p n none o)) (returns 0)
]

-- The file that `sys_open` sets up for an inode.
abbrev pub opened : (ip : ℕ) (readable writable : Bool) → File → File
opened ip readable writable x = record x {
  type = fd_inode;
  readable = readable;
  writable = writable;
  ip = ip;
  off = 0;
}

-- `sys_open` from `filealloc` on.
unfoldable pub open_inode : (p ip : ℕ) (readable writable : Bool) → Open → Call
unfolding filealloc fdalloc fileclose
open_inode p ip readable writable o = elim (filealloc o) [
  | none ↦ fails o
  | some (f, o1) ↦ elim (fdalloc p f o1) [
    | none ↦ unless_panic (fileclose f o1) fails
    | some (fd, o2) ↦ returns fd (set_file f (opened ip readable writable (o2.file f)) o2)
  ]
]

-- One round of the loop in `fork`.
pub share_file : (p np fd : ℕ) → Option Open → Option Open
unfolding filedup
share_file p np fd none = none
share_file p np fd (some o) = elim (o.ofile p fd) [
  | none ↦ some o
  | some f ↦ elim (filedup f o) [ none ↦ none | some o1 ↦ some (set_fd np fd (some f) o1) ]
]

pub share_files : (p np : ℕ) → Open → Option Open
unfolding share_file for_range
share_files p np o = for_range nofile 0 (share_file p np) (some o)

-- One round of the loop in `exit`.
pub drop_file : (p fd : ℕ) → Option Open → Option Open
unfolding fileclose
drop_file p fd none = none
drop_file p fd (some o) = elim (o.ofile p fd) [
  | none ↦ some o
  | some f ↦ elim (fileclose f o) [ none ↦ none | some o1 ↦ some (set_fd p fd none o1) ]
]

pub drop_files : (p : ℕ) → Open → Option Open
unfolding drop_file for_range
drop_files p o = for_range nofile 0 (drop_file p) (some o)
