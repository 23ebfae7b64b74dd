-- ===== src/Files/Descriptors.antt =====
-- `sys_dup`, `sys_close` and `sys_open` keep the counts of references right, and do not panic.
use p2b.Prelude.{
  ℕ, ◌<◌, ◌≤◌, ◌≡◌, ◌≢◌, ◌⊎◌, refl, ap, Bool, true, none, some, arith, ltb, Bool-cases,
  Option-cases, inl, inr, update_here, List, ◌∷◌,
}
use p2b.Proc.{nproc, nofile}
use p2b.Files.{
  nfile, File, fd_none, fd_pipe, fd_inode, Release, pipeclose, iput, Open, set_file, set_fd,
  set_ref, fileclose, argfd, releases, Call, fails, returns, panics, sys_dup, sys_close, opened,
  open_inode,
}
use p2b.Files.Count.{refs, refs-pos}
use p2b.Files.Calls.{
  IsTable, IsTable-recount, filedup-some, filealloc-IsTable, filedup-IsTable, fileclose-IsTable,
  fdalloc-cases, take_fd-IsTable, drop_fd-IsTable,
}

-- No panic, and the table is right again.
abbrev pub Kept : Call → Type 0
Kept (fails o) = IsTable none o
Kept (returns n o) = IsTable none o
Kept panics = ⊥

-- Closing the file of the call always works.
pub close_held :
    {o : Open} (f : ℕ)
    → f < nfile
    → IsTable (some f) o
    → (o1 : Open) × (fileclose f o ≡ some o1) × IsTable none o1 × (o1.ofile ≡ o.ofile)
close_held {o} f lt t = elim (fileclose-IsTable f lt t) [
  | inl (some_left, run, kept) ↦ (_, run, kept, refl)
  | inr (last, run, kept) ↦ (_, run, kept, refl)
]

pub argfd-cases :
    (p n : ℕ) (o : Open)
    → (argfd p n o ≡ none)
      ⊎ ((f : ℕ) × (argfd p n o ≡ some f) × (n < nofile) × (o.ofile p n ≡ some f))
argfd-cases p n o = elim (Option-cases (argfd p n o)) [
  | inl e ↦ inl e
  | inr (f, e) ↦ elim (Bool-cases (ltb n nofile)) [
    | inl small ↦ inr (f, e, ground arith, (rw small at e))
    | inr large ↦ absurd (ground arith)
  ]
]

pub sys_dup-Kept : (p n : ℕ) {o : Open} → p < nproc → IsTable none o → Kept (sys_dup p n o)
unfolding sys_dup
sys_dup-Kept p n {o} lt t = elim (argfd-cases p n o) [
  | inl e ↦ rw (e, sys_dup) t
  | inr (f, e, below, here) ↦ elim (fdalloc-cases p f o) [
    | inl full ↦ rw (e, full, sys_dup) t
    | inr (fd, small, free, run) ↦
        let fl = t.valid p n f lt below here in
        let alive : 1 ≤ (o.file f).ref =
          omega (arith, t.counted f fl, refs-pos o.ofile p n f lt below here) in
        rw (e, run, filedup-some f (set_fd p fd (some f) o) alive, sys_dup)
          (take_fd-IsTable p fd f (filedup-IsTable f fl t (refs-pos o.ofile p n f lt below here)) lt
            small fl free)
  ]
]

pub sys_close-Kept : (p n : ℕ) {o : Open} → p < nproc → IsTable none o → Kept (sys_close p n o)
unfolding sys_close
sys_close-Kept p n {o} lt t = elim (argfd-cases p n o) [
  | inl e ↦ rw (e, sys_close) t
  | inr (f, e, below, here) ↦
      let fl = t.valid p n f lt below here in
      let (o1, run, kept, _) = close_held f fl (drop_fd-IsTable p n f t lt below here) in
      rw (e, run, sys_close) kept
]

opened-IsTable :
    {o : Open} (f ip : ℕ) (readable writable : Bool)
    → IsTable none o
    → f < nfile
    → (o.file f).ref ≢ 0
    → IsTable none (set_file f (opened ip readable writable (o.file f)) o)
opened-IsTable {o} f ip readable writable t fl used =
    IsTable-recount f (opened ip readable writable (o.file f)) o.released t fl (λ g ne. refl)
      (t.counted f fl) (λ z. absurd (used z))

pub open_inode-Kept :
    (p ip : ℕ) (readable writable : Bool) {o : Open}
    → p < nproc
    → IsTable none o
    → Kept (open_inode p ip readable writable o)
unfolding open_inode
open_inode-Kept p ip readable writable {o} lt t = elim (filealloc-IsTable t) [
  | inl full ↦ rw (full, open_inode) t
  | inr (f, fl, free, run, held) ↦ elim (fdalloc-cases p f (set_ref f 1 o)) [
    | inl none_left ↦
        let (o1, close, kept, _) = close_held f fl held in
        rw (run, none_left, close, open_inode) kept
    | inr (fd, small, empty, takes) ↦
        rw (run, takes, open_inode)
          (opened-IsTable f ip readable writable (take_fd-IsTable p fd f held lt small fl empty) fl
            (λ z.
              omega
                (arith, z, ap (λ x. x.ref) (update_here o.file f (record (o.file f) { ref = 1 })))))
  ]
]

-- What the last close of a file lets go: its end of the pipe, its inode, or nothing.
pub record IsReleased (x : File) (l l' : List Release) : Type 0 where
  pub pipe_end : x.type ≡ fd_pipe → l' ≡ pipeclose x.pipe x.writable ∷ l
  pub inode : x.type ≡ fd_inode → l' ≡ iput x.ip ∷ l
  pub nothing : x.type ≡ fd_none → l' ≡ l

releases-IsReleased : (x : File) (l : List Release) → IsReleased x l (releases x l)
releases-IsReleased x l = record {
  pipe_end = λ e. rw e refl;
  inode = λ e. rw e refl;
  nothing = λ e. rw e refl;
}

-- Closing a descriptor gives up one reference to its file. Just if that was the last descriptor for it
-- in any process, its end of the pipe is closed if the file is a pipe, and its inode is put back if
-- it is an inode.
pub sys_close_lem :
    (p n f : ℕ) {o : Open}
    → IsTable none o
    → p < nproc
    → n < nofile
    → o.ofile p n ≡ some f
    → (o1 : Open) × (sys_close p n o ≡ returns 0 o1)
      × (o1.ofile ≡ (set_fd p n none o).ofile)
      × IsTable none o1
      × (((1 ≤ refs o1.ofile f) × (o1.released ≡ o.released))
          ⊎ ((refs o1.ofile f ≡ 0) × IsReleased (o.file f) o.released o1.released))
unfolding sys_close
sys_close_lem p n f {o} t lt below here =
    let small : ltb n nofile ≡ true = ground arith in
    let fl = t.valid p n f lt below here in
    elim (fileclose-IsTable f fl (drop_fd-IsTable p n f t lt below here)) [
      | inl (more, run, kept) ↦
          (_, rw (small, here, run, sys_close) refl, refl, kept, inl (more, refl))
      | inr (last, run, kept) ↦ (
        _,
        rw (small, here, run, sys_close) refl,
        refl,
        kept,
        inr (last, releases-IsReleased (o.file f) o.released),
      )
    ]
