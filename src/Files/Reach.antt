-- ===== src/Files/Reach.antt =====
-- The calls on descriptors, in any order, by any processes.
use p2b.Prelude.{ℕ, ◌<◌, ◌≡◌, ◌≢◌, refl, Bool, false, none, [], arith}
use mathlib.Core.Path.{subst}
use p2b.Proc.{nproc, nofile}
use p2b.Files.{
  fd_none, Open, Call, fails, returns, panics, unless_panic, sys_dup, sys_close, open_inode,
  share_files, drop_files,
}
use p2b.Files.Count.{sum, refs_of, refs}
use p2b.Files.Calls.{IsTable}
use p2b.Files.Descriptors.{Kept, sys_dup-Kept, sys_close-Kept, open_inode-Kept}
use p2b.Files.Loops.{share_files-IsTable, drop_files-IsTable}

-- A call of a process.
pub data Request : Type 0 where
  dup : (n : ℕ) → Request
  close : (n : ℕ) → Request
  open_file : (ip : ℕ) (readable writable : Bool) → Request
  fork : (np : ℕ) → Request
  exit : Request

abbrev pub perform : (p : ℕ) → Request → Open → Call
perform p (dup n) o = sys_dup p n o
perform p (close n) o = sys_close p n o
perform p (open_file ip readable writable) o = open_inode p ip readable writable o
perform p (fork np) o = unless_panic (share_files p np o) (returns 0)
perform p exit o = unless_panic (drop_files p o) (returns 0)

-- A new process has no descriptors, as `exit` leaves them.
abbrev pub Allowed : Request → Open → Type 0
Allowed (fork np) o = (np < nproc) × ((fd : ℕ) → fd < nofile → o.ofile np fd ≡ none)
Allowed (dup n) o = Unit {0}
Allowed (close n) o = Unit {0}
Allowed (open_file ip readable writable) o = Unit {0}
Allowed exit o = Unit {0}

pub perform-Kept :
    (p : ℕ) (m : Request) {o : Open}
    → p < nproc
    → Allowed m o
    → IsTable none o
    → Kept (perform p m o)
perform-Kept p (dup n) lt a t = sys_dup-Kept p n lt t
perform-Kept p (close n) lt a t = sys_close-Kept p n lt t
perform-Kept p (open_file ip readable writable) lt a t = open_inode-Kept p ip readable writable lt t
perform-Kept p (fork np) lt a t =
    let (o1, run, kept) = share_files-IsTable p np lt a.0 t a.1 in rw run kept
perform-Kept p exit lt a t = let (o1, run, kept, _) = drop_files-IsTable p lt t in rw run kept

-- The table before the first `open`.
abbrev pub no_files : Open
no_files = record {
  file = λ _. record {
    type = fd_none;
    ref = 0;
    readable = false;
    writable = false;
    pipe = 0;
    ip = 0;
    off = 0;
  };
  ofile = λ _ _. none;
  released = [];
}

-- The states that a series of calls, each by some process, comes to. A call that fails counts too.
pub data Reach : Open → Type 0 where
  start : Reach no_files
  failed :
      (o o1 : Open) (p : ℕ) (m : Request)
      → Reach o
      → p < nproc
      → Allowed m o
      → perform p m o ≡ fails o1
      → Reach o1
  returned :
      (o o1 : Open) (p n : ℕ) (m : Request)
      → Reach o
      → p < nproc
      → Allowed m o
      → perform p m o ≡ returns n o1
      → Reach o1

no_refs : (f : ℕ) → refs no_files.ofile f ≡ 0
unfolding refs refs_of sum
no_refs f = refl

no_files-IsTable : IsTable none no_files
no_files-IsTable = record {
  counted = λ f lt. omega (arith, no_refs f);
  valid = λ p fd f lt below e. absurd (cc e);
  idle = λ f lt z. refl;
}

IsTable-Reach : {o : Open} → Reach o → IsTable none o
IsTable-Reach start = no_files-IsTable
IsTable-Reach (failed o o1 p m r lt a e) = subst Kept e (perform-Kept p m lt a (IsTable-Reach r))
IsTable-Reach (returned o o1 p n m r lt a e) =
    subst Kept e (perform-Kept p m lt a (IsTable-Reach r))

-- Whatever calls on descriptors the processes have made, the count of each open file is the number of
-- descriptors for it in all processes, each descriptor is for a file of the table, and a file without
-- references is of no type. No such call panics then.
pub Reach-IsTable :
    {o : Open}
    → Reach o
    → IsTable none o × ((p : ℕ) (m : Request) → p < nproc → Allowed m o → perform p m o ≢ panics)
Reach-IsTable r =
    (IsTable-Reach r, λ p m lt a e. subst Kept e (perform-Kept p m lt a (IsTable-Reach r)))
