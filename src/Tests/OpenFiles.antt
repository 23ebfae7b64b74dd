-- ===== src/Tests/OpenFiles.antt =====
-- The theorems on open files, for a process that opens a file and doubles its descriptor.
use p2b.Prelude.{ℕ, ◌≡◌, ◌≢◌, ◌≤◌, ◌<◌, ◌⊎◌, refl, true, false, none, some, arith, find_first}
use p2b.Proc.{nproc}
use p2b.Files.{
  Open, set_fd, Call, fails, returns, panics, sys_dup, sys_close, open_inode, filealloc, fdalloc,
  filedup,
}
use p2b.Files.Count.{refs}
use p2b.Files.Calls.{IsTable}
use p2b.Files.Descriptors.{IsReleased, sys_close_lem}
use p2b.Files.Reach.{
  Request, dup, open_file, perform, Allowed, no_files, Reach, start, returned, Reach-IsTable,
}

abbrev left_by : Call → Open
left_by (fails o) = o
left_by (returns n o) = o
left_by panics = no_files

abbrev one_open : Open
one_open = left_by (perform 1 (open_file 5 true false) no_files)

one_open_lem : perform 1 (open_file 5 true false) no_files ≡ returns 0 one_open
unfolding open_inode filealloc fdalloc find_first
one_open_lem = refl

abbrev doubled : Open
doubled = left_by (perform 1 (dup 0) one_open)

doubled_lem : perform 1 (dup 0) one_open ≡ returns 1 doubled
unfolding sys_dup filedup open_inode filealloc fdalloc find_first
doubled_lem = refl

doubled-Reach : Reach doubled
doubled-Reach =
    returned one_open doubled 1 1 (dup 0)
      (returned no_files one_open 1 0 (open_file 5 true false) start (omega arith) tt one_open_lem)
      (omega arith) tt doubled_lem

Reach-IsTable_example :
    IsTable none doubled
    × ((p : ℕ) (m : Request) → p < nproc → Allowed m doubled → perform p m doubled ≢ panics)
Reach-IsTable_example = Reach-IsTable doubled-Reach

doubled_fd : doubled.ofile 1 0 ≡ some 0
unfolding sys_dup filedup open_inode filealloc fdalloc find_first
doubled_fd = refl

doubled-IsTable : IsTable none doubled
doubled-IsTable = (Reach-IsTable doubled-Reach).0

sys_close_lem_example :
    (o1 : Open) × (sys_close 1 0 doubled ≡ returns 0 o1)
    × (o1.ofile ≡ (set_fd 1 0 none doubled).ofile)
    × IsTable none o1
    × (((1 ≤ refs o1.ofile 0) × (o1.released ≡ doubled.released))
        ⊎ ((refs o1.ofile 0 ≡ 0) × IsReleased (doubled.file 0) doubled.released o1.released))
sys_close_lem_example = sys_close_lem 1 0 0 doubled-IsTable (omega arith) (omega arith) doubled_fd
