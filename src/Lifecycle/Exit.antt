-- ===== src/Lifecycle/Exit.antt =====
-- `exit` of proc.c: the table that it leaves.
use p2b.Prelude.{
  ℕ, ◌+◌, ◌<◌, ◌≡◌, refl, true, false, ◌&&◌, arith, ltb, if◌then◌else◌, update, Option, for_range,
  for_range_inv,
}
use mathlib.Core.Path.{subst}
use native.Mathlib.Decide.{ℕ_discrete}
use p2b.Proc.{
  Proc, Table, zombie, nproc, nofile, is_unused, is_zombie, is_sleeping, points_to, chan_of,
  chan_eq, wakeup1,
}
use p2b.Proc.Wakeup.{Keeps, wakeup1-Keeps, wakeup1_none_left}
use p2b.Lifecycle.{Services, Kernel, done, close_all, abandon, leave_table, exit}
use p2b.Lifecycle.Closes.{with_closes, put_back, Closed, close_all-Closed}

-- After `i` rounds of the loop of `exit` that began at the table `t0`: the children of `cur` below
-- `i` belong to init, and init is awake if one of them is a zombie.
record Abandoned (init : Option ℕ) (cur : ℕ) (t0 : Table) (i : ℕ) (t : Table) : Type 0 where
  parent :
      (j : ℕ)
      → (t j).parent ≡ (if ltb j i && points_to (t0 j).parent cur then init else (t0 j).parent)
  zombies : (j : ℕ) → is_zombie (t j).state ≡ is_zombie (t0 j).state
  unused : (j : ℕ) → is_unused (t j).state ≡ is_unused (t0 j).state
  pid : (j : ℕ) → (t j).pid ≡ (t0 j).pid
  ofile : (j : ℕ) → (t j).ofile ≡ (t0 j).ofile
  chan : (j : ℕ) → (t j).chan ≡ (t0 j).chan
  asleep : (j : ℕ) → is_sleeping (t j).state ≡ true → is_sleeping (t0 j).state ≡ true
  woken :
      (j : ℕ)
      → j < i
      → points_to (t0 j).parent cur ≡ true
      → is_zombie (t0 j).state ≡ true
      → (q : ℕ) → q < nproc
      → is_sleeping (t q).state ≡ true
      → chan_eq (t q).chan (chan_of init) ≡ false

abandon-zombie :
    (init : Option ℕ) (cur i : ℕ) (t : Table)
    → points_to (t i).parent cur ≡ true
    → is_zombie (t i).state ≡ true
    → abandon init cur i t ≡ wakeup1 (chan_of init) (update t i (record (t i) { parent = init }))
unfolding abandon
abandon-zombie init cur i t c z = rw (c, z)

abandon-Abandoned :
    (init : Option ℕ) (cur : ℕ) (t0 : Table) (i : ℕ) (t : Table)
    → i < nproc
    → Abandoned init cur t0 i t
    → Abandoned init cur t0 (i + 1) (abandon init cur i t)
unfolding abandon
abandon-Abandoned init cur t0 i t h a = record {
  parent = λ j. ground (arith, a.parent j, a.parent i, kept j);
  zombies = λ j. ground (arith, a.zombies j, kept j);
  unused = λ j. ground (arith, a.unused j, kept j);
  pid = λ j. ground (arith, a.pid j, kept j);
  ofile = λ j. ground (arith, a.ofile j, kept j);
  chan = λ j. ground (arith, a.chan j, kept j);
  asleep = λ j s. ground (arith, a.asleep j, kept j);
  woken = λ j lt c z q hq s. elim (ℕ_discrete j i) [
    | yes e ↦
        let same : points_to (t i).parent cur ≡ true = ground (arith, a.parent i, e) in
        let dead : is_zombie (t i).state ≡ true = ground (arith, a.zombies i, e) in
        let step = abandon-zombie init cur i t same dead in
        rw step (wakeup1_none_left (chan_of init) t1 q hq (rw step at s))
    | no ne ↦ ground (arith, a.woken j (omega arith) c z q hq, kept q)
  ];
}
  where
    t1 : Table
    t1 = update t i (record (t i) { parent = init })

    kept : (j : ℕ) → Keeps (t1 j) (wakeup1 (chan_of init) t1 j)
    kept j = wakeup1-Keeps (chan_of init) t1 j

-- The table when `cur` has left it: `cur` is a zombie, its children belong to init and the other
-- parents are as before, no process sleeps on the parent of `cur`, and none on init if init got a
-- zombie.
pub record Left (init : Option ℕ) (cur : ℕ) (t t' : Table) : Type 0 where
  pub zombie : (t' cur).state ≡ zombie
  pub parents :
      (j : ℕ)
      → j < nproc
      → (t' j).parent ≡ (if points_to (t j).parent cur then init else (t j).parent)
  pub parent_awake :
      (q : ℕ)
      → q < nproc
      → is_sleeping (t' q).state ≡ true
      → chan_eq (t' q).chan (chan_of (t cur).parent) ≡ false
  pub init_awake :
      (j : ℕ)
      → j < nproc
      → points_to (t j).parent cur ≡ true
      → is_zombie (t j).state ≡ true
      → (q : ℕ) → q < nproc
      → is_sleeping (t' q).state ≡ true
      → chan_eq (t' q).chan (chan_of init) ≡ false
  pub pids : (j : ℕ) → (t' j).pid ≡ (t j).pid
  pub used :
      is_unused (t cur).state ≡ false → (j : ℕ) → is_unused (t' j).state ≡ is_unused (t j).state

module _ (init : Option ℕ) (cur : ℕ) (t : Table) where
  abbrev woken_parent : Table
  woken_parent = wakeup1 (chan_of (t cur).parent) t

  loop : Abandoned init cur woken_parent nproc (for_range nproc 0 (abandon init cur) woken_parent)
  loop =
      for_range_inv (Abandoned init cur woken_parent) (abandon init cur) nproc
        (λ i s h a. abandon-Abandoned init cur woken_parent i s h a) nproc 0 woken_parent
        (omega arith)
        (record {
          parent = λ j. ground arith;
          zombies = λ j. refl;
          unused = λ j. refl;
          pid = λ j. refl;
          ofile = λ j. refl;
          chan = λ j. refl;
          asleep = λ j s. s;
          woken = λ j lt. absurd (omega arith);
        })

  pub leave_table-Left : Left init cur t (leave_table init cur t)
  unfolding leave_table
  leave_table-Left = record {
    zombie = ground arith;
    parents = λ j h. ground (arith, loop.parent j, kept j);
    parent_awake = λ q h s.
        ground
          (arith, loop.asleep q, loop.chan q, wakeup1_none_left (chan_of (t cur).parent) t q h);
    init_awake = λ j h c z q hq s.
        let c1 : points_to (woken_parent j).parent cur ≡ true = ground (arith, kept j) in
        let z1 : is_zombie (woken_parent j).state ≡ true = ground (arith, kept j) in
        ground (arith, loop.woken j h c1 z1 q hq);
    pids = λ j. ground (arith, loop.pid j, kept j);
    used = λ u j. ground (arith, loop.unused j, kept j);
  }
    where
      kept : (j : ℕ) → Keeps (t j) (woken_parent j)
      kept j = wakeup1-Keeps (chan_of (t cur).parent) t j

leave_table-ofile :
    (init : Option ℕ) (cur : ℕ) (t : Table) (j : ℕ) → (leave_table init cur t j).ofile ≡ (t j).ofile
unfolding leave_table
leave_table-ofile init cur t j =
    ground (arith, (loop init cur t).ofile j, wakeup1-Keeps (chan_of (t cur).parent) t j)

-- `Left` reads only these fields of the table before.
record SameLinks (p q : Proc) : Type 0 where
  parent : q.parent ≡ p.parent
  state : q.state ≡ p.state
  pid : q.pid ≡ p.pid

Left-SameLinks :
    {init : Option ℕ} {cur : ℕ} {t u t' : Table}
    → ((j : ℕ) → SameLinks (t j) (u j))
    → Left init cur u t'
    → Left init cur t t'
Left-SameLinks {init} {cur} {t} {u} {t'} same l = record {
  zombie = l.zombie;
  parents = λ j h. ground (arith, same j, l.parents j h);
  parent_awake = λ q h s. ground (arith, same cur, l.parent_awake q h);
  init_awake = λ j h c z q hq s.
      let c1 : points_to (u j).parent cur ≡ true = ground (arith, same j) in
      let z1 : is_zombie (u j).state ≡ true = ground (arith, same j) in
      l.init_awake j h c1 z1 q hq s;
  pids = λ j. ground (arith, same j, l.pids j);
  used = λ e j. ground (arith, same cur, same j, l.used (ground (arith, same cur)) j);
}

module _ (svc : Services) where
  open svc use {Rest}

  -- Init cannot exit.
  pub exit-panic :
      (cur : ℕ) (k k' : Kernel Rest)
      → points_to k.initproc cur ≡ true
      → exit svc cur k ≡ done k'
      → ⊥
  unfolding exit
  exit-panic cur k k' is_init e = ground arith

  -- `exit` of a process that is not init always gets to its call of `sched`. Then the process is a
  -- zombie with no open file, and each file that it had open is closed and its directory put back; its children have init for a parent and every other slot keeps its
  -- parent; no process sleeps on its parent's channel, and none on init's if init got a zombie; each
  -- slot keeps its pid, and none is freed or put to use if that of the process is in use.
  pub exit_leaves :
      (cur : ℕ) (k : Kernel Rest)
      → points_to k.initproc cur ≡ false
      → (k' : Kernel Rest) × (exit svc cur k ≡ done k')
        × Left k.initproc cur k.proc k'.proc
        × ((fd : ℕ) → fd < nofile → (k'.proc cur).ofile fd ≡ 0)
        × (k'.rest
            ≡ put_back svc (k.proc cur).cwd (with_closes svc nofile (k.proc cur).ofile k.rest))
        × (k'.nextpid ≡ k.nextpid)
  unfolding exit
  exit_leaves cur k not_init =
      let k1 = close_all svc cur k in
      let t' = leave_table k1.initproc cur k1.proc in
      (
        record k1 { proc = t' },
        ground (arith, c.initproc),
        subst (λ i. Left i cur k.proc t') c.initproc
            (Left-SameLinks same (leave_table-Left k1.initproc cur k1.proc)),
        (λ fd lt. rw (leave_table-ofile k1.initproc cur k1.proc cur) (c.files fd lt)),
        c.rest,
        c.nextpid,
      )
    where
      c : Closed svc cur nofile (put_back svc (k.proc cur).cwd) k (close_all svc cur k)
      c = (close_all-Closed svc cur k).0

      same : (j : ℕ) → SameLinks (k.proc j) ((close_all svc cur k).proc j)
      same j = elim (ℕ_discrete j cur) [
        | yes e ↦ rw e (record {
          parent = ground (arith, c.own);
          state = ground (arith, c.own);
          pid = ground (arith, c.own);
        })
        | no ne ↦ record {
          parent = ground (arith, c.others j ne);
          state = ground (arith, c.others j ne);
          pid = ground (arith, c.others j ne);
        }
      ]
