-- ===== src/Lifecycle/ForkInto.antt =====
-- `fork` of proc.c from `copyuvm` on: the child that it starts, or the slot that it gives up.
use p2b.Prelude.{
  ℕ, ◌<◌, ◌≡◌, ◌≢◌, sym, ap, ◌∙◌, true, arith, ◌==◌, none, some, for_range, update_here,
  update_other, Bool-cases, inl, inr, ◌⊎◌,
}
use mathlib.Core.Path.{subst}
use p2b.Proc.{Proc, runnable, nofile}
use p2b.Lifecycle.{
  Services, Kernel, set_proc, set_rest, allocproc, dup_file, inherit, copy_name, start_child,
  fork_into, fork,
}
use p2b.Lifecycle.Copies.{SameName, copy_name-SameName, with_dups, dup_of, Copied, dup_files-Copied}
use p2b.Lifecycle.Alloc.{is_free}

module _ (svc : Services) where
  open svc use {Rest, forkret, kalloc, copyuvm, idup, kfree}

  -- The child that `fork` starts, and what it leaves alone.
  pub record Forked (cur np pg : ℕ) (r : Rest) (k k' : Kernel Rest) : Type 0 where
    pub state : (k'.proc np).state ≡ runnable
    pub pid : (k'.proc np).pid ≡ (k.proc np).pid
    pub parent : (k'.proc np).parent ≡ some cur
    pub priority : (k'.proc np).priority ≡ (k.proc cur).priority
    pub run_ticks : (k'.proc np).run_ticks ≡ 0
    pub sz : (k'.proc np).sz ≡ (k.proc cur).sz
    pub eax : (k'.proc np).frame.eax ≡ 0
    pub registers : (k'.proc np).frame.others ≡ (k.proc cur).frame.others
    pub killed : (k'.proc np).killed ≡ (k.proc np).killed
    pub kstack : (k'.proc np).kstack ≡ (k.proc np).kstack
    pub eip : (k'.proc np).saved.eip ≡ (k.proc np).saved.eip
    pub pgdir : (k'.proc np).pgdir ≡ pg
    pub files :
        (fd : ℕ)
        → fd < nofile
        → (k'.proc np).ofile fd ≡ dup_of svc fd (k.proc cur).ofile (k.proc np).ofile r
    pub cwd :
        (k'.proc np).cwd ≡ (idup (k.proc cur).cwd (with_dups svc nofile (k.proc cur).ofile r)).0
    pub rest : k'.rest ≡ (idup (k.proc cur).cwd (with_dups svc nofile (k.proc cur).ofile r)).1
    pub name : SameName (k.proc cur).name (k'.proc np).name
    pub others : (j : ℕ) → j ≢ np → k'.proc j ≡ k.proc j
    pub nextpid : k'.nextpid ≡ k.nextpid

  start_child-Forked :
      (cur np pg : ℕ) (k : Kernel Rest) (r : Rest)
      → cur ≢ np
      → Forked cur np pg r k (
          start_child svc cur np
            (set_proc (set_rest k r) np (inherit cur pg (k.proc cur) (k.proc np))))
  unfolding start_child inherit
  start_child-Forked cur np pg k r ne =
      let k0 = set_proc (set_rest k r) np (inherit cur pg (k.proc cur) (k.proc np)) in
      let k1 = for_range nofile 0 (dup_file svc cur np) k0 in
      let c : Copied svc cur np k0 nofile k1 = dup_files-Copied svc cur np k0 ne in
      let before : k0.proc cur ≡ k.proc cur = update_other k.proc np _ cur ne in
      let own : k1.proc cur ≡ k.proc cur = c.others cur ne ∙ before in
      let old : (k0.proc np).ofile ≡ (k.proc np).ofile = ground arith in
      let doubled : k1.rest ≡ with_dups svc nofile (k.proc cur).ofile r =
        c.rest ∙ ap (λ (p : Proc). with_dups svc nofile p.ofile r) before in
      let dir : idup (k1.proc cur).cwd k1.rest
          ≡ idup (k.proc cur).cwd (with_dups svc nofile (k.proc cur).ofile r) =
        ap (λ (p : Proc). idup p.cwd k1.rest) own ∙ ap (idup (k.proc cur).cwd) doubled in
      record {
        state = ground (arith, c.child);
        pid = ground (arith, c.child);
        parent = ground (arith, c.child);
        priority = ground (arith, c.child);
        run_ticks = ground (arith, c.child);
        sz = ground (arith, c.child);
        eax = ground (arith, c.child);
        registers = ground (arith, c.child);
        killed = ground (arith, c.child);
        kstack = ground (arith, c.child);
        eip = ground (arith, c.child);
        pgdir = ground (arith, c.child);
        files = λ fd lt.
            ap (λ (p : Proc). p.ofile fd) (update_here k1.proc np _)
            ∙ c.files fd lt
            ∙ ap (λ (p : Proc). dup_of svc fd p.ofile (k0.proc np).ofile r) before
            ∙ ap (λ g. dup_of svc fd (k.proc cur).ofile g r) old;
        cwd = ap (λ (p : Proc). p.cwd) (update_here k1.proc np _) ∙ ap (λ o. o.0) dir;
        rest = ap (λ o. o.1) dir;
        name =
            subst (λ g. SameName (k.proc cur).name g)
              (sym (
                ap (λ (p : Proc). p.name) (update_here k1.proc np _)
                ∙ ap (λ (p : Proc). copy_name 15 0 p.name (k1.proc np).name) own))
              (copy_name-SameName (k.proc cur).name (k1.proc np).name);
        others = λ j far. ground (arith, c.others j far);
        nextpid = ground (arith, c.nextpid);
      }

  -- Without a page table the new slot is free again.
  pub record GaveUp (np pg : ℕ) (r : Rest) (k k' : Kernel Rest) : Type 0 where
    pub no_table : pg ≡ 0
    pub rest : k'.rest ≡ kfree (k.proc np).kstack r
    pub free : is_free (k'.proc np) ≡ true
    pub others : (j : ℕ) → j ≢ np → k'.proc j ≡ k.proc j
    pub nextpid : k'.nextpid ≡ k.nextpid

  pub fork_into_cases :
      (cur np : ℕ) (s : ℕ × Rest) (k : Kernel Rest)
      → cur ≢ np
      → (((fork_into svc cur np s k).0 ≡ none) × GaveUp np s.0 s.1 k (fork_into svc cur np s k).1)
        ⊎ (((fork_into svc cur np s k).0 ≡ some (k.proc np).pid)
            × (s.0 ≢ 0)
            × Forked cur np s.0 s.1 k (fork_into svc cur np s k).1)
  unfolding fork_into
  fork_into_cases cur np (pg, r) k ne = elim (Bool-cases (pg == 0)) [
    | inl null ↦ inl (
      ground arith,
      record {
        no_table = ground arith;
        rest = ground arith;
        free = ground arith;
        others = λ j far. ground arith;
        nextpid = ground arith;
      },
    )
    | inr full ↦
        inr (ground arith, ground arith, rw (full, fork_into) (start_child-Forked cur np pg k r ne))
  ]

  pub fork-miss :
      (cur : ℕ) (k : Kernel Rest)
      → (allocproc svc k).0 ≡ none
      → fork svc cur k ≡ (none, (allocproc svc k).1)
  unfolding fork
  fork-miss cur k e = ground arith

  pub fork-hit :
      (cur : ℕ) (k : Kernel Rest) (np : ℕ)
      → (allocproc svc k).0 ≡ some np
      → fork svc cur k ≡ (
          let k1 = (allocproc svc k).1 in
          fork_into svc cur np (copyuvm (k1.proc cur).pgdir (k1.proc cur).sz k1.rest) k1)
  unfolding fork
  fork-hit cur k np e = ground arith
