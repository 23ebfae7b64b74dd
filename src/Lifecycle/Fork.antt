-- ===== src/Lifecycle/Fork.antt =====
-- `fork`: the child that it makes, and what a failure leaves.
use p2b.Prelude.{
  ℕ, ◌+◌, ◌%◌, ◌^◌, ◌<◌, ◌≡◌, ◌≢◌, refl, sym, ap, ◌∙◌, true, false, arith, Option, none, some, inl,
  inr, ◌⊎◌, IsFirst,
}
use mathlib.Core.Path.{subst}
use native.Mathlib.Decide.{ℕ_discrete}
use p2b.Proc.{Proc, runnable, nproc, nofile}
use p2b.Lifecycle.{Services, Kernel, allocproc, fork}
use p2b.Lifecycle.Copies.{SameName, with_dups, dup_of}
use p2b.Lifecycle.Alloc.{is_free, Full, NoStack, Taken, allocproc_cases}
use p2b.Lifecycle.ForkInto.{Forked, GaveUp, fork_into_cases, fork-miss, fork-hit}

module _ (svc : Services) where
  open svc use {Rest, forkret, kalloc, copyuvm, idup, kfree}

  -- Why `fork` failed, and that it has freed again what it had allocated: no slot was free, or no
  -- page for the stack, or `copyuvm` failed and the stack is freed.
  abbrev pub Failure : ℕ → Kernel Rest → Rest → Type 0
  Failure cur k rest =
      let (stack, r) = kalloc k.rest in
      let (pg, r1) = copyuvm (k.proc cur).pgdir (k.proc cur).sz r in
      (((j : ℕ) → j < nproc → is_free (k.proc j) ≡ false) × (rest ≡ k.rest))
      ⊎ ((stack ≡ 0) × (rest ≡ r))
      ⊎ ((stack ≢ 0) × (pg ≡ 0) × (rest ≡ kfree stack r1))

  -- What a failed `fork` leaves: the processes that there were, each as it was, and no more.
  pub record NoChild (cur : ℕ) (k : Kernel Rest) (out : Option ℕ × Kernel Rest) : Type 0 where
    pub result : out.0 ≡ none
    pub same : (j : ℕ) → j < nproc → is_free (k.proc j) ≡ false → out.1.proc j ≡ k.proc j
    pub free : (j : ℕ) → j < nproc → is_free (k.proc j) ≡ true → is_free (out.1.proc j) ≡ true
    pub nextpid : (out.1.nextpid ≡ k.nextpid) ⊎ (out.1.nextpid ≡ (k.nextpid + 1) % 2 ^ 32)
    pub failure : Failure cur k out.1.rest

  -- The kernel's other tables when the child gets its files: after its stack and page table.
  abbrev pub with_memory : ℕ → Kernel Rest → ℕ × Rest
  with_memory cur k = copyuvm (k.proc cur).pgdir (k.proc cur).sz (kalloc k.rest).1

  -- What a successful `fork` leaves: the first free slot holds a runnable copy of the caller.
  pub record Child (cur np : ℕ) (k : Kernel Rest) (out : Option ℕ × Kernel Rest) : Type 0 where
    pub result : out.0 ≡ some k.nextpid
    pub first : IsFirst is_free 0 nproc k.proc np
    pub state : (out.1.proc np).state ≡ runnable
    pub pid : (out.1.proc np).pid ≡ k.nextpid
    pub parent : (out.1.proc np).parent ≡ some cur
    pub priority : (out.1.proc np).priority ≡ (k.proc cur).priority
    pub run_ticks : (out.1.proc np).run_ticks ≡ 0
    pub sz : (out.1.proc np).sz ≡ (k.proc cur).sz
    pub eax : (out.1.proc np).frame.eax ≡ 0
    pub registers : (out.1.proc np).frame.others ≡ (k.proc cur).frame.others
    pub killed : (out.1.proc np).killed ≡ (k.proc np).killed
    pub kstack : (out.1.proc np).kstack ≡ (kalloc k.rest).0
    pub kstack_full : (out.1.proc np).kstack ≢ 0
    pub eip : (out.1.proc np).saved.eip ≡ forkret
    pub pgdir : (out.1.proc np).pgdir ≡ (with_memory cur k).0
    pub pgdir_full : (out.1.proc np).pgdir ≢ 0
    pub files :
        (fd : ℕ)
        → fd < nofile
        → (out.1.proc np).ofile fd
          ≡ dup_of svc fd (k.proc cur).ofile (k.proc np).ofile (with_memory cur k).1
    pub cwd :
        (out.1.proc np).cwd
        ≡ (idup (k.proc cur).cwd (with_dups svc nofile (k.proc cur).ofile (with_memory cur k).1)).0
    pub rest :
        out.1.rest
        ≡ (idup (k.proc cur).cwd (with_dups svc nofile (k.proc cur).ofile (with_memory cur k).1)).1
    pub name : SameName (k.proc cur).name (out.1.proc np).name
    pub others : (j : ℕ) → j ≢ np → out.1.proc j ≡ k.proc j
    pub nextpid : out.1.nextpid ≡ (k.nextpid + 1) % 2 ^ 32

  module _ (cur : ℕ) (k : Kernel Rest) (used : is_free (k.proc cur) ≡ false) where
    abbrev k1 : Kernel Rest
    k1 = (allocproc svc k).1

    cur-ne : {np : ℕ} → IsFirst is_free 0 nproc k.proc np → cur ≢ np
    cur-ne first e = ground (arith, first.passes, subst (λ m. is_free (k.proc m) ≡ false) e used)

    -- What `copyuvm` is called with, and returns, in terms of the kernel before the call.
    abbrev copied_pages : ℕ × Rest
    copied_pages = copyuvm (k1.proc cur).pgdir (k1.proc cur).sz k1.rest

    copied : (np : ℕ) → Taken svc k (allocproc svc k) np → copied_pages ≡ with_memory cur k
    copied np f =
        ap (λ (p : Proc). copyuvm p.pgdir p.sz k1.rest) (f.others cur (cur-ne f.first))
        ∙ ap (copyuvm (k.proc cur).pgdir (k.proc cur).sz) f.rest

    Full-NoChild : Full k (allocproc svc k) → NoChild cur k (fork svc cur k)
    Full-NoChild f =
        rw (fork-miss svc cur k (ap (λ o. o.0) f.result), f.result)
          (record {
            result = refl;
            same = λ j h u. refl;
            free = λ j h u. u;
            nextpid = inl refl;
            failure = inl (f.taken, refl);
          })

    NoStack-NoChild : (i : ℕ) → NoStack svc k (allocproc svc k) i → NoChild cur k (fork svc cur k)
    NoStack-NoChild i f = rw (fork-miss svc cur k f.result) (record {
      result = refl;
      same = λ j h u.
          f.others j
            (λ e. ground (arith, f.first.passes, subst (λ m. is_free (k.proc m) ≡ false) e u));
      free = λ j h u. elim (ℕ_discrete j i) [
        | yes e ↦ subst (λ m. is_free (k1.proc m) ≡ true) (sym e) f.free
        | no ne ↦ ground (arith, f.others j ne)
      ];
      nextpid = inr f.nextpid;
      failure = inr (inl (f.no_page, f.rest));
    })

    GaveUp-NoChild :
        (np : ℕ) (out : Option ℕ × Kernel Rest)
        → Taken svc k (allocproc svc k) np
        → out.0 ≡ none
        → GaveUp svc np copied_pages.0 copied_pages.1 k1 out.1
        → NoChild cur k out
    GaveUp-NoChild np out f e g = record {
      result = e;
      same = λ j h u.
          let ne : j ≢ np =
            λ q. ground (arith, f.first.passes, subst (λ m. is_free (k.proc m) ≡ false) q u) in
          g.others j ne ∙ f.others j ne;
      free = λ j h u. elim (ℕ_discrete j np) [
        | yes q ↦ subst (λ m. is_free (out.1.proc m) ≡ true) (sym q) g.free
        | no ne ↦ ground (arith, f.others j ne, g.others j ne)
      ];
      nextpid = inr (g.nextpid ∙ f.nextpid);
      failure =
          let same = copied np f in
          inr (
            inr (
              f.page,
              sym (ap (λ o. o.0) same) ∙ g.no_table,
              g.rest
                  ∙ ap (λ v. kfree v copied_pages.1) f.stack
                  ∙ ap (λ o. kfree (kalloc k.rest).0 o.1) same,
            ));
    }

    Forked-Child :
        (np : ℕ) (out : Option ℕ × Kernel Rest)
        → Taken svc k (allocproc svc k) np
        → out.0 ≡ some (k1.proc np).pid
        → copied_pages.0 ≢ 0
        → Forked svc cur np copied_pages.0 copied_pages.1 k1 out.1
        → Child cur np k out
    Forked-Child np out f e full g =
        let own : k1.proc cur ≡ k.proc cur = f.others cur (cur-ne f.first) in
        let old : (k1.proc np).ofile ≡ (k.proc np).ofile = f.files in
        let mem = copied np f in
        let dir : idup (k1.proc cur).cwd (with_dups svc nofile (k1.proc cur).ofile copied_pages.1)
            ≡ idup (k.proc cur).cwd
                (with_dups svc nofile (k.proc cur).ofile (with_memory cur k).1) =
          ap (λ (p : Proc). idup p.cwd (with_dups svc nofile p.ofile copied_pages.1)) own
          ∙ ap (λ o. idup (k.proc cur).cwd (with_dups svc nofile (k.proc cur).ofile o.1)) mem in
        record {
          result = e ∙ ap some f.pid;
          first = f.first;
          state = g.state;
          pid = g.pid ∙ f.pid;
          parent = g.parent;
          priority = g.priority ∙ ap (λ (p : Proc). p.priority) own;
          run_ticks = g.run_ticks;
          sz = g.sz ∙ ap (λ (p : Proc). p.sz) own;
          eax = g.eax;
          registers = g.registers ∙ ap (λ (p : Proc). p.frame.others) own;
          killed = g.killed ∙ f.killed;
          kstack = g.kstack ∙ f.stack;
          kstack_full = λ z. f.page (sym (g.kstack ∙ f.stack) ∙ z);
          eip = g.eip ∙ f.eip;
          pgdir = g.pgdir ∙ ap (λ o. o.0) mem;
          pgdir_full = λ z. full (sym g.pgdir ∙ z);
          files = λ fd lt.
              g.files fd lt
              ∙ ap (λ (p : Proc). dup_of svc fd p.ofile (k1.proc np).ofile copied_pages.1) own
              ∙ ap (λ h. dup_of svc fd (k.proc cur).ofile h copied_pages.1) old
              ∙ ap (λ o. dup_of svc fd (k.proc cur).ofile (k.proc np).ofile o.1) mem;
          cwd = g.cwd ∙ ap (λ o. o.0) dir;
          rest = g.rest ∙ ap (λ o. o.1) dir;
          name = subst (λ (p : Proc). SameName p.name (out.1.proc np).name) own g.name;
          others = λ j ne. g.others j ne ∙ f.others j ne;
          nextpid = g.nextpid ∙ f.nextpid;
        }

    -- `fork` of a process either fails, leaves every process as it was and no new one, and frees what
    -- it has allocated; or it makes the first free slot a runnable child with the next pid, a new
    -- stack and a copy of the page table, whose size, priority, registers and name are the caller's
    -- but for a 0 in `eax`, doubles each open file and the working directory for it, and changes no
    -- other slot.
    pub fork_cases : NoChild cur k (fork svc cur k) ⊎ ((np : ℕ) × Child cur np k (fork svc cur k))
    fork_cases = elim (allocproc_cases svc k) [
      | inl full ↦ inl (Full-NoChild full)
      | inr (inl (i, f)) ↦ inl (NoStack-NoChild i f)
      | inr (inr (np, f)) ↦
          rw (fork-hit svc cur k np f.result)
            (elim (fork_into_cases svc cur np copied_pages k1 (cur-ne f.first)) [
              | inl (e, g) ↦ inl (GaveUp-NoChild np _ f e g)
              | inr (e, full, g) ↦ inr (np, Forked-Child np _ f e full g)
            ])
    ]
