-- ===== src/Lifecycle/Parts.antt =====
-- The parts of `fork` and `exit` of proc.c that are steps of their own: what each does to the pids, and
-- that `fork` and `exit` are made of them.
use p2b.Prelude.{
  ℕ, ◌+◌, ◌%◌, ◌^◌, ◌≡◌, ◌≢◌, refl, sym, ap, ◌∙◌, ◌⊎◌, inl, inr, false, arith, none, some,
  Option-cases, find_first, find_first-some, IsFirst,
}
use mathlib.Core.Path.{subst}
use native.Mathlib.Decide.{ℕ_discrete}
use p2b.Proc.{nproc, embryo, points_to}
use p2b.Lifecycle.{
  Services, Kernel, done, claim, claim_slot, set_kstack, finish_alloc, allocproc, fork_into, fork,
  close_all, leave_table, exit,
}
use p2b.Lifecycle.Alloc.{is_free, alloc-miss, alloc-hit}
use p2b.Lifecycle.Pids.{Shrinks}
use p2b.Lifecycle.ForkInto.{fork_into_cases, fork-miss, fork-hit}
use p2b.Lifecycle.Closes.{close_all-Closed}

module _ (svc : Services) where
  open svc use {Rest, kalloc, copyuvm}

  -- A slot gets the next pid.
  pub record Claimed (i : ℕ) (k k' : Kernel Rest) : Type 0 where
    pub state : (k'.proc i).state ≡ embryo
    pub pid : (k'.proc i).pid ≡ k.nextpid
    pub others : (j : ℕ) → j ≢ i → k'.proc j ≡ k.proc j
    pub nextpid : k'.nextpid ≡ (k.nextpid + 1) % 2 ^ 32
    pub rest : k'.rest ≡ k.rest

  pub claim_slot-Claimed : (i : ℕ) (k : Kernel Rest) → Claimed i k (claim_slot svc i k)
  unfolding claim_slot claim
  claim_slot-Claimed i k = record {
    state = ground arith;
    pid = ground arith;
    others = λ j ne. ground arith;
    nextpid = refl;
    rest = refl;
  }

  -- One slot changes, which is free in the end or was in use under the same pid; the counter does not.
  pub record Settled (i : ℕ) (k k' : Kernel Rest) : Type 0 where
    pub own :
        is_free (k.proc i) ≡ false → is_free (k'.proc i) ≡ false → (k'.proc i).pid ≡ (k.proc i).pid
    pub others : (j : ℕ) → j ≢ i → k'.proc j ≡ k.proc j
    pub nextpid : k'.nextpid ≡ k.nextpid

  pub Settled-Shrinks :
      {i : ℕ} {k k' : Kernel Rest}
      → is_free (k.proc i) ≡ false
      → Settled i k k'
      → Shrinks k.proc k'.proc
  Settled-Shrinks {i} {k} {k'} used s j h e = elim (ℕ_discrete j i) [
    | yes q ↦
        let e' : is_free (k'.proc i) ≡ false = subst (λ m. is_free (k'.proc m) ≡ false) q e in
        subst (λ m. (is_free (k.proc m) ≡ false) × ((k'.proc m).pid ≡ (k.proc m).pid)) (sym q)
          (used, s.own used e')
    | no ne ↦ ground (arith, s.others j ne)
  ]

  pub finish_alloc-Settled :
      (i : ℕ) (s : ℕ × Rest) (k : Kernel Rest) → Settled i k (finish_alloc svc i s k).1
  unfolding finish_alloc set_kstack
  finish_alloc-Settled i s k = record {
    own = λ u e. ground arith;
    others = λ j ne. ground arith;
    nextpid = ground arith;
  }

  pub fork_into-Settled :
      (cur np : ℕ) (s : ℕ × Rest) (k : Kernel Rest)
      → cur ≢ np
      → Settled np k (fork_into svc cur np s k).1
  fork_into-Settled cur np s k ne = elim (fork_into_cases svc cur np s k ne) [
    | inl (_, g) ↦ record {
      own = λ u e. absurd (ground (arith, g.free));
      others = g.others;
      nextpid = g.nextpid;
    }
    | inr (_, _, f) ↦ record { own = λ u e. f.pid; others = f.others; nextpid = f.nextpid }
  ]

  pub close_all-Settled : (cur : ℕ) (k : Kernel Rest) → Settled cur k (close_all svc cur k)
  close_all-Settled cur k =
      let c = (close_all-Closed svc cur k).0 in
      record { own = λ u e. ground (arith, c.own); others = c.others; nextpid = c.nextpid }

  pub close_all-used :
      (cur : ℕ) (k : Kernel Rest)
      → is_free (k.proc cur) ≡ false
      → is_free ((close_all svc cur k).proc cur) ≡ false
  close_all-used cur k u = ground (arith, (close_all-Closed svc cur k).0.own)

  -- `fork` finds no free slot; or it claims the first, and then there is no page for a stack, or the
  -- new slot is an embryo and gets the rest.
  pub fork-parts :
      (cur : ℕ) (k : Kernel Rest)
      → (fork svc cur k ≡ (none, k))
        ⊎ ((i : ℕ) × IsFirst is_free 0 nproc k.proc i
            × (let k1 = claim_slot svc i k in
                let k2 = (finish_alloc svc i (kalloc k1.rest) k1).1 in
                ((fork svc cur k).1 ≡ k2)
                ⊎ (((k2.proc i).state ≡ embryo)
                    × (fork svc cur k
                        ≡ fork_into svc cur i
                            (copyuvm (k2.proc cur).pgdir (k2.proc cur).sz k2.rest)
                            k2))))
  unfolding finish_alloc claim_slot claim set_kstack
  fork-parts cur k = elim (Option-cases (find_first is_free nproc 0 k.proc)) [
    | inl miss ↦
        let full = alloc-miss svc k miss in
        inl (rw (fork-miss svc cur k (ap (λ o. o.0) full), full) refl)
    | inr (i, hit) ↦
        let first = find_first-some is_free nproc 0 k.proc i hit in
        let alloc = alloc-hit svc k i hit in
        inr (
          i,
          first,
          elim (ℕ_discrete (kalloc k.rest).0 0) [
            | yes null ↦
                let none_left : (allocproc svc k).0 ≡ none = rw alloc (ground arith) in
                inl (rw (fork-miss svc cur k none_left, alloc) refl)
            | no page ↦
                let some_page : (allocproc svc k).0 ≡ some i = rw alloc (ground arith) in
                inr (ground arith, fork-hit svc cur k i some_page ∙ rw alloc refl)
          ],
        )
  ]

  -- `exit` of a process that is not init closes its files, and then leaves the table.
  pub exit-parts :
      (cur : ℕ) (k : Kernel Rest)
      → points_to k.initproc cur ≡ false
      → (let k1 = close_all svc cur k in
          exit svc cur k ≡ done (record k1 { proc = leave_table k1.initproc cur k1.proc }))
        × ((close_all svc cur k).initproc ≡ k.initproc)
  unfolding exit
  exit-parts cur k other = (ground arith, (close_all-Closed svc cur k).0.initproc)
