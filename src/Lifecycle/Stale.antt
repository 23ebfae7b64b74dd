-- ===== src/Lifecycle/Stale.antt =====
-- `kill` of a pid that a free slot still holds, and the `fork` that takes the slot.
use p2b.Prelude.{
  ℕ, ◌≡◌, refl, sym, ◌∙◌, true, false, Option, some, IsFirst, IsFirst-unique, update, arith, inl,
  inr,
}
use mathlib.Core.Path.{subst}
use native.Mathlib.Decide.{ℕ_discrete}
use p2b.Proc.{Table, nproc, kill, mark_killed}
use p2b.Proc.Kill.{has_pid, kill-first}
use p2b.Lifecycle.{Services, Kernel, fork}
use p2b.Lifecycle.Alloc.{is_free}
use p2b.Lifecycle.Fork.{Child, fork_cases}

is_free-mark : (t : Table) (i j : ℕ) → is_free (update t i (mark_killed (t i)) j) ≡ is_free (t j)
is_free-mark t i j = elim (ℕ_discrete i j) [
  | yes e ↦ subst (λ m. is_free (update t i (mark_killed (t i)) m) ≡ is_free (t m)) e (ground arith)
  | no ne ↦ ground arith
]

IsFirst-mark :
    (t : Table) (i np : ℕ)
    → IsFirst is_free 0 nproc (update t i (mark_killed (t i))) np
    → IsFirst is_free 0 nproc t np
IsFirst-mark t i np f = record {
  lower = f.lower;
  upper = f.upper;
  passes = sym (is_free-mark t i np) ∙ f.passes;
  before = λ j lo hi. sym (is_free-mark t i j) ∙ f.before j lo hi;
}

module _ (svc : Services) where
  open svc use {Rest}

  Child-marked :
      (cur np i child : ℕ) (k : Kernel Rest) (out : Option ℕ × Kernel Rest)
      → IsFirst is_free 0 nproc k.proc np
      → Child svc cur i (record k { proc = update k.proc np (mark_killed (k.proc np)) }) out
      → out.0 ≡ some child
      → ((out.1.proc np).pid ≡ child) × ((out.1.proc np).killed ≡ true)
  Child-marked cur np i child k out free c born =
      let e : i ≡ np =
        IsFirst-unique is_free nproc 0 k.proc np i free (IsFirst-mark k.proc np i c.first) in
      subst (λ m. ((out.1.proc m).pid ≡ child) × ((out.1.proc m).killed ≡ true)) e
        (ground (arith, c.result, c.pid), ground (arith, c.killed, e))

  -- Let the first free slot hold a pid that no slot before it holds: 0 if it was never used or was
  -- reaped, or the pid of a fork that failed. Then `kill` of that pid succeeds, and the next
  -- `fork` that succeeds makes a child in that slot that is marked as killed from the start.
  pub fork_born_killed :
      (cur np pid child : ℕ) (k : Kernel Rest)
      → is_free (k.proc cur) ≡ false
      → IsFirst is_free 0 nproc k.proc np
      → IsFirst (has_pid pid) 0 nproc k.proc np
      → (fork svc cur (record k { proc = (kill pid k.proc).1 })).0 ≡ some child
      → let k' = (fork svc cur (record k { proc = (kill pid k.proc).1 })).1 in
        ((kill pid k.proc).0 ≡ some tt) × ((k'.proc np).pid ≡ child) × ((k'.proc np).killed ≡ true)
  fork_born_killed cur np pid child k used free stale born =
      let marked : Table = update k.proc np (mark_killed (k.proc np)) in
      let e : kill pid k.proc ≡ (some tt, marked) = kill-first pid k.proc np stale in
      rw e
        (elim (fork_cases svc cur (record k { proc = marked })
          (is_free-mark k.proc np cur ∙ used)) [
            | inl no_child ↦ absurd (ground (arith, no_child.result, rw e at born))
            | inr (i, c) ↦
                let r = Child-marked cur np i child k _ free c (rw e at born) in (refl, r.0, r.1)
          ])
