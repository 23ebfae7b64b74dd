-- ===== src/Life/Calls.antt =====
-- The steps of proc.c make up its calls of `fork` and `exit`.
use p2b.Prelude.{ℕ, ◌+◌, ◌^◌, ◌<◌, ◌≡◌, ◌≢◌, sym, ap, inl, inr, false, arith}
use mathlib.Core.Path.{subst}
use p2b.Proc.{points_to}
use p2b.Lifecycle.{Services, Kernel, done, claim_slot, finish_alloc, fork, exit}
use p2b.Lifecycle.Alloc.{is_free}
use p2b.Lifecycle.Parts.{
  claim_slot-Claimed, finish_alloc-Settled, close_all-used, fork-parts, exit-parts,
}
use p2b.Life.{Reach, IsUsed, claims, gets_stack, forks, closes, leaves, here, next}

module _ (svc : Services) where
  open svc use {Rest, kalloc}

  -- What `fork` does, when nothing comes between its steps.
  pub fork-Reach :
      (cur : ℕ) (k : Kernel Rest)
      → IsUsed k cur
      → k.nextpid + 1 < 2 ^ 32
      → Reach svc k (fork svc cur k).1
  fork-Reach cur k used small = elim (fork-parts svc cur k) [
    | inl full ↦ subst (Reach svc k) (sym (ap (λ o. o.1) full)) here
    | inr (i, first, parts) ↦
        let k1 = claim_slot svc i k in
        let k2 = (finish_alloc svc i (kalloc k1.rest) k1).1 in
        let c = claim_slot-Claimed svc i k in
        let s = finish_alloc-Settled svc i (kalloc k1.rest) k1 in
        let ne : cur ≢ i =
          λ e. ground (arith, first.passes, subst (λ m. is_free (k.proc m) ≡ false) e used) in
        let got : Reach svc k k2 = next (next here (claims i first small)) (gets_stack i c.state) in
        elim parts [
          | inl null ↦ subst (Reach svc k) (sym null) got
          | inr (state, rest) ↦
              let used' : IsUsed k2 cur = ground (arith, s.others cur ne, c.others cur ne) in
              subst (Reach svc k) (sym (ap (λ o. o.1) rest)) (next got (forks cur i used' ne state))
        ]
  ]

  -- What `exit` does, when nothing comes between its steps.
  pub exit-Reach :
      (cur : ℕ) (k : Kernel Rest)
      → IsUsed k cur
      → points_to k.initproc cur ≡ false
      → (k' : Kernel Rest) × (exit svc cur k ≡ done k') × Reach svc k k'
  exit-Reach cur k used other =
      let (e, same) = exit-parts svc cur k other in
      (
        _,
        e,
        next (next here (closes cur used other)) (
            leaves cur (close_all-used svc cur k used)
              (subst (λ i. points_to i cur ≡ false) (sym same) other)),
      )
