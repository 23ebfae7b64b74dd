-- ===== src/Sched/Ends.antt =====
-- The `while` loop of `scheduler`, when its processes settle.
use p2b.Prelude.{
  ℕ, ◌+◌, ◌<◌, ◌≡◌, refl, ◌∙◌, false, some, arith, ltb, for_range_inv, Bool-cases, inl, inr,
}
use native.Mathlib.Decide.{ℕ_discrete}
use p2b.Proc.{nproc}
use p2b.Lifecycle.{Services, Kernel}
use p2b.Sched.{
  is_high, high_count, Cpu, start, dispatch, offer_high, high_pass, high_loop, low_pass, round,
}
use p2b.Sched.Count.{high_count-eq_zero_iff}
use p2b.Sched.Loop.{high_loop-more, high_loop-over, round-some}

module _ (svc : Services) where
  open svc use {Rest}

  -- A process of priority 1 that runs blocks, exits or lowers its priority before it gives the CPU
  -- back, and in the meantime none of priority 1 becomes runnable.
  pub record Settles (run : ℕ → Kernel Rest → Kernel Rest) : Type 0 where
    pub own : (i : ℕ) (k : Kernel Rest) → is_high ((run i (start svc i k)).proc i) ≡ false
    pub others :
        (i j : ℕ) (k : Kernel Rest)
        → is_high (k.proc j) ≡ false
        → is_high ((run i (start svc i k)).proc j) ≡ false

  module _ (run : ℕ → Kernel Rest → Kernel Rest) (settles : Settles run) where
    -- The first `i` slots hold no runnable process of priority 1.
    abbrev Quiet : ℕ → Cpu Rest → Type 0
    Quiet i c = (j : ℕ) → j < i → is_high (c.kernel.proc j) ≡ false

    offer_high-Quiet : (i : ℕ) (c : Cpu Rest) → Quiet i c → Quiet (i + 1) (offer_high svc run i c)
    unfolding offer_high dispatch
    offer_high-Quiet i c q j h = elim (Bool-cases (is_high (c.kernel.proc i))) [
      | inl high ↦ rw high (elim (ℕ_discrete j i) [
        | yes e ↦ rw e (settles.own i c.kernel)
        | no ne ↦ settles.others i j c.kernel (q j (omega arith))
      ])
      | inr low ↦ rw low (elim (ℕ_discrete j i) [ yes e ↦ rw e low | no ne ↦ q j (omega arith) ])
    ]

    high_pass-zero : (c : Cpu Rest) → high_count (high_pass svc run c).kernel.proc ≡ 0
    unfolding high_pass
    high_pass-zero c = (high_count-eq_zero_iff _).1 (
        for_range_inv Quiet (offer_high svc run) nproc (λ i s _ q. offer_high-Quiet i s q) nproc 0 c
          (omega arith) (λ j h. absurd (omega arith)))

    high_loop_ends : (c : Cpu Rest) → (c' : Cpu Rest) × (high_loop svc run 2 c ≡ some c')
    high_loop_ends c = elim (Bool-cases (ltb 0 (high_count c.kernel.proc))) [
      | inl more ↦ (
        high_pass svc run c,
        high_loop-more svc run 1 c more
            ∙ high_loop-over svc run 0 (high_pass svc run c) (rw (high_pass-zero c) refl),
      )
      | inr over ↦ (c, high_loop-over svc run 1 c over)
    ]

    -- If each process of priority 1 gives the CPU back blocked, dead or of lower priority, and none
    -- becomes runnable meanwhile, then a round of the scheduler ends, after one scan of the table.
    pub round_ends : (c : Cpu Rest) → (c' : Cpu Rest) × (round svc run 2 c ≡ some c')
    round_ends c =
        let (d, e) = high_loop_ends (record c { has_hp = false }) in
        (low_pass svc run d, round-some svc run 2 c d e)
