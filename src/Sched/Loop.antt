-- ===== src/Sched/Loop.antt =====
-- The `while` loop of `scheduler`, a round at a time.
use p2b.Prelude.{ℕ, suc, ◌≡◌, true, false, none, some, ltb, arith}
use p2b.Lifecycle.{Services, Kernel}
use p2b.Sched.{high_count, Cpu, high_pass, high_loop, low_pass, round, scheduler}

module _ (svc : Services) where
  open svc use {Rest}

  module _ (run : ℕ → Kernel Rest → Kernel Rest) where
    pub high_loop-zero : (c c' : Cpu Rest) → high_loop svc run 0 c ≡ some c' → ⊥
    unfolding high_loop
    high_loop-zero c c' e = ground arith

    pub high_loop-more :
        (fuel : ℕ) (c : Cpu Rest)
        → ltb 0 (high_count c.kernel.proc) ≡ true
        → high_loop svc run (suc fuel) c ≡ high_loop svc run fuel (high_pass svc run c)
    unfolding high_loop
    high_loop-more fuel c e = rw (e, high_loop)

    pub high_loop-over :
        (fuel : ℕ) (c : Cpu Rest)
        → ltb 0 (high_count c.kernel.proc) ≡ false
        → high_loop svc run (suc fuel) c ≡ some c
    unfolding high_loop
    high_loop-over fuel c e = rw (e, high_loop)

    pub round-some :
        (fuel : ℕ) (c d : Cpu Rest)
        → high_loop svc run fuel (record c { has_hp = false }) ≡ some d
        → round svc run fuel c ≡ some (low_pass svc run d)
    unfolding round
    round-some fuel c d e = rw (e, round)

    pub round-none :
        (fuel : ℕ) (c : Cpu Rest)
        → high_loop svc run fuel (record c { has_hp = false }) ≡ none
        → round svc run fuel c ≡ none
    unfolding round
    round-none fuel c e = rw (e, round)

    pub scheduler-suc :
        (fuel n : ℕ) (c d : Cpu Rest)
        → round svc run fuel c ≡ some d
        → scheduler svc run fuel (suc n) c ≡ scheduler svc run fuel n d
    unfolding scheduler
    scheduler-suc fuel n c d e = rw (e, scheduler)
