-- ===== src/Prelude/Finite.antt =====
-- Tests of all numbers below a bound, by evaluation.
use Prim.Native.Nat.{ℕ, zero, suc, ◌<◌}
use mathlib.Core.Path.{◌≡◌, subst, sym}
use mathlib.Core.Bool.{Bool, true, false}
use native.Mathlib.Omega.{arith}
use native.Mathlib.Decide.{ℕ_discrete}
use p2b.Prelude.Tests.{if◌then◌else◌}

unfoldable pub passes_all : (bound : ℕ) (test : ℕ → Bool) → Bool
passes_all zero test = true
passes_all (suc top) test = if test top then passes_all top test else false

pub passes_all_sound :
    (bound : ℕ) (test : ℕ → Bool)
    → passes_all bound test ≡ true
    → (c : ℕ) → c < bound
    → test c ≡ true
unfolding passes_all
passes_all_sound zero test all c below = absurd (omega arith)
passes_all_sound (suc top) test all c below = elim (ℕ_discrete c top) [
  | yes e ↦ subst (λ b. test b ≡ true) (sym e) (ground arith)
  | no ne ↦ passes_all_sound top test (ground arith) c (omega arith)
]
