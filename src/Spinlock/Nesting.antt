-- ===== src/Spinlock/Nesting.antt =====
-- Nested `pushcli` and `popcli` of spinlock.c.
use p2b.Prelude.{
  ℕ, zero, suc, ◌+◌, ◌^◌, ◌<◌, ◌≡◌, refl, ◌∙◌, ap, false, ◌&&◌, Option, none, some, arith, ◌==◌,
}
use p2b.Spinlock.{Core, pushcli, popcli}

abbrev pub push_all : ℕ → Core → Core
push_all zero c = c
push_all (suc n) c = push_all n (pushcli c)

-- `popcli`, after others that may have panicked.
abbrev pub then_pop : Option Core → Option Core
then_pop none = none
then_pop (some c) = popcli c

abbrev pub pop_all : ℕ → Core → Option Core
pop_all zero c = some c
pop_all (suc n) c = then_pop (pop_all n c)

-- The same nesting depth and the same flag, and inside a nest the same flag to go back to.
pub record IsMatched (c c' : Core) : Type 0 where
  pub ncli : c'.ncli ≡ c.ncli
  pub interrupts : c'.interrupts ≡ c.interrupts
  pub intena : 0 < c.ncli → c'.intena ≡ c.intena

-- Interrupts are off inside a nest.
pub record IsNested (c : Core) : Type 0 where
  pub off : 0 < c.ncli → c.interrupts ≡ false

pushcli-IsNested : (c : Core) → IsNested (pushcli c)
unfolding pushcli
pushcli-IsNested c = record { off = λ _. refl }

popcli-IsMatched :
    (c c1 : Core)
    → IsNested c
    → c.ncli + 1 < 2 ^ 31
    → IsMatched (pushcli c) c1
    → (c' : Core) × (popcli c1 ≡ some c') × IsMatched c c'
unfolding pushcli popcli
popcli-IsMatched c c1 nested small m = (
  record c1 { ncli = c.ncli; interrupts = c.ncli == 0 && c1.intena },
  ground (arith, m.ncli, m.interrupts),
  record {
    ncli = refl;
    interrupts = ground (arith, m.intena, nested.off, m.ncli);
    intena = λ pos. ground (arith, m.intena, m.ncli);
  },
)

pushcli-small : (c : Core) (n : ℕ) → c.ncli + suc n < 2 ^ 31 → (pushcli c).ncli + n < 2 ^ 31
unfolding pushcli
pushcli-small c n small = omega arith

-- As many calls of `popcli` as of `pushcli` undo them, whatever their number: none panics, and the
-- nesting depth and the interrupt flag are as before.
pub pop_all-push_all :
    (n : ℕ) (c : Core)
    → IsNested c
    → c.ncli + n < 2 ^ 31
    → (c' : Core) × (pop_all n (push_all n c) ≡ some c') × IsMatched c c'
pop_all-push_all zero c nested small =
    (c, refl, record { ncli = refl; interrupts = refl; intena = λ _. refl })
pop_all-push_all (suc n) c nested small =
    let (c1, e, m) =
      pop_all-push_all n (pushcli c) (pushcli-IsNested c) (pushcli-small c n small) in
    let (c', e', m') = popcli-IsMatched c c1 nested (omega arith) m in (c', ap then_pop e ∙ e', m')
