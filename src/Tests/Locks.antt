-- ===== src/Tests/Locks.antt =====
-- The theorems on the spin lock, for two CPUs.
use p2b.Prelude.{◌≡◌, refl, true, false, none, some, arith}
use p2b.Spinlock.{
  Core, popcli, pushcli, holding, enter, xchg, spinning, entered, outside, inside, Machine, move,
  Reach, here, next, calls, takes, owns,
}
use p2b.Spinlock.Nesting.{IsNested}
use p2b.Spinlock.Exclusion.{has_lock, IsFree, mutual_exclusion}

abbrev idle : Core
idle = record { interrupts = true; ncli = 0; intena = false }

idle-IsNested : IsNested idle
idle-IsNested = record { off = λ pos. absurd (omega arith) }

abbrev unlocked : Machine
unlocked = record {
  lock = record { locked = false; cpu = none };
  core = λ _. idle;
  phase = λ _. outside;
}

unlocked-IsFree : IsFree unlocked
unlocked-IsFree = record { locked = refl; cpu = refl; nobody = λ j. refl }

-- Within `acquire`, with interrupts off.
abbrev held_off : Core
held_off = record { interrupts = false; ncli = 1; intena = true }

-- CPU 1 has acquired the lock.
abbrev spins_at_1 : Machine
spins_at_1 = move unlocked 1 unlocked.lock held_off spinning

abbrev owned_by_1 : Machine
owned_by_1 =
    move (move spins_at_1 1 (xchg spins_at_1.lock).1 held_off entered) 1
      (record (xchg spins_at_1.lock).1 { cpu = some 1 }) held_off inside

owned_by_1-Reach : Reach unlocked owned_by_1
unfolding enter xchg holding pushcli popcli
owned_by_1-Reach = next (next (next here (calls 1 refl refl)) (takes 1 refl refl)) (owns 1 refl)

mutual_exclusion_example : has_lock (owned_by_1.phase 0) ≡ false
mutual_exclusion_example = mutual_exclusion 1 0 (omega arith) unlocked-IsFree owned_by_1-Reach refl
