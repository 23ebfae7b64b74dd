-- ===== src/Proc/Wakeup.antt =====
-- `wakeup1`: which slots it changes, and how.
use p2b.Prelude.{ℕ, ◌<◌, ◌≡◌, true, false, ◌&&◌, arith, for_range-update, Bool-cases, ◌⊎◌, inl, inr}
use p2b.Proc.{
  Proc, Chan, Table, nproc, runnable, is_sleeping, is_unused, is_zombie, chan_eq, wake, wakeup1,
}

wakeup1-eq : (c : Chan) (t : Table) (i : ℕ) → i < nproc → wakeup1 c t i ≡ wake c (t i)
unfolding wakeup1
wakeup1-eq c t i h = ground (arith, for_range-update (wake c) nproc 0 t i)

-- Each process of the table that sleeps on the channel becomes runnable and keeps all else, and each
-- other slot stays as it is. Afterwards no process of the table sleeps on the channel.
pub wakeup1_exact :
    (c : Chan) (t : Table) (i : ℕ)
    → i < nproc
    → (((is_sleeping (t i).state && chan_eq (t i).chan c ≡ true)
          × (wakeup1 c t i ≡ record (t i) { state = runnable }))
        ⊎ ((is_sleeping (t i).state && chan_eq (t i).chan c ≡ false) × (wakeup1 c t i ≡ t i)))
      × (is_sleeping (wakeup1 c t i).state && chan_eq (wakeup1 c t i).chan c ≡ false)
unfolding wake
wakeup1_exact c t i h = (
  elim (Bool-cases (is_sleeping (t i).state && chan_eq (t i).chan c)) [
    | inl sleeper ↦ inl (sleeper, ground (arith, wakeup1-eq c t i))
    | inr other ↦ inr (other, ground (arith, wakeup1-eq c t i))
  ],
  ground (arith, wakeup1-eq c t i),
)

-- What no wakeup changes.
pub record Keeps (p q : Proc) : Type 0 where
  pub unused : is_unused q.state ≡ is_unused p.state
  pub zombie : is_zombie q.state ≡ is_zombie p.state
  pub pid : q.pid ≡ p.pid
  pub parent : q.parent ≡ p.parent
  pub chan : q.chan ≡ p.chan
  pub killed : q.killed ≡ p.killed
  pub ofile : q.ofile ≡ p.ofile
  pub priority : q.priority ≡ p.priority
  pub sleeping : is_sleeping q.state ≡ true → is_sleeping p.state ≡ true

pub wakeup1-Keeps : (c : Chan) (t : Table) (i : ℕ) → Keeps (t i) (wakeup1 c t i)
unfolding wakeup1 wake
wakeup1-Keeps c t i = record {
  unused = ground (arith, for_range-update (wake c) nproc 0 t i);
  zombie = ground (arith, for_range-update (wake c) nproc 0 t i);
  pid = ground (arith, for_range-update (wake c) nproc 0 t i);
  parent = ground (arith, for_range-update (wake c) nproc 0 t i);
  chan = ground (arith, for_range-update (wake c) nproc 0 t i);
  killed = ground (arith, for_range-update (wake c) nproc 0 t i);
  ofile = ground (arith, for_range-update (wake c) nproc 0 t i);
  priority = ground (arith, for_range-update (wake c) nproc 0 t i);
  sleeping = λ s. ground (arith, for_range-update (wake c) nproc 0 t i);
}

pub wakeup1_none_left :
    (c : Chan) (t : Table) (i : ℕ)
    → i < nproc
    → is_sleeping (wakeup1 c t i).state ≡ true
    → chan_eq (wakeup1 c t i).chan c ≡ false
unfolding wake
wakeup1_none_left c t i h s = ground (arith, wakeup1-eq c t i)
