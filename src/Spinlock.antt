-- ===== src/Spinlock.antt =====
-- spinlock.c: nested disabling of interrupts, and one spin lock that CPUs take in any order. `acquire`
-- and `release` are cut where another CPU may come between: at the exchange, at the write of
-- `lk->cpu`, and at the write of `lk->locked`. `none` is a panic.
pub mod Nesting
pub mod Exclusion
use p2b.Prelude.{
  ℕ, zero, suc, ◌+◌, ◌-◌, ◌%◌, ◌^◌, ◌≡◌, Bool, true, false, not, ◌&&◌, Option, none, some, ◌==◌,
  if◌then◌else◌, update,
}
use p2b.Proc.{is_negative, points_to}

-- What a CPU has of its own: the flag FL_IF, and two fields of `struct cpu`.
pub record Core : Type 0 where
  pub interrupts : Bool
  pub ncli : ℕ
  pub intena : Bool

-- `struct spinlock`, without what is there for debugging. A CPU is its number.
pub record SpinLock : Type 0 where
  pub locked : Bool
  pub cpu : Option ℕ

unfoldable pub pushcli : Core → Core
pushcli c = record {
  interrupts = false;
  ncli = (c.ncli + 1) % 2 ^ 32;
  intena = if c.ncli == 0 then c.interrupts else c.intena;
}

unfoldable pub popcli : Core → Option Core
popcli c =
    let n = (c.ncli + 2 ^ 32 - 1) % 2 ^ 32 in
    if c.interrupts
    then none
    else if is_negative n
    then none
    else some (record c { ncli = n; interrupts = n == 0 && c.intena })

-- `holding`, on the CPU `i`.
unfoldable pub holding : (i : ℕ) → Core → SpinLock → Option (Bool × Core)
holding i c lk = elim (popcli (pushcli c)) [
  | none ↦ none
  | some c' ↦ some (lk.locked && points_to lk.cpu i, c')
]

-- `acquire` up to its loop: the panic of a CPU that holds the lock, or the state in which it spins.
abbrev spin_unless : Option (Bool × Core) → Option Core
spin_unless none = none
spin_unless (some (true, c)) = none
spin_unless (some (false, c)) = some c

unfoldable pub enter : (i : ℕ) → Core → SpinLock → Option Core
enter i c lk = spin_unless (holding i (pushcli c) lk)

-- xchg(&lk->locked, 1), and what it returns.
unfoldable pub xchg : SpinLock → Bool × SpinLock
xchg lk = (lk.locked, record lk { locked = true })

-- `release` up to its write of `lk->cpu`.
abbrev give_up_if : SpinLock → Option (Bool × Core) → Option (Core × SpinLock)
give_up_if lk none = none
give_up_if lk (some (false, c)) = none
give_up_if lk (some (true, c)) = some (c, record lk { cpu = none })

pub give_up : (i : ℕ) → Core → SpinLock → Option (Core × SpinLock)
give_up i c lk = give_up_if lk (holding i c lk)

-- Where a CPU is: outside, in the loop of `acquire`, behind it with `lk->cpu` not yet written, between
-- `acquire` and `release`, or in `release` with `lk->locked` not yet written.
pub data Phase : Type 0 where
  outside spinning entered inside leaving : Phase

pub record Machine : Type 0 where
  pub lock : SpinLock
  pub core : ℕ → Core
  pub phase : ℕ → Phase

abbrev pub move : Machine → ℕ → SpinLock → Core → Phase → Machine
move m i lk c p = record { lock = lk; core = update m.core i c; phase = update m.phase i p }

pub data Step (m : Machine) : Machine → Type 0 where
  calls :
      (i : ℕ) {c : Core}
      → m.phase i ≡ outside
      → enter i (m.core i) m.lock ≡ some c
      → Step m (move m i m.lock c spinning)
  fails :
      (i : ℕ)
      → m.phase i ≡ spinning
      → (xchg m.lock).0 ≡ true
      → Step m (move m i (xchg m.lock).1 (m.core i) spinning)
  takes :
      (i : ℕ)
      → m.phase i ≡ spinning
      → (xchg m.lock).0 ≡ false
      → Step m (move m i (xchg m.lock).1 (m.core i) entered)
  owns :
      (i : ℕ)
      → m.phase i ≡ entered
      → Step m (move m i (record m.lock { cpu = some i }) (m.core i) inside)
  gives_up :
      (i : ℕ) {c : Core} {lk : SpinLock}
      → m.phase i ≡ inside
      → give_up i (m.core i) m.lock ≡ some (c, lk)
      → Step m (move m i lk c leaving)
  unlocks :
      (i : ℕ) {c : Core}
      → m.phase i ≡ leaving
      → popcli (m.core i) ≡ some c
      → Step m (move m i (record m.lock { locked = false }) c outside)
  -- Another lock or an interrupt handler changes the CPU's own fields.
  nests : (i : ℕ) (c : Core) → Step m (record m { core = update m.core i c })

pub data Reach (m : Machine) : Machine → Type 0 where
  here : Reach m m
  next : {m' m'' : Machine} → Reach m m' → Step m' m'' → Reach m m''
