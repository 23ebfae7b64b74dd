-- ===== src/Spinlock/Exclusion.antt =====
-- The owner of a spin lock, under the steps of `acquire` and `release`.
use p2b.Prelude.{
  ℕ, ◌≡◌, ◌≢◌, refl, sym, ◌∙◌, ◌⊎◌, inl, inr, Bool, true, false, ◌&&◌, none, some, arith,
  if◌then◌else◌, Option-cases,
}
use mathlib.Core.Path.{subst}
use native.Mathlib.Decide.{ℕ_discrete}
use p2b.Proc.{points_to}
use p2b.Spinlock.{
  Core, SpinLock, pushcli, popcli, holding, xchg, give_up, Phase, outside, spinning, inside,
  Machine, move, Step, calls, fails, takes, owns, gives_up, unlocks, nests, Reach, here, next,
}

-- Has the CPU taken the lock and not yet freed it?
abbrev pub has_lock : Phase → Bool
has_lock outside = false
has_lock spinning = false
has_lock _ = true

abbrev pub is_inside : Phase → Bool
is_inside inside = true
is_inside _ = false

pub record IsFree (m : Machine) : Type 0 where
  pub locked : m.lock.locked ≡ false
  pub cpu : m.lock.cpu ≡ none
  pub nobody : (j : ℕ) → has_lock (m.phase j) ≡ false

pub record IsOwned (m : Machine) (i : ℕ) : Type 0 where
  pub locked : m.lock.locked ≡ true
  pub cpu : m.lock.cpu ≡ (if is_inside (m.phase i) then some i else none)
  pub owner : has_lock (m.phase i) ≡ true
  pub others : (j : ℕ) → j ≢ i → has_lock (m.phase j) ≡ false

abbrev pub IsExclusive : Machine → Type 0
IsExclusive m = IsFree m ⊎ ((i : ℕ) × IsOwned m i)

-- A CPU that has no lock moves to where it has none either.
IsExclusive-move :
    (m : Machine) (i : ℕ) (c : Core) (p : Phase)
    → has_lock (m.phase i) ≡ false
    → has_lock p ≡ false
    → IsExclusive m
    → IsExclusive (move m i m.lock c p)
IsExclusive-move m i c p before after (inl f) =
    inl (record { locked = f.locked; cpu = f.cpu; nobody = λ j. ground (arith, f.nobody j) })
IsExclusive-move m i c p before after (inr (k, o)) =
    let ne : k ≢ i =
      λ e. ground (arith, o.owner, subst (λ q. has_lock (m.phase q) ≡ false) (sym e) before) in
    inr (
      k,
      record {
        locked = o.locked;
        cpu = ground (arith, o.cpu);
        owner = ground (arith, o.owner);
        others = λ j n. ground (arith, o.others j n);
      },
    )

-- The CPU that has the lock is its owner.
IsOwned-of : {m : Machine} (i : ℕ) → has_lock (m.phase i) ≡ true → IsExclusive m → IsOwned m i
IsOwned-of {m} i has (inl f) = absurd (ground (arith, f.nobody i))
IsOwned-of {m} i has (inr (k, o)) = elim (ℕ_discrete i k) [
  | yes e ↦ subst (IsOwned m) (sym e) o
  | no ne ↦ absurd (ground (arith, o.others i ne))
]

unlocked-IsFree : {m : Machine} → m.lock.locked ≡ false → IsExclusive m → IsFree m
unlocked-IsFree free (inl f) = f
unlocked-IsFree free (inr (k, o)) = absurd (ground (arith, o.locked))

give_up-lock :
    (i : ℕ) (c c' : Core) (lk lk' : SpinLock)
    → give_up i c lk ≡ some (c', lk')
    → (lk'.locked ≡ lk.locked) × (lk'.cpu ≡ none)
unfolding give_up
give_up-lock i c c' lk lk' e = elim (Option-cases (holding i c lk)) [
  | inl miss ↦ ground arith
  | inr ((true, d), hit) ↦ ground arith
  | inr ((false, d), hit) ↦ ground arith
]

Step-IsExclusive : {m m' : Machine} → Step m m' → IsExclusive m → IsExclusive m'
unfolding xchg
Step-IsExclusive {m} (calls i out e) x = IsExclusive-move m i _ spinning (rw out refl) refl x
Step-IsExclusive {m} (fails i spin old) x =
    subst (λ l. IsExclusive (move m i l (m.core i) spinning)) (ground arith)
      (IsExclusive-move m i (m.core i) spinning (rw spin refl) refl x)
Step-IsExclusive {m} (takes i spin old) x =
    let f = unlocked-IsFree old x in
    inr (
      i,
      record {
        locked = refl;
        cpu = ground (arith, f.cpu);
        owner = ground arith;
        others = λ j ne. ground (arith, f.nobody j);
      },
    )
Step-IsExclusive {m} (owns i ent) x =
    let o = IsOwned-of i (rw ent refl) x in
    inr (
      i,
      record {
        locked = o.locked;
        cpu = ground arith;
        owner = ground arith;
        others = λ j ne. ground (arith, o.others j ne);
      },
    )
Step-IsExclusive {m} (gives_up i ins e) x =
    let o = IsOwned-of i (rw ins refl) x in
    let l = give_up-lock i (m.core i) _ m.lock _ e in
    inr (
      i,
      record {
        locked = l.0 ∙ o.locked;
        cpu = ground (arith, l.1);
        owner = ground arith;
        others = λ j ne. ground (arith, o.others j ne);
      },
    )
Step-IsExclusive {m} (unlocks i lv e) x =
    let o = IsOwned-of i (rw lv refl) x in
    inl (record {
      locked = refl;
      cpu = ground (arith, o.cpu);
      nobody = λ j. elim (ℕ_discrete i j) [
        | yes same ↦ ground arith
        | no ne ↦ ground (arith, o.others j)
      ];
    })
Step-IsExclusive {m} (nests i c) (inl f) =
    inl (record { locked = f.locked; cpu = f.cpu; nobody = f.nobody })
Step-IsExclusive {m} (nests i c) (inr (k, o)) =
    inr (k, record { locked = o.locked; cpu = o.cpu; owner = o.owner; others = o.others })

Reach-IsExclusive : {m m' : Machine} → IsExclusive m → Reach m m' → IsExclusive m'
Reach-IsExclusive x here = x
Reach-IsExclusive x (next r st) = Step-IsExclusive st (Reach-IsExclusive x r)

-- However the CPUs call `acquire` and `release`, from a free lock no two of them have it at a time:
-- from the exchange that takes it to the write that frees it, no other CPU is in that part.
pub mutual_exclusion :
    {m m' : Machine} (i j : ℕ)
    → j ≢ i
    → IsFree m
    → Reach m m'
    → has_lock (m'.phase i) ≡ true
    → has_lock (m'.phase j) ≡ false
mutual_exclusion i j ne free r has = (IsOwned-of i has (Reach-IsExclusive (inl free) r)).others j ne

holding-some :
    (i : ℕ) (c c' : Core) (lk : SpinLock) (r : Bool)
    → holding i c lk ≡ some (r, c')
    → r ≡ (lk.locked && points_to lk.cpu i)
unfolding holding
holding-some i c c' lk r e = elim (Option-cases (popcli (pushcli c))) [
  | inl miss ↦ ground arith
  | inr (d, hit) ↦ ground arith
]

-- Whenever it is called, by any CPU in any interleaving that began with a free lock, and returns,
-- `holding` returns whether that CPU is between the end of `acquire` and the start of `release`. So
-- the panics of `acquire` and `release` catch just a second `acquire` and a `release` too many.
pub holding_lem :
    {m m' : Machine} (i : ℕ) (c' : Core) (r : Bool)
    → IsFree m
    → Reach m m'
    → holding i (m'.core i) m'.lock ≡ some (r, c')
    → r ≡ is_inside (m'.phase i)
holding_lem {m} {m'} i c' r free reach e =
    holding-some i (m'.core i) c' m'.lock r e ∙ agrees (Reach-IsExclusive (inl free) reach)
  where
    agrees : IsExclusive m' → (m'.lock.locked && points_to m'.lock.cpu i) ≡ is_inside (m'.phase i)
    agrees (inl f) = ground (arith, f.locked, f.nobody i)
    agrees (inr (k, o)) = elim (ℕ_discrete i k) [
      | yes same ↦ let own = subst (IsOwned m') (sym same) o in ground (arith, own.locked, own.cpu)
      | no ne ↦ ground (arith, o.others i ne, o.cpu)
    ]
