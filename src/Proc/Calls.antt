-- ===== src/Proc/Calls.antt =====
-- `settickets` and `getpinfo`.
use p2b.Prelude.{
  ℕ, ◌+◌, ◌<◌, ◌≤◌, ◌≡◌, ◌≢◌, ◌⊎◌, ◌^◌, arith, if◌then◌else◌, none, some, for_range_inv, inl, inr,
}
use mathlib.Core.Path.{subst}
use native.Mathlib.Decide.{ℕ_discrete, dec_lt}
use p2b.Proc.{Table, nproc, is_unused, settickets, Pstat, fill_pstat, getpinfo}

-- `settickets` of 0 or 1 succeeds: the caller's priority is the argument, its other fields are as
-- before. Of every other argument it fails and changes nothing. It never changes another slot.
pub settickets_lem :
    (cur ticket : ℕ) (t : Table)
    → ticket < 2 ^ 32
    → let out = settickets cur ticket t in
      (((ticket ≤ 1) × (out.0 ≡ some tt) × (out.1 cur ≡ record (t cur) { priority = ticket }))
        ⊎ ((1 < ticket) × (out ≡ (none, t))))
      × ((j : ℕ) → j ≢ cur → out.1 j ≡ t j)
unfolding settickets
settickets_lem cur ticket t h = (
  elim (dec_lt 1 ticket) [
    | yes lt ↦ inr (lt, ground arith)
    | no le ↦ inl (omega arith, ground arith, ground arith)
  ],
  λ j ne. ground arith,
)

-- Row `i` of a `struct pstat` is about slot `i`.
pub record Row (t : Table) (s : Pstat) (i : ℕ) : Type 0 where
  pub inuse : s.inuse i ≡ (if is_unused (t i).state then 0 else 1)
  pub tickets : s.tickets i ≡ (t i).priority
  pub pid : s.pid i ≡ (t i).pid
  pub ticks : s.ticks i ≡ (t i).run_ticks

fill_pstat-Row :
    (t : Table) (i : ℕ) (s : Pstat)
    → ((j : ℕ) → j < i → Row t s j)
    → (j : ℕ) → j < i + 1
    → Row t (fill_pstat t i s) j
unfolding fill_pstat
fill_pstat-Row t i s rows j h = elim (ℕ_discrete i j) [
  | yes e ↦
      subst (λ m. Row t (fill_pstat t i s) m) e
        (record {
          inuse = ground arith;
          tickets = ground arith;
          pid = ground arith;
          ticks = ground arith;
        })
  | no ne ↦
      let r = rows j (omega arith) in
      record {
        inuse = ground (arith, r.inuse);
        tickets = ground (arith, r.tickets);
        pid = ground (arith, r.pid);
        ticks = ground (arith, r.ticks);
      }
]

-- After `getpinfo` every row of the caller's structure holds the use, the priority, the pid and the
-- ticks of the slot, whatever it held before.
pub getpinfo_lem : (t : Table) (s : Pstat) (i : ℕ) → i < nproc → Row t (getpinfo t s) i
unfolding getpinfo
getpinfo_lem t s =
    for_range_inv (λ i p. (j : ℕ) → j < i → Row t p j) (fill_pstat t) nproc
      (λ i p _ rows. fill_pstat-Row t i p rows) nproc 0 s (omega arith)
      (λ j h. absurd (omega arith))

-- `settickets` changes no pid and no state.
pub settickets-pid :
    (cur ticket : ℕ) (t : Table) (j : ℕ)
    → (((settickets cur ticket t).1 j).pid ≡ (t j).pid)
      × (((settickets cur ticket t).1 j).state ≡ (t j).state)
unfolding settickets
settickets-pid cur ticket t j = elim (ℕ_discrete cur j) [
  | yes e ↦
      subst
        (λ m.
          (((settickets cur ticket t).1 m).pid ≡ (t m).pid)
          × (((settickets cur ticket t).1 m).state ≡ (t m).state))
        e (ground arith, ground arith)
  | no ne ↦ (ground arith, ground arith)
]
