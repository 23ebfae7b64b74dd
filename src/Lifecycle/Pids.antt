-- ===== src/Lifecycle/Pids.antt =====
-- The pids of the slots in use. `Shrinks` says that each slot in use keeps its pid and that none is
-- put to use; `allocproc` is the operation that is not of this kind.
use p2b.Prelude.{ℕ, ◌+◌, ◌^◌, ◌<◌, ◌≤◌, ◌≡◌, ◌≢◌, refl, sym, false, arith, update, inl, inr}
use mathlib.Core.Path.{subst}
use native.Mathlib.Decide.{ℕ_discrete}
use p2b.Proc.{Proc, Table, Chan, nproc, wakeup1}
use p2b.Proc.Wakeup.{wakeup1-Keeps}
use p2b.Lifecycle.{Services, Kernel, allocproc}
use p2b.Lifecycle.Alloc.{is_free, allocproc_cases}

pub record UniquePids (t : Table) (nextpid : ℕ) : Type 0 where
  pub below : (i : ℕ) → i < nproc → is_free (t i) ≡ false → (0 < (t i).pid) × ((t i).pid < nextpid)
  pub unique :
      (i j : ℕ)
      → i < nproc
      → j < nproc
      → is_free (t i) ≡ false
      → is_free (t j) ≡ false
      → (t i).pid ≡ (t j).pid
      → i ≡ j

-- A slot in use afterwards was in use before, under the same pid.
abbrev pub Shrinks : Table → Table → Type 0
Shrinks t t' =
    (i : ℕ)
    → i < nproc
    → is_free (t' i) ≡ false
    → (is_free (t i) ≡ false) × ((t' i).pid ≡ (t i).pid)

pub Shrinks-refl : (t : Table) → Shrinks t t
Shrinks-refl t i h u = (u, refl)

pub Shrinks-trans : (t u v : Table) → Shrinks t u → Shrinks u v → Shrinks t v
Shrinks-trans t u v p q i h e = ground (arith, q i h e, p i h)

pub Shrinks-UniquePids : {t t' : Table} {n : ℕ} → Shrinks t t' → UniquePids t n → UniquePids t' n
Shrinks-UniquePids s v = record {
  below = λ i h e. ground (arith, s i h e, v.below i h);
  unique = λ i j hi hj ei ej e. ground (arith, s i hi ei, s j hj ej, v.unique i j hi hj);
}

-- One slot is written, with its pid kept, and is not put to use.
pub Shrinks-update :
    (t : Table) (i : ℕ) (p : Proc)
    → (is_free p ≡ false → (is_free (t i) ≡ false) × (p.pid ≡ (t i).pid))
    → Shrinks t (update t i p)
Shrinks-update t i p keep j h e = elim (ℕ_discrete i j) [
  | yes same ↦
      subst (λ m. is_free (t m) ≡ false × ((update t i p j).pid ≡ (t m).pid)) same
        (ground (arith, keep))
  | no ne ↦ ground arith
]

pub Shrinks-wakeup1 : (c : Chan) (t : Table) → Shrinks t (wakeup1 c t)
Shrinks-wakeup1 c t i h e = ground (arith, wakeup1-Keeps c t i)

-- A slot that gets the next pid keeps the pids different.
pub UniquePids-le : {t : Table} {n m : ℕ} → n ≤ m → UniquePids t n → UniquePids t m
UniquePids-le le v = record { below = λ i h e. omega (arith, v.below i h e); unique = v.unique }

module _ {t t' : Table} {n m i : ℕ} (others : (j : ℕ) → j ≢ i → t' j ≡ t j) (new : (t' i).pid ≡ n)
    (pos : 0 < n) (bump : m ≡ n + 1) (v : UniquePids t n) where
  old_pid :
      (j : ℕ) → j ≢ i → j < nproc → is_free (t' j) ≡ false → (0 < (t' j).pid) × ((t' j).pid < n)
  old_pid j ne h e = ground (arith, others j ne, v.below j h)

  claimed-below : (j : ℕ) → j < nproc → is_free (t' j) ≡ false → (0 < (t' j).pid) × ((t' j).pid < m)
  claimed-below j h e = elim (ℕ_discrete j i) [
    | yes same ↦ let q : (t' j).pid ≡ n = subst (λ x. (t' x).pid ≡ n) (sym same) new in omega arith
    | no ne ↦ omega (arith, old_pid j ne h e)
  ]

  claimed_unique :
      (a b : ℕ)
      → a < nproc
      → b < nproc
      → is_free (t' a) ≡ false
      → is_free (t' b) ≡ false
      → (t' a).pid ≡ (t' b).pid
      → a ≡ b
  claimed_unique a b ha hb ea eb e = elim (ℕ_discrete a i) [
    | yes sa ↦ elim (ℕ_discrete b i) [
      | yes sb ↦ omega arith
      | no nb ↦
          let q : (t' a).pid ≡ n = subst (λ x. (t' x).pid ≡ n) (sym sa) new in
          absurd (omega (arith, old_pid b nb hb eb))
    ]
    | no na ↦ elim (ℕ_discrete b i) [
      | yes sb ↦
          let q : (t' b).pid ≡ n = subst (λ x. (t' x).pid ≡ n) (sym sb) new in
          absurd (omega (arith, old_pid a na ha ea))
      | no nb ↦ ground (arith, others a na, others b nb, v.unique a b ha hb)
    ]
  ]

  pub claimed-UniquePids : UniquePids t' m
  claimed-UniquePids = record { below = claimed-below; unique = claimed_unique }

module _ (svc : Services) where
  open svc use {Rest}

  -- `allocproc` keeps the pids different, as long as the counter does not wrap.
  pub allocproc-UniquePids :
      (k : Kernel Rest)
      → 0 < k.nextpid
      → k.nextpid + 1 < 2 ^ 32
      → UniquePids k.proc k.nextpid
      → UniquePids (allocproc svc k).1.proc (allocproc svc k).1.nextpid
  allocproc-UniquePids k pos small v = elim (allocproc_cases svc k) [
    | inl full ↦ rw full.result v
    | inr (inl (i, f)) ↦ claimed-UniquePids f.others f.pid pos (omega (arith, f.nextpid)) v
    | inr (inr (i, f)) ↦ claimed-UniquePids f.others f.pid pos (omega (arith, f.nextpid)) v
  ]
