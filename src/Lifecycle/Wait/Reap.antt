-- ===== src/Lifecycle/Wait/Reap.antt =====
-- `wait`: which child a pass reaps, and when it fails or sleeps.
use p2b.Prelude.{
  ℕ, zero, suc, ◌+◌, ◌<◌, ◌≤◌, ◌≡◌, ◌≢◌, refl, Bool, true, false, not, ◌&&◌, ◌||◌, arith,
  if◌then◌else◌, Bool-cases, inl, inr, ◌⊎◌, IsFirst,
}
use mathlib.Core.Path.{subst}
use native.Mathlib.Decide.{ℕ_discrete}
use p2b.Proc.{Proc, Table, nproc, sleeping, at_proc, is_zombie, points_to}
use p2b.Lifecycle.{Services, Kernel}
use p2b.Lifecycle.Alloc.{is_free}
use p2b.Lifecycle.Wait.{
  Scan, found, no_zombie, scan, Pass, reaped, failed, sleeps, reap, fall_asleep, wait_pass,
}

abbrev pub is_child : ℕ → Proc → Bool
is_child cur p = points_to p.parent cur

abbrev pub is_dead_child : ℕ → Proc → Bool
is_dead_child cur p = points_to p.parent cur && is_zombie p.state

-- What the scan of the slots [i, i + n) says.
record Childless (cur i n : ℕ) (havekids : Bool) (t : Table) (h : Bool) : Type 0 where
  alive : (j : ℕ) → i ≤ j → j < i + n → is_dead_child cur (t j) ≡ false
  kids : h ≡ true → (havekids ≡ true) ⊎ ((j : ℕ) × (j < i + n) × (is_child cur (t j) ≡ true))
  none_yet : h ≡ false → havekids ≡ false
  no_kids : h ≡ false → (j : ℕ) → i ≤ j → j < i + n → is_child cur (t j) ≡ false

abbrev Scanned : (cur i n : ℕ) (havekids : Bool) → Table → Scan → Type 0
Scanned cur i n havekids t (found k) = IsFirst (is_dead_child cur) i n t k
Scanned cur i n havekids t (no_zombie h) = Childless cur i n havekids t h

later-Scanned :
    (cur n i : ℕ) (havekids : Bool) (t : Table) (s : Scan)
    → is_dead_child cur (t i) ≡ false
    → Scanned cur (i + 1) n (havekids || is_child cur (t i)) t s
    → Scanned cur i (suc n) havekids t s
later-Scanned cur n i havekids t (found k) out f = record {
  lower = omega arith;
  upper = omega arith;
  passes = f.passes;
  before = λ j lo hi. elim (ℕ_discrete i j) [
    | yes e ↦ subst (λ m. is_dead_child cur (t m) ≡ false) e out
    | no ne ↦ f.before j (omega arith) hi
  ];
}
later-Scanned cur n i havekids t (no_zombie h) out f = record {
  alive = λ j lo hi. elim (ℕ_discrete i j) [
    | yes e ↦ subst (λ m. is_dead_child cur (t m) ≡ false) e out
    | no ne ↦ f.alive j (omega arith) (omega arith)
  ];
  kids = λ e. elim (f.kids e) [
    | inl old ↦ elim (Bool-cases havekids) [
      | inl have ↦ inl have
      | inr new ↦ inr (i, omega arith, ground arith)
    ]
    | inr (j, hi, c) ↦ inr (j, omega arith, c)
  ];
  none_yet = λ e. ground (arith, f.none_yet e);
  no_kids = λ e j lo hi. elim (ℕ_discrete i j) [
    | yes same ↦ subst (λ m. is_child cur (t m) ≡ false) same (ground (arith, f.none_yet e))
    | no ne ↦ f.no_kids e j (omega arith) (omega arith)
  ];
}

scan-Scanned :
    (cur n i : ℕ) (havekids : Bool) (t : Table)
    → Scanned cur i n havekids t (scan cur n i havekids t)
unfolding scan
scan-Scanned cur zero i havekids t = record {
  alive = λ j lo hi. absurd (omega arith);
  kids = λ e. inl e;
  none_yet = λ e. e;
  no_kids = λ e j lo hi. absurd (omega arith);
}
scan-Scanned cur (suc n) i havekids t =
    let ih = scan-Scanned cur n (i + 1) (havekids || points_to (t i).parent cur) t in
    elim (Bool-cases (points_to (t i).parent cur)) [
      | inl child ↦ elim (Bool-cases (is_zombie (t i).state)) [
        | inl dead ↦
            rw (child, dead)
              (record {
                lower = omega arith;
                upper = omega arith;
                passes = ground arith;
                before = λ j lo hi. absurd (omega arith);
              })
        | inr live ↦
            subst (λ s. Scanned cur i (suc n) havekids t s) (ground arith)
              (later-Scanned cur n i havekids t _ (ground arith) ih)
      ]
      | inr other ↦
          subst (λ s. Scanned cur i (suc n) havekids t s) (ground arith)
            (later-Scanned cur n i havekids t _ (ground arith) ih)
    ]

module _ (svc : Services) where
  open svc use {Rest, kfree, freevm}

  -- The child in slot `i` is reaped: the first dead one. Its stack and page table are freed, its slot
  -- is free, and the others are as they were.
  pub record Reaped (cur : ℕ) (k : Kernel Rest) (pid : ℕ) (k' : Kernel Rest) (i : ℕ) : Type 0 where
    pub first : IsFirst (is_dead_child cur) 0 nproc k.proc i
    pub result : pid ≡ (k.proc i).pid
    pub free : is_free (k'.proc i) ≡ true
    pub no_pid : (k'.proc i).pid ≡ 0
    pub not_killed : (k'.proc i).killed ≡ false
    pub rest : k'.rest ≡ freevm (k.proc i).pgdir (kfree (k.proc i).kstack k.rest)
    pub orphan : (j : ℕ) → is_child j (k'.proc i) ≡ false
    pub others : (j : ℕ) → j ≢ i → k'.proc j ≡ k.proc j
    pub nextpid : k'.nextpid ≡ k.nextpid

  abbrev pub NoneDead : ℕ → Kernel Rest → Type 0
  NoneDead cur k = (j : ℕ) → j < nproc → is_dead_child cur (k.proc j) ≡ false

  -- The caller sleeps on its own slot, until a child exits; it has a child, and is not killed.
  pub record Asleep (cur : ℕ) (k k' : Kernel Rest) : Type 0 where
    pub kid : (j : ℕ) × (j < nproc) × (is_child cur (k.proc j) ≡ true)
    pub not_killed : (k.proc cur).killed ≡ false
    pub state : (k'.proc cur).state ≡ sleeping
    pub chan : (k'.proc cur).chan ≡ at_proc cur
    pub pid : (k'.proc cur).pid ≡ (k.proc cur).pid
    pub others : (j : ℕ) → j ≢ cur → k'.proc j ≡ k.proc j
    pub nextpid : k'.nextpid ≡ k.nextpid

  -- What each outcome of a pass means.
  abbrev pub PassMeans : ℕ → Kernel Rest → Pass Rest → Type 0
  PassMeans cur k (reaped pid k') = (i : ℕ) × Reaped cur k pid k' i
  PassMeans cur k failed =
      NoneDead cur k
      × (((k.proc cur).killed ≡ true) ⊎ ((j : ℕ) → j < nproc → is_child cur (k.proc j) ≡ false))
  PassMeans cur k (sleeps k') = NoneDead cur k × Asleep cur k k'

  scanned_pass : (cur : ℕ) → Kernel Rest → Scan → Pass Rest
  scanned_pass cur k s = elim s [
    | found i ↦ reap svc i k
    | no_zombie havekids ↦
        if not havekids || (k.proc cur).killed then failed else sleeps (fall_asleep svc cur k)
  ]

  scanned_pass-Means :
      (cur : ℕ) (k : Kernel Rest) (s : Scan)
      → Scanned cur 0 nproc false k.proc s
      → PassMeans cur k (scanned_pass cur k s)
  unfolding scanned_pass reap fall_asleep
  scanned_pass-Means cur k (found i) f = (
    i,
    record {
      first = f;
      result = refl;
      free = ground arith;
      no_pid = ground arith;
      not_killed = ground arith;
      rest = refl;
      orphan = λ j. ground arith;
      others = λ j ne. ground arith;
      nextpid = refl;
    },
  )
  scanned_pass-Means cur k (no_zombie true) f = elim (Bool-cases (k.proc cur).killed) [
    | inl dead ↦ rw dead (λ j h. f.alive j (omega arith) (omega arith), inl dead)
    | inr live ↦ rw live (
      λ j h. f.alive j (omega arith) (omega arith),
      record {
        kid = elim (f.kids refl) [ inl e ↦ cc | inr (j, h, c) ↦ (j, omega arith, c) ];
        not_killed = live;
        state = ground arith;
        chan = ground arith;
        pid = ground arith;
        others = λ j ne. ground arith;
        nextpid = refl;
      },
    )
  ]
  scanned_pass-Means cur k (no_zombie false) f = (
    λ j h. f.alive j (omega arith) (omega arith),
    inr (λ j h. f.no_kids refl j (omega arith) (omega arith)),
  )

  -- A pass of `wait` reaps the first zombie child, if there is one, returning its pid and freeing its
  -- slot. Otherwise it fails if the caller has no child or is killed, and if not the caller goes to
  -- sleep on its own slot. No other slot changes.
  pub wait_pass_lem : (cur : ℕ) (k : Kernel Rest) → PassMeans cur k (wait_pass svc cur k)
  unfolding wait_pass scanned_pass
  wait_pass_lem cur k =
      scanned_pass-Means cur k (scan cur nproc 0 false k.proc)
        (scan-Scanned cur nproc 0 false k.proc)
