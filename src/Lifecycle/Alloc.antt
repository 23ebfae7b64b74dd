-- ===== src/Lifecycle/Alloc.antt =====
-- `allocproc` of proc.c: its three outcomes.
use p2b.Prelude.{
  ℕ, ◌+◌, ◌%◌, ◌^◌, ◌<◌, ◌≡◌, ◌≢◌, Bool, true, false, arith, ◌==◌, Option, none, some, IsFirst,
  find_first, find_first-some, find_first-none, Option-cases, Bool-cases, inl, inr, ◌⊎◌,
}
use p2b.Proc.{Proc, nproc, embryo, is_unused}
use p2b.Lifecycle.{Services, Kernel, claim, set_kstack, finish_alloc, claim_slot, allocproc}

abbrev pub is_free : Proc → Bool
is_free p = is_unused p.state

-- No slot is free: nothing is changed.
pub record Full {R : Type 0} (k : Kernel R) (out : Option ℕ × Kernel R) : Type 0 where
  pub taken : (j : ℕ) → j < nproc → is_free (k.proc j) ≡ false
  pub result : out ≡ (none, k)

module _ (svc : Services) where
  open svc use {Rest, forkret, kalloc}

  -- The first free slot is `i`, but there is no page for its stack: it is left free, with a pid.
  pub record NoStack (k : Kernel Rest) (out : Option ℕ × Kernel Rest) (i : ℕ) : Type 0 where
    pub first : IsFirst is_free 0 nproc k.proc i
    pub result : out.0 ≡ none
    pub free : is_free (out.1.proc i) ≡ true
    pub pid : (out.1.proc i).pid ≡ k.nextpid
    pub killed : (out.1.proc i).killed ≡ (k.proc i).killed
    pub others : (j : ℕ) → j ≢ i → out.1.proc j ≡ k.proc j
    pub nextpid : out.1.nextpid ≡ (k.nextpid + 1) % 2 ^ 32
    pub no_page : (kalloc k.rest).0 ≡ 0
    pub rest : out.1.rest ≡ (kalloc k.rest).1

  -- The first free slot is taken.
  pub record Taken (k : Kernel Rest) (out : Option ℕ × Kernel Rest) (i : ℕ) : Type 0 where
    pub first : IsFirst is_free 0 nproc k.proc i
    pub result : out.0 ≡ some i
    pub state : (out.1.proc i).state ≡ embryo
    pub pid : (out.1.proc i).pid ≡ k.nextpid
    pub priority : (out.1.proc i).priority ≡ 1
    pub run_ticks : (out.1.proc i).run_ticks ≡ 0
    pub stack : (out.1.proc i).kstack ≡ (kalloc k.rest).0
    pub page : (kalloc k.rest).0 ≢ 0
    pub files : (out.1.proc i).ofile ≡ (k.proc i).ofile
    pub eip : (out.1.proc i).saved.eip ≡ forkret
    pub rest : out.1.rest ≡ (kalloc k.rest).1
    pub killed : (out.1.proc i).killed ≡ (k.proc i).killed
    pub others : (j : ℕ) → j ≢ i → out.1.proc j ≡ k.proc j
    pub nextpid : out.1.nextpid ≡ (k.nextpid + 1) % 2 ^ 32

  pub alloc-miss :
      (k : Kernel Rest) → find_first is_free nproc 0 k.proc ≡ none → allocproc svc k ≡ (none, k)
  unfolding allocproc
  alloc-miss k miss = rw (miss, allocproc)

  pub alloc-hit :
      (k : Kernel Rest) (i : ℕ)
      → find_first is_free nproc 0 k.proc ≡ some i
      → allocproc svc k ≡ finish_alloc svc i (kalloc k.rest) (claim_slot svc i k)
  unfolding allocproc
  alloc-hit k i hit = rw (hit, allocproc)

  NoStack-finish :
      (k : Kernel Rest) (i : ℕ)
      → IsFirst is_free 0 nproc k.proc i
      → (kalloc k.rest).0 ≡ 0
      → NoStack k (finish_alloc svc i (kalloc k.rest) (claim_slot svc i k)) i
  unfolding finish_alloc claim_slot claim
  NoStack-finish k i first e = record {
    first = first;
    result = ground arith;
    free = ground arith;
    pid = ground arith;
    killed = ground arith;
    others = λ j ne. ground arith;
    nextpid = ground arith;
    no_page = e;
    rest = ground arith;
  }

  Taken-finish :
      (k : Kernel Rest) (i : ℕ)
      → IsFirst is_free 0 nproc k.proc i
      → (kalloc k.rest).0 ≢ 0
      → Taken k (finish_alloc svc i (kalloc k.rest) (claim_slot svc i k)) i
  unfolding finish_alloc claim_slot claim set_kstack
  Taken-finish k i first ne = record {
    first = first;
    result = ground arith;
    state = ground arith;
    pid = ground arith;
    priority = ground arith;
    run_ticks = ground arith;
    stack = ground arith;
    page = ne;
    files = ground arith;
    eip = ground arith;
    rest = ground arith;
    killed = ground arith;
    others = λ j n. ground arith;
    nextpid = ground arith;
  }

  -- `allocproc` either finds every slot in use and changes nothing, or takes the first free slot:
  -- with a kernel stack the slot is an embryo of priority 1 with no ticks and a new pid, and
  -- without one it is free again. It changes no other slot, and uses up one pid.
  pub allocproc_cases :
      (k : Kernel Rest)
      → Full k (allocproc svc k)
        ⊎ ((i : ℕ) × NoStack k (allocproc svc k) i)
        ⊎ ((i : ℕ) × Taken k (allocproc svc k) i)
  allocproc_cases k = elim (Option-cases (find_first is_free nproc 0 k.proc)) [
    | inl miss ↦ inl (record {
      taken = λ j h. find_first-none is_free nproc 0 k.proc miss j (omega arith) (omega arith);
      result = alloc-miss k miss;
    })
    | inr (i, hit) ↦
        let first = find_first-some is_free nproc 0 k.proc i hit in
        rw (alloc-hit k i hit) (elim (Bool-cases ((kalloc k.rest).0 == 0)) [
          | inl e ↦ inr (inl (i, NoStack-finish k i first (ground arith)))
          | inr ne ↦ inr (inr (i, Taken-finish k i first (ground arith)))
        ])
  ]
