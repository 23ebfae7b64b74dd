-- ===== src/Kalloc.antt =====
-- kalloc.c: the free list of physical pages, linked through the first word of each free page.
pub mod Free
use p2b.Prelude.{
  ℕ, zero, suc, ◌+◌, ◌-◌, ◌*◌, ◌/◌, ◌%◌, ◌≡◌, Bool, true, false, ◌||◌, not, Option, none, some,
  ◌==◌, ltb, leb, if◌then◌else◌, update,
}

abbrev pub pgsize : ℕ
pgsize = 4096

-- `end`, and `P2V(PHYSTOP)`: the first address behind the kernel, and the first behind the memory.
pub record Bounds : Type 0 where
  pub kernel_end : ℕ
  pub phystop : ℕ

-- `next` is the word at the start of a page, `filled` marks the pages that `kfree` has overwritten.
pub record Kmem : Type 0 where
  pub use_lock : Bool
  pub freelist : ℕ
  pub next : ℕ → ℕ
  pub filled : ℕ → Bool

module _ (b : Bounds) where
  -- `none` is a panic.
  pub kfree : ℕ → Kmem → Option Kmem
  kfree v k =
      if not (v % pgsize == 0) || (ltb v b.kernel_end || leb b.phystop v)
      then none
      else some (record k {
        filled = update k.filled v true;
        next = update k.next v k.freelist;
        freelist = v;
      })

  -- The loop of `freerange`, with `n` rounds left.
  free_pages : (n p vend : ℕ) → Kmem → Option Kmem
  free_pages zero p vend k = some k
  free_pages (suc n) p vend k =
      if leb (p + pgsize) vend
      then elim (kfree p k) [ none ↦ none | some k' ↦ free_pages n (p + pgsize) vend k' ]
      else some k

-- A null pointer is 0.
pub kalloc : Kmem → ℕ × Kmem
kalloc k =
    if k.freelist == 0 then (0, k) else (k.freelist, record k { freelist = k.next k.freelist })

-- `freerange`: PGROUNDUP, and the loop, with one round for each page that may fit.
abbrev pub pgroundup : ℕ → ℕ
pgroundup v = (v + pgsize - 1) / pgsize * pgsize

pub freerange : Bounds → (vstart vend : ℕ) → Kmem → Option Kmem
unfolding free_pages
freerange b vstart vend k = free_pages b (vend / pgsize + 1) (pgroundup vstart) vend k
