-- ===== src/Kalloc/Free.antt =====
-- The free list of kalloc.c as a list of pages.
use p2b.Prelude.{
  ℕ, zero, suc, ◌+◌, ◌*◌, ◌/◌, ◌%◌, ◌<◌, ◌≤◌, ◌≡◌, ◌≢◌, refl, sym, ◌∙◌, ◌⊎◌, true, not, ◌||◌, none,
  some, List, [], ◌∷◌, arith, ◌==◌, ltb, leb, update, inl, inr, Bool-cases,
}
use mathlib.Core.Path.{subst}
use p2b.Kalloc.{pgsize, Bounds, Kmem, kfree, kalloc, free_pages, pgroundup, freerange}

abbrev pub NotIn : ℕ → List ℕ → Type 0
NotIn v [] = Unit
NotIn v (w ∷ ws) = (w ≢ v) × NotIn v ws

-- From `p` on, the links go through the pages `vs`, all different, and end.
abbrev pub Chain : (ℕ → ℕ) → ℕ → List ℕ → Type 0
Chain next p [] = p ≡ 0
Chain next p (v ∷ vs) = (p ≡ v) × (v ≢ 0) × NotIn v vs × Chain next (next v) vs

abbrev pub FreeList : Kmem → List ℕ → Type 0
FreeList k vs = Chain k.next k.freelist vs

-- What `kfree` takes: a whole page between the kernel and the end of the memory.
pub record IsPage (b : Bounds) (v : ℕ) : Type 0 where
  pub aligned : v % pgsize ≡ 0
  pub above : b.kernel_end ≤ v
  pub below : v < b.phystop

-- A write to a page that is not in the chain leaves the chain alone.
Chain-update :
    (next : ℕ → ℕ) (v w p : ℕ) (vs : List ℕ)
    → NotIn v vs
    → Chain next p vs
    → Chain (update next v w) p vs
Chain-update next v w p [] out c = c
Chain-update next v w p (u ∷ vs) (ne, out) (e, nz, fresh, c) = (
  e,
  nz,
  fresh,
  subst (λ q. Chain (update next v w) q vs) (ground arith)
      (Chain-update next v w (next u) vs out c),
)

kfree-page :
    (b : Bounds) (v : ℕ) (k : Kmem)
    → IsPage b v
    → kfree b v k
      ≡ some (record k {
        filled = update k.filled v true;
        next = update k.next v k.freelist;
        freelist = v;
      })
unfolding kfree
kfree-page b v k p = ground arith

IsPage_dec : (b : Bounds) (v : ℕ) → Dec (IsPage b v)
IsPage_dec b v =
    elim (Bool-cases (not (v % pgsize == 0) || (ltb v b.kernel_end || leb b.phystop v))) [
      | inl refused ↦ no (λ p. ground arith)
      | inr page ↦
          yes (record { aligned = ground arith; above = ground arith; below = ground arith })
    ]

kfree-none : (b : Bounds) (v : ℕ) (k : Kmem) → ¬ IsPage b v → kfree b v k ≡ none
unfolding kfree
kfree-none b v k no_page =
    elim (Bool-cases (not (v % pgsize == 0) || (ltb v b.kernel_end || leb b.phystop v))) [
      | inl refused ↦ rw refused
      | inr page ↦
          absurd (
            no_page (record { aligned = ground arith; above = ground arith; below = ground arith }))
    ]

-- The free list after `kfree` of `v`.
abbrev pub pushed : ℕ → Kmem → Kmem
pushed v k = record k {
  filled = update k.filled v true;
  next = update k.next v k.freelist;
  freelist = v;
}

pushed-FreeList :
    (b : Bounds) (v : ℕ) (k : Kmem) (vs : List ℕ)
    → 0 < b.kernel_end
    → IsPage b v
    → FreeList k vs
    → NotIn v vs
    → FreeList (pushed v k) (v ∷ vs)
pushed-FreeList b v k vs pos page free out = (
  refl,
  omega (arith, page.above),
  out,
  subst (λ q. Chain (update k.next v k.freelist) q vs) (ground arith)
      (Chain-update k.next v k.freelist k.freelist vs out free),
)

-- `kfree` of a page of the memory behind the kernel that is not free yet puts it at the front of
-- the free list; it refuses all else.
pub kfree_lem :
    (b : Bounds) (v : ℕ) (k : Kmem) (vs : List ℕ)
    → 0 < b.kernel_end
    → FreeList k vs
    → NotIn v vs
    → (IsPage b v × ((k' : Kmem) × (kfree b v k ≡ some k') × FreeList k' (v ∷ vs)))
      ⊎ ((¬ IsPage b v) × (kfree b v k ≡ none))
kfree_lem b v k vs pos free out = elim (IsPage_dec b v) [
  | yes page ↦
      inl (page, (pushed v k, kfree-page b v k page, pushed-FreeList b v k vs pos page free out))
  | no no_page ↦ inr (no_page, kfree-none b v k no_page)
]

kalloc-some :
    (k : Kmem) → k.freelist ≢ 0 → kalloc k ≡ (k.freelist, record k { freelist = k.next k.freelist })
unfolding kalloc
kalloc-some k ne = ground arith

-- `kalloc` takes the first page of the free list, which is then no longer in it; of an empty list
-- it makes a null pointer, and changes nothing.
pub kalloc_lem :
    (k : Kmem) (vs : List ℕ)
    → FreeList k vs
    → ((vs ≡ []) × (kalloc k ≡ (0, k)))
      ⊎ ((v : ℕ) × (ws : List ℕ) × (vs ≡ v ∷ ws)
          × ((kalloc k).0 ≡ v)
          × (v ≢ 0)
          × NotIn v ws
          × FreeList (kalloc k).1 ws)
unfolding kalloc
kalloc_lem k [] free = inl (refl, ground arith)
kalloc_lem k (v ∷ ws) (e, nz, out, c) = inr (v, ws, refl, ground arith, nz, out, taken)
  where
    taken : FreeList (kalloc k).1 ws
    taken =
        subst (λ q. FreeList q.1 ws) (sym (kalloc-some k (ground arith)))
          (subst (λ q. Chain k.next (k.next q) ws) (sym e) c)

-- The pages of [p, p + m * 4096), pushed one after the other.
abbrev pub stacked : (m p : ℕ) → List ℕ → List ℕ
stacked zero p vs = vs
stacked (suc m) p vs = stacked m (p + pgsize) (p ∷ vs)

abbrev pub AllBelow : ℕ → List ℕ → Type 0
AllBelow p [] = Unit
AllBelow p (v ∷ vs) = (v < p) × AllBelow p vs

AllBelow-NotIn : (p : ℕ) (vs : List ℕ) → AllBelow p vs → NotIn p vs
AllBelow-NotIn p [] h = tt
AllBelow-NotIn p (v ∷ vs) (lt, h) = (omega arith, AllBelow-NotIn p vs h)

AllBelow-le : (p q : ℕ) (vs : List ℕ) → p ≤ q → AllBelow p vs → AllBelow q vs
AllBelow-le p q [] le h = tt
AllBelow-le p q (v ∷ vs) le (lt, h) = (omega arith, AllBelow-le p q vs le h)

free_pages-stop :
    (b : Bounds) (n p vend : ℕ) (k : Kmem) → vend < p + pgsize → free_pages b n p vend k ≡ some k
unfolding free_pages
free_pages-stop b zero p vend k h = refl
free_pages-stop b (suc n) p vend k h = ground arith

free_pages-step :
    (b : Bounds) (n p vend : ℕ) (k : Kmem)
    → p + pgsize ≤ vend
    → IsPage b p
    → free_pages b (suc n) p vend k ≡ free_pages b n (p + pgsize) vend (pushed p k)
unfolding free_pages
free_pages-step b n p vend k h page = ground (arith, kfree-page b p k page)

module _ (b : Bounds) (vend : ℕ) (pos : 0 < b.kernel_end) (fits : vend ≤ b.phystop) where
  free_pages_lem :
      (m n p : ℕ) (k : Kmem) (vs : List ℕ)
      → m ≤ n
      → p % pgsize ≡ 0
      → b.kernel_end ≤ p
      → p + m * pgsize ≤ vend
      → vend < p + m * pgsize + pgsize
      → FreeList k vs
      → AllBelow p vs
      → (k' : Kmem) × (free_pages b n p vend k ≡ some k') × FreeList k' (stacked m p vs)
  free_pages_lem zero n p k vs le al above hi lo free below =
      (k, free_pages-stop b n p vend k (omega arith), free)
  free_pages_lem (suc m) zero p k vs le al above hi lo free below = absurd (omega arith)
  free_pages_lem (suc m) (suc n) p k vs le al above hi lo free below =
      let page : IsPage b p = record { aligned = al; above = above; below = omega arith } in
      let (k', e, free') =
        free_pages_lem m n (p + pgsize) (pushed p k) (p ∷ vs) (omega arith) (omega arith)
          (omega arith) (omega arith) (omega arith)
          (pushed-FreeList b p k vs pos page free (AllBelow-NotIn p vs below))
          (omega arith, AllBelow-le p (p + pgsize) vs (omega arith) below) in
      (k', free_pages-step b n p vend k (omega arith) page ∙ e, free')

  -- `freerange`, on memory behind the kernel whose pages lie above those that are free already,
  -- succeeds and frees just the whole pages of the range, the last one first in the list.
  pub freerange_lem :
      (vstart m : ℕ) (k : Kmem) (vs : List ℕ)
      → b.kernel_end ≤ vstart
      → pgroundup vstart + m * pgsize ≤ vend
      → vend < pgroundup vstart + m * pgsize + pgsize
      → FreeList k vs
      → AllBelow vstart vs
      → (k' : Kmem) × (freerange b vstart vend k ≡ some k')
        × FreeList k' (stacked m (pgroundup vstart) vs)
  unfolding freerange
  freerange_lem vstart m k vs above hi lo free below =
      free_pages_lem m (vend / pgsize + 1) (pgroundup vstart) k vs (omega arith) (omega arith)
        (omega arith) hi lo free (AllBelow-le vstart (pgroundup vstart) vs (omega arith) below)
