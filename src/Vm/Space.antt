-- ===== src/Vm/Space.antt =====
-- vm.c: the address space of a process: `setupkvm`, `allocuvm`, `deallocuvm`, `freevm`, `clearpteu`
-- and `copyuvm`. Messages to the console are left out.
pub mod Range
use p2b.Prelude.{
  ℕ, zero, suc, ◌+◌, ◌-◌, ◌*◌, ◌/◌, ◌%◌, ◌^◌, Bool, true, false, not, ◌&&◌, ◌||◌, Option, none,
  some, List, [], ◌∷◌, ◌==◌, ltb, leb, if◌then◌else◌, update,
}
use p2b.Kalloc.{pgsize, Bounds, Kmem, kfree, kalloc, pgroundup}
use p2b.Vm.{
  Ram, Place, load, store, zero_page, set_kmem, walkpgdir, mappages, Mapping, mapped, no_memory,
  remap, out_of_fuel, kernbase, v2p, p2v, pdx, is_present, is_user, pte_addr, pte_flags,
  pgrounddown,
}
use p2b.Vm.Protect.{uva2ka}

-- What a call comes to: its result, a panic (or a fault in the kernel), or no end within the fuel.
pub data Result (A : Type 0) : Type 0 where
  ok : A → Result A
  panics : Result A
  no_end : Result A

abbrev pub then_do : {A B : Type 0} → Result A → (A → Result B) → Result B
then_do (ok a) f = f a
then_do panics f = panics
then_do no_end f = no_end

-- PTE_W|PTE_U
abbrev pub user_perm : ℕ
user_perm = 6

-- memset(v, 1, PGSIZE)
abbrev pub junk : ℕ
junk = 16843009

-- `kfree` of a page, with what it writes to it.
pub release_page : Bounds → ℕ → Ram → Result Ram
release_page b v r = elim (kfree b v r.kmem) [
  | none ↦ panics
  | some k ↦ ok (set_kmem k (record r { page = update r.page v (λ _. junk) }))
]

-- One round of the loop of `deallocuvm`: the address that the next round begins with, less a page.
dealloc_page : Bounds → (pgdir a : ℕ) → Ram → Result (ℕ × Ram)
unfolding release_page
dealloc_page b pgdir a r = elim (walkpgdir pgdir a false r).0 [
  | none ↦ ok (((pdx a + 1) * 2 ^ 22 + 2 ^ 32 - pgsize) % 2 ^ 32, r)
  | some pte ↦ elim (is_present (load pte r)) [
    | false ↦ ok (a, r)
    | true ↦
        if pte_addr (load pte r) == 0
        then panics
        else then_do (release_page b (p2v (pte_addr (load pte r))) r) (λ r1. ok (a, store pte 0 r1))
  ]
]

pub dealloc_loop : Bounds → (fuel pgdir a oldsz : ℕ) → Ram → Result Ram
unfolding dealloc_page
dealloc_loop b zero pgdir a oldsz r = no_end
dealloc_loop b (suc fuel) pgdir a oldsz r = elim (ltb a oldsz) [
  | false ↦ ok r
  | true ↦
      then_do (dealloc_page b pgdir a r)
        (λ (a1, r1). dealloc_loop b fuel pgdir ((a1 + pgsize) % 2 ^ 32) oldsz r1)
]

-- Each round goes on by a page at least.
pub deallocuvm : Bounds → (pgdir oldsz newsz : ℕ) → Ram → Result (ℕ × Ram)
deallocuvm b pgdir oldsz newsz r =
    if leb oldsz newsz
    then ok (oldsz, r)
    else then_do (dealloc_loop b (2 ^ 20 + 1) pgdir (pgroundup newsz % 2 ^ 32) oldsz r)
        (λ r1. ok (newsz, r1))

-- The result 0 of `allocuvm`, after its clean-up.
give_back : Bounds → (pgdir newsz oldsz : ℕ) → Ram → Result (ℕ × Ram)
give_back b pgdir newsz oldsz r = then_do (deallocuvm b pgdir newsz oldsz r) (λ (_, r1). ok (0, r1))

after_map :
    Bounds → (pgdir newsz oldsz mem : ℕ) → Mapping → (Ram → Result (ℕ × Ram)) → Result (ℕ × Ram)
unfolding give_back release_page
after_map b pgdir newsz oldsz mem (mapped r) go_on = go_on r
after_map b pgdir newsz oldsz mem (no_memory r) go_on =
    then_do (give_back b pgdir newsz oldsz r)
      (λ (z, r1). then_do (release_page b mem r1) (λ r2. ok (z, r2)))
after_map b pgdir newsz oldsz mem remap go_on = panics
after_map b pgdir newsz oldsz mem out_of_fuel go_on = no_end

pub alloc_loop : Bounds → (fuel pgdir a newsz oldsz : ℕ) → Ram → Result (ℕ × Ram)
unfolding give_back after_map
alloc_loop b zero pgdir a newsz oldsz r = no_end
alloc_loop b (suc fuel) pgdir a newsz oldsz r = elim (ltb a newsz) [
  | false ↦ ok (newsz, r)
  | true ↦
      let (mem, k) = kalloc r.kmem in
      if mem == 0
      then give_back b pgdir newsz oldsz (set_kmem k r)
      else after_map b pgdir newsz oldsz mem
          (mappages pgdir a pgsize (v2p mem) user_perm (zero_page mem (set_kmem k r)))
          (λ r1. alloc_loop b fuel pgdir (a + pgsize) newsz oldsz r1)
]

pub allocuvm : Bounds → (pgdir oldsz newsz : ℕ) → Ram → Result (ℕ × Ram)
allocuvm b pgdir oldsz newsz r =
    if leb kernbase newsz
    then ok (0, r)
    else if ltb newsz oldsz
    then ok (oldsz, r)
    else alloc_loop b (2 ^ 20) pgdir (pgroundup oldsz) newsz oldsz r

-- The loop of `freevm` over the page directory, for the entries from `i` on.
free_tables : Bounds → (n i pgdir : ℕ) → Ram → Result Ram
free_tables b zero i pgdir r = ok r
free_tables b (suc n) i pgdir r = elim (is_present (r.page pgdir i)) [
  | false ↦ free_tables b n (i + 1) pgdir r
  | true ↦
      then_do (release_page b (p2v (pte_addr (r.page pgdir i))) r)
        (λ r1. free_tables b n (i + 1) pgdir r1)
]

pub freevm : Bounds → (pgdir : ℕ) → Ram → Result Ram
unfolding free_tables
freevm b pgdir r =
    if pgdir == 0
    then panics
    else then_do (deallocuvm b pgdir kernbase 0 r)
        (λ (_, r1). then_do (free_tables b 1024 0 pgdir r1) (λ r2. release_page b pgdir r2))

-- *pte &= ~PTE_U
abbrev pub clear_user : ℕ → ℕ
clear_user w = if is_user w then w - 4 else w

pub clearpteu : (pgdir uva : ℕ) → Ram → Result Ram
clearpteu pgdir uva r = elim (walkpgdir pgdir uva false r).0 [
  | none ↦ panics
  | some pte ↦ ok (store pte (clear_user (load pte r)) r)
]

-- A row of `kmap`.
pub record Kmap : Type 0 where
  pub virt : ℕ
  pub phys_start : ℕ
  pub phys_end : ℕ
  pub perm : ℕ

abbrev pub extmem : ℕ
extmem = 1048576

abbrev pub phystop : ℕ
phystop = 234881024

abbrev pub devspace : ℕ
devspace = 4261412864

-- `kmap`; the linker chooses `data`.
pub kmap : (data_start : ℕ) → List Kmap
kmap data_start =
    record { virt = kernbase; phys_start = 0; phys_end = extmem; perm = 2 }
    ∷ record { virt = kernbase + extmem; phys_start = extmem; phys_end = v2p data_start; perm = 0 }
    ∷ record { virt = data_start; phys_start = v2p data_start; phys_end = phystop; perm = 2 }
    ∷ record { virt = devspace; phys_start = devspace; phys_end = 0; perm = 2 }
    ∷ []

-- The result 0 of `setupkvm` and `copyuvm`, after their clean-up.
give_up : Bounds → (pgdir : ℕ) → Ram → Result (ℕ × Ram)
give_up b pgdir r = then_do (freevm b pgdir r) (λ r1. ok (0, r1))

map_kernel : Bounds → (pgdir : ℕ) → List Kmap → Ram → Result (ℕ × Ram)
unfolding give_up
map_kernel b pgdir [] r = ok (pgdir, r)
map_kernel b pgdir (k ∷ ks) r =
    elim (mappages pgdir k.virt ((k.phys_end + 2 ^ 32 - k.phys_start) % 2 ^ 32) k.phys_start k.perm
      r) [
        | mapped r1 ↦ map_kernel b pgdir ks r1
        | no_memory r1 ↦ give_up b pgdir r1
        | remap ↦ panics
        | out_of_fuel ↦ no_end
      ]

-- PHYSTOP is not too high.
pub setupkvm : Bounds → (data_start : ℕ) → Ram → Result (ℕ × Ram)
unfolding map_kernel
setupkvm b data_start r =
    let (pgdir, k) = kalloc r.kmem in
    if pgdir == 0
    then ok (0, set_kmem k r)
    else map_kernel b pgdir (kmap data_start) (zero_page pgdir (set_kmem k r))

-- memmove of a whole page.
abbrev pub copy_page : (dst src : ℕ) → Ram → Ram
copy_page dst src r = record r { page = update r.page dst (r.page src) }

pub copy_loop : Bounds → (fuel pgdir d i sz : ℕ) → Ram → Result (ℕ × Ram)
unfolding give_up
copy_loop b zero pgdir d i sz r = no_end
copy_loop b (suc fuel) pgdir d i sz r = elim (ltb i sz) [
  | false ↦ ok (d, r)
  | true ↦ elim (walkpgdir pgdir i false r).0 [
    | none ↦ panics
    | some pte ↦ elim (is_present (load pte r)) [
      | false ↦ panics
      | true ↦
          let w = load pte r in
          let (mem, k) = kalloc r.kmem in
          if mem == 0
          then give_up b d (set_kmem k r)
          else elim (mappages d i pgsize (v2p mem) (pte_flags w)
              (copy_page mem (p2v (pte_addr w)) (set_kmem k r))) [
                | mapped r1 ↦ copy_loop b fuel pgdir d (i + pgsize) sz r1
                | no_memory r1 ↦ then_do (release_page b mem r1) (λ r2. give_up b d r2)
                | remap ↦ panics
                | out_of_fuel ↦ no_end
              ]
    ]
  ]
]

-- The copy begins at the second page.
pub copyuvm : Bounds → (data_start pgdir sz : ℕ) → Ram → Result (ℕ × Ram)
copyuvm b data_start pgdir sz r =
    then_do (setupkvm b data_start r)
      (λ (d, r1). if d == 0 then ok (0, r1) else copy_loop b (2 ^ 20) pgdir d pgsize sz r1)
