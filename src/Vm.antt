-- ===== src/Vm.antt =====
-- vm.c: page tables in memory. A page is known by the kernel address that `kalloc` returns, and is its
-- array of 1024 words; the link that `kfree` writes to a free page is in the allocator's state. An
-- entry of a page table is its word, with the flags as bits. A panic is a constructor of its own, or
-- `none`.
pub mod Entry
pub mod Tree
pub mod Protect
pub mod Space
use Prim.Native.Nat.{bit_or}
use p2b.Prelude.{
  ℕ, zero, suc, ◌+◌, ◌-◌, ◌*◌, ◌/◌, ◌%◌, ◌^◌, Bool, true, false, not, Option, none, some, ◌==◌,
  if◌then◌else◌, update,
}
use p2b.Kalloc.{pgsize, Kmem, kalloc}

abbrev pub kernbase : ℕ
kernbase = 2 ^ 31

-- V2P and P2V: both move an address by half of the address space.
abbrev pub v2p : ℕ → ℕ
v2p v = (v + kernbase) % 2 ^ 32

abbrev pub p2v : ℕ → ℕ
p2v a = (a + kernbase) % 2 ^ 32

abbrev pub pdx : ℕ → ℕ
pdx va = va / 2 ^ 22 % 1024

abbrev pub ptx : ℕ → ℕ
ptx va = va / 2 ^ 12 % 1024

abbrev pub pgrounddown : ℕ → ℕ
pgrounddown a = a / pgsize * pgsize

-- PTE_P, PTE_W and PTE_U of an entry, PTE_ADDR and PTE_FLAGS.
abbrev pub is_present : ℕ → Bool
is_present w = w % 2 == 1

abbrev pub is_writable : ℕ → Bool
is_writable w = w / 2 % 2 == 1

abbrev pub is_user : ℕ → Bool
is_user w = w / 4 % 2 == 1

abbrev pub pte_addr : ℕ → ℕ
pte_addr w = w / pgsize * pgsize

abbrev pub pte_flags : ℕ → ℕ
pte_flags w = w % pgsize

-- pa | perm | PTE_P
pub make_pte : (pa perm : ℕ) → ℕ
make_pte pa perm = bit_or (bit_or pa perm) 1

pub record Ram : Type 0 where
  pub kmem : Kmem
  pub page : ℕ → ℕ → ℕ

-- Where a word is: what a `pte_t *` points at.
pub record Place : Type 0 where
  pub table : ℕ
  pub index : ℕ

abbrev pub load : Place → Ram → ℕ
load p r = r.page p.table p.index

abbrev pub store : Place → ℕ → Ram → Ram
store p w r = record r { page = update r.page p.table (update (r.page p.table) p.index w) }

-- memset(v, 0, PGSIZE)
abbrev pub zero_page : ℕ → Ram → Ram
zero_page v r = record r { page = update r.page v (λ _. 0) }

abbrev pub set_kmem : Kmem → Ram → Ram
set_kmem k r = record r { kmem = k }

-- `walkpgdir` when there is no page table: what `kalloc` has returned becomes one.
new_table : (pgdir va : ℕ) → ℕ × Kmem → Ram → Option Place × Ram
new_table pgdir va (v, k) r = if v == 0 then (none, set_kmem k r) else (
  some (record { table = v; index = ptx va }),
  store (record { table = pgdir; index = pdx va }) (v2p v + 7) (zero_page v (set_kmem k r)),
)

pub walkpgdir : (pgdir va : ℕ) (alloc : Bool) → Ram → Option Place × Ram
unfolding new_table
walkpgdir pgdir va alloc r =
    let pde = r.page pgdir (pdx va) in
    if is_present pde
    then (some (record { table = p2v (pte_addr pde); index = ptx va }), r)
    else if not alloc
    then (none, r)
    else new_table pgdir va (kalloc r.kmem) r

-- What `mappages` comes to: 0, -1, or the panic "remap".
pub data Mapping : Type 0 where
  mapped : Ram → Mapping
  no_memory : Ram → Mapping
  remap : Mapping
  out_of_fuel : Mapping

-- What one round of the loop makes of the place that `walkpgdir` finds.
map_page : Option Place × Ram → (pte : ℕ) (is_last : Bool) (go_on : Ram → Mapping) → Mapping
map_page (none, r) pte is_last go_on = no_memory r
map_page (some p, r) pte is_last go_on = elim (is_present (load p r)) [
  | true ↦ remap
  | false ↦ elim is_last [ true ↦ mapped (store p pte r) | false ↦ go_on (store p pte r) ]
]

pub map_loop : (fuel pgdir a last pa perm : ℕ) → Ram → Mapping
unfolding map_page
map_loop zero pgdir a last pa perm r = out_of_fuel
map_loop (suc fuel) pgdir a last pa perm r =
    map_page (walkpgdir pgdir a true r) (make_pte pa perm) (a == last)
      (λ r1. map_loop fuel pgdir ((a + pgsize) % 2 ^ 32) last ((pa + pgsize) % 2 ^ 32) perm r1)

-- The loop visits each page of the address space once at most.
pub mappages : (pgdir va size pa perm : ℕ) → Ram → Mapping
mappages pgdir va size pa perm r =
    map_loop (2 ^ 20) pgdir (pgrounddown va) (pgrounddown ((va + size + 2 ^ 32 - 1) % 2 ^ 32)) pa
      perm r
