-- ===== src/Vm/Protect.antt =====
-- vm.c: `uva2ka`, `mprotect` and `munprotect`. The last two have the same body but for the bit that
-- they clear or set. `none` is the read through the null pointer that `walkpgdir` returns to `uva2ka`,
-- which faults in the kernel.
pub mod Pages
pub mod Calls
use p2b.Prelude.{
  ℕ, zero, suc, ◌+◌, ◌-◌, ◌*◌, ◌/◌, ◌%◌, ◌^◌, Bool, true, false, not, ◌&&◌, ◌||◌, Option, none,
  some, ◌==◌, if◌then◌else◌,
}
use p2b.Proc.{is_negative}
use p2b.Kalloc.{pgsize}
use p2b.Vm.{Ram, Place, load, store, walkpgdir, is_present, is_user, is_writable, pte_addr, p2v}

-- What `uva2ka` makes of an entry.
abbrev pub user_address : ℕ → ℕ
user_address w = if not (is_present w) then 0 else if not (is_user w) then 0 else p2v (pte_addr w)

-- The kernel address of a user page; 0 is a null pointer.
pub uva2ka : (pgdir uva : ℕ) → Ram → Option ℕ
uva2ka pgdir uva r = elim (walkpgdir pgdir uva false r).0 [
  | none ↦ none
  | some p ↦ some (user_address (load p r))
]

-- The first loop: `addr` is the same in each round. `false` is -1.
pub check_loop : (n pgdir addr : ℕ) → Ram → Option Bool
check_loop zero pgdir addr r = some true
check_loop (suc n) pgdir addr r = elim (uva2ka pgdir addr r) [
  | none ↦ none
  | some aligned ↦ elim (aligned % pgsize == 0) [
    | true ↦ check_loop n pgdir addr r
    | false ↦ some false
  ]
]

-- *x & ~PTE_W and *x | PTE_W
abbrev pub clear_write : ℕ → ℕ
clear_write w = if is_writable w then w - 2 else w

abbrev pub set_write : ℕ → ℕ
set_write w = if is_writable w then w else w + 2

-- The second loop.
change_loop : (ℕ → ℕ) → (n pgdir addr : ℕ) → Ram → Bool × Ram
change_loop change zero pgdir addr r = (true, r)
change_loop change (suc n) pgdir addr r = elim (walkpgdir pgdir addr false r).0 [
  | none ↦ (false, r)
  | some x ↦ elim (is_present (load x r) && is_user (load x r)) [
    | true ↦ change_loop change n pgdir ((addr + pgsize) % 2 ^ 32) (store x (change (load x r)) r)
    | false ↦ (false, r)
  ]
]

after_check : (ℕ → ℕ) → (pgdir addr len : ℕ) → Ram → Option Bool → Option (Bool × Ram)
unfolding change_loop
after_check change pgdir addr len r none = none
after_check change pgdir addr len r (some false) = some (false, r)
after_check change pgdir addr len r (some true) = some (change_loop change len pgdir addr r)

-- The common body, for the page directory of the caller. The flag is the result 0.
pub protect_with : (ℕ → ℕ) → (pgdir addr len : ℕ) → Ram → Option (Bool × Ram)
unfolding after_check check_loop
protect_with change pgdir addr len r =
    if len == 0 || is_negative len
    then some (false, r)
    else after_check change pgdir addr len r (check_loop len pgdir addr r)

pub mprotect : (pgdir addr len : ℕ) → Ram → Option (Bool × Ram)
unfolding protect_with
mprotect pgdir addr len r = protect_with clear_write pgdir addr len r

pub munprotect : (pgdir addr len : ℕ) → Ram → Option (Bool × Ram)
unfolding protect_with
munprotect pgdir addr len r = protect_with set_write pgdir addr len r
