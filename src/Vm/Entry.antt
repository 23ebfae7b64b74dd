-- ===== src/Vm/Entry.antt =====
-- The entries of page tables that `mappages` of vm.c makes: `pa | perm | PTE_P`.
use Prim.Native.Nat.{max, digits, bit_or, bit_or-bitwise}
use native.Mathlib.Nat.{pow-suc, le_refl}
use mathlib.Core.Path.{subst}
use p2b.Prelude.{ℕ, zero, suc, ◌+◌, ◌*◌, ◌/◌, ◌%◌, ◌^◌, ◌<◌, ◌≤◌, ◌≡◌, refl, ap, ◌∙◌, true, arith}
use p2b.Kalloc.{pgsize}
use p2b.Vm.{make_pte, is_present, pte_addr, pte_flags}

-- The recursion on digits does not depend on its fuel once there is enough.
enough_digits :
    (n m a b : ℕ) → a ≤ n → a ≤ m → digits (λ x. x) max n a b ≡ digits (λ x. x) max m a b
enough_digits zero zero a b p q = refl
enough_digits zero (suc m) zero b p q = refl
enough_digits zero (suc m) (suc a) b p q = absurd (omega arith)
enough_digits (suc n) zero zero b p q = refl
enough_digits (suc n) zero (suc a) b p q = absurd (omega arith)
enough_digits (suc n) (suc m) zero b p q = refl
enough_digits (suc n) (suc m) (suc a) b p q =
    rw (enough_digits n m (suc a / 2) (b / 2) (omega arith) (omega arith))

bit_or-low : (a b : ℕ) → bit_or a b ≡ bit_or (a / 2) (b / 2) * 2 + max (a % 2) (b % 2)
bit_or-low zero b = simp bit_or-bitwise (omega arith)
bit_or-low (suc a) b =
    simp bit_or-bitwise
      (omega (arith, enough_digits a (suc a / 2) (suc a / 2) (b / 2) (omega arith) (le_refl _)))

bit_or-none : (n a : ℕ) → a ≤ n → bit_or a 0 ≡ a
bit_or-none n zero le = refl
bit_or-none zero (suc a) le = absurd (omega arith)
bit_or-none (suc n) (suc a) le =
    omega (arith, bit_or-low (suc a) 0, bit_or-none n (suc a / 2) (omega arith))

-- An address that ends in `k` zero bits, with flags of `k` bits.
bit_or-apart : (k q f : ℕ) → f < 2 ^ k → bit_or (q * 2 ^ k) f ≡ q * 2 ^ k + f
bit_or-apart zero q f fits = ground (arith, bit_or-none q q (le_refl _))
bit_or-apart (suc k) q f fits =
    let twice : q * 2 ^ suc k ≡ 2 * (q * 2 ^ k) =
      omega (arith, ap (λ (t : ℕ). q * t) (pow-suc 2 k)) in
    ground (arith, twice, bit_or-low (q * 2 ^ suc k) f, bit_or-apart k q (f / 2) (omega arith))

bit_or-present : (w : ℕ) → bit_or w 1 ≡ w / 2 * 2 + 1
bit_or-present w = ground (arith, bit_or-low w 1, bit_or-none (w / 2) (w / 2) (le_refl _))

-- A present entry for the frame `pa` with the flags of `perm`.
pub record IsEntry (w pa perm : ℕ) : Type 0 where
  pub present : is_present w ≡ true
  pub frame : pte_addr w ≡ pa
  pub flags : pte_flags w / 2 ≡ perm / 2

pub make_pte-IsEntry :
    (pa perm : ℕ) → pa % pgsize ≡ 0 → perm < pgsize → IsEntry (make_pte pa perm) pa perm
unfolding make_pte
make_pte-IsEntry pa perm aligned small =
    let whole : pa / 4096 * 2 ^ 12 ≡ pa = omega arith in
    let fields : bit_or pa perm ≡ pa + perm =
      subst (λ x. bit_or x perm ≡ x + perm) whole (bit_or-apart 12 (pa / 4096) perm small) in
    let all : make_pte pa perm ≡ (pa + perm) / 2 * 2 + 1 =
      ap (λ x. bit_or x 1) fields ∙ bit_or-present (pa + perm) in
    record { present = ground (arith, all); frame = omega (arith, all); flags = omega (arith, all) }
