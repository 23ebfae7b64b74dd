-- ===== src/Tests/PageTables.antt =====
-- The theorems on page tables, for a page directory with one page table and one free page.
use p2b.Prelude.{
  ℕ, zero, suc, ◌+◌, ◌*◌, ◌<◌, ◌≡◌, ◌≢◌, refl, ◌⊎◌, inr, true, false, none, some, List, [], ◌∷◌,
  arith, ◌==◌, if◌then◌else◌,
}
use p2b.Kalloc.{pgsize}
use p2b.Vm.{is_writable, Ram, is_present, pdx, pgrounddown, mappages}
use p2b.Vm.Tree.{IsTree, lookup}
use p2b.Vm.Protect.{check_loop, mprotect, munprotect}
use p2b.Vm.Protect.Pages.{IsChanged, StopsAt, is_user_page, nth_page}
use p2b.Vm.Protect.Calls.{
  without_write, with_write, is_user_writable, mprotect_lem, mprotect-munprotect, protect_unaligned,
}
use p2b.Vm.Space.Range.{IsClear, RangeMapped, mappages_lem}

abbrev directory : ℕ
directory = 2147487744

abbrev table : ℕ
table = 2147491840

abbrev spare : List ℕ
spare = 2147495936 ∷ []

-- Pages 1 and 2 are mapped for the user.
abbrev entries : ℕ → ℕ
entries i = if i == 1 then 28679 else if i == 2 then 32775 else 0

abbrev small : Ram
small = record {
  kmem = record { use_lock = true; freelist = 2147495936; next = λ _. 0; filled = λ _. false };
  page = λ v i.
      if v == directory then if i == 0 then 8199 else 0 else if v == table then entries i else 0;
}

only_first : (i : ℕ) → is_present (small.page directory i) ≡ true → i ≡ 0
only_first i e = ground arith

small-IsTree : IsTree directory small spare
small-IsTree = record {
  list = (refl, omega arith, tt, refl);
  pages = (refl, omega arith, omega arith, tt);
  root = (omega arith, tt);
  used = λ i e. (ground (arith, only_first i e), tt);
  below = λ i e. ground (arith, only_first i e);
  apart = λ i j e f ne. absurd (omega (arith, only_first i e, only_first j f));
}

user_pages : (i : ℕ) → i < 2 → is_user_page (lookup directory (nth_page 4096 i) small) ≡ true
user_pages zero lt = refl
user_pages (suc zero) lt = refl
user_pages (suc (suc i)) lt = absurd (omega arith)

-- Of three pages the last is not mapped.
two_of_three : StopsAt directory 3 4096 2 small
two_of_three = record {
  bound = omega arith;
  fits = omega arith;
  good = user_pages;
  next = inr refl;
}

mprotect_lem_example :
    ((is_present (small.page directory (pdx 4096)) ≡ false)
      × (mprotect directory 4096 3 small ≡ none))
    ⊎ ((r' : Ram) × (mprotect directory 4096 3 small ≡ some (2 == 3, r'))
        × IsChanged without_write directory 4096 2 small r' spare)
mprotect_lem_example =
    mprotect_lem directory spare 3 4096 2 small (omega arith) (omega arith) small-IsTree
      two_of_three

mprotect-munprotect_example :
    (r1 : Ram) × (r2 : Ram) × (mprotect directory 4096 2 small ≡ some (true, r1))
    × (munprotect directory 4096 2 r1 ≡ some (true, r2))
    × ((i : ℕ) → i < 2 → is_writable (lookup directory (nth_page 4096 i) r1) ≡ false)
    × ((i : ℕ) → i < 2 → is_user_writable (lookup directory (nth_page 4096 i) r2) ≡ true)
    × IsChanged without_write directory 4096 2 small r1 spare
    × IsChanged with_write directory 4096 2 small r2 spare
mprotect-munprotect_example =
    mprotect-munprotect directory spare 2 4096 small (omega arith) (omega arith) small-IsTree
      (omega arith) user_pages

protect_unaligned_example :
    (mprotect directory 4097 2 small ≡ mprotect directory (pgrounddown 4097) 2 small)
    × (munprotect directory 4097 2 small ≡ munprotect directory (pgrounddown 4097) 2 small)
    × (check_loop 2 directory 4097 small ≢ some false)
protect_unaligned_example = protect_unaligned directory 4097 2 small

unmapped : (i : ℕ) → i < 2 → is_present (lookup directory (12288 + i * pgsize) small) ≡ false
unmapped zero lt = refl
unmapped (suc zero) lt = refl
unmapped (suc (suc i)) lt = absurd (omega arith)

pages_3_and_4 : IsClear directory 6 2 12288 36864 small
pages_3_and_4 = record {
  fits = omega arith;
  frames = omega arith;
  aligned = refl;
  flags = omega arith;
  clear = unmapped;
}

mappages_lem_example :
    RangeMapped directory 6 2 12288 36864 small
      (mappages directory 12288 (2 * pgsize) 36864 6 small)
mappages_lem_example =
    mappages_lem directory 6 1 12288 36864 small spare refl small-IsTree pages_3_and_4
