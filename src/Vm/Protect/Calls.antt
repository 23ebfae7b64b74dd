-- ===== src/Vm/Protect/Calls.antt =====
-- `mprotect` and `munprotect` of vm.c, as calls.
use p2b.Prelude.{
  ℕ, zero, suc, ◌+◌, ◌*◌, ◌/◌, ◌%◌, ◌^◌, ◌<◌, ◌≤◌, ◌≡◌, ◌≢◌, refl, ap, ◌∙◌, ◌⊎◌, inl, inr, Bool,
  true, false, ◌&&◌, ◌||◌, Option, none, some, List, arith, ◌==◌, if◌then◌else◌, Bool-cases,
  Option-cases,
}
use mathlib.Core.Path.{subst, ap₂}
use p2b.Proc.{is_negative}
use p2b.Kalloc.{pgsize}
use p2b.Vm.{
  Ram, Place, load, store, walkpgdir, is_present, is_user, is_writable, pdx, ptx, pgrounddown,
}
use p2b.Vm.Tree.{IsTree, lookup, table_at}
use p2b.Vm.Protect.{
  uva2ka, check_loop, clear_write, set_write, change_loop, after_check, protect_with, mprotect,
  munprotect,
}
use p2b.Vm.Protect.Pages.{
  is_user_page, nth_page, IsChanged, IsChanged-other, StopsAt, check_loop-never_refuses,
  protect_with_lem,
}

-- An entry with its write bit, bit 1, taken out, and with the bit put in.
abbrev pub without_write : ℕ → ℕ
without_write w = w / 4 * 4 + w % 2

abbrev pub with_write : ℕ → ℕ
with_write w = w / 4 * 4 + 2 + w % 2

clear_write_lem : (w : ℕ) → clear_write w ≡ without_write w
clear_write_lem w = ground arith

set_write_lem : (w : ℕ) → set_write w ≡ with_write w
set_write_lem w = ground arith

-- Let the page tables be well formed, the length positive, the range not wrap, and `k` be the number
-- of pages of the range before the first that is not mapped for the user. If there is no page table for
-- `addr`, `mprotect` reads through a null pointer. Otherwise it clears the write bit of those `k` pages,
-- with no other bit of their entries, and changes the entry of no other page, and returns 0 just when
-- `k` is the length.
pub mprotect_lem :
    (pgdir : ℕ) (free : List ℕ) (len addr k : ℕ) (r : Ram)
    → 0 < len
    → len < 2 ^ 31
    → IsTree pgdir r free
    → StopsAt pgdir len addr k r
    → ((is_present (r.page pgdir (pdx addr)) ≡ false) × (mprotect pgdir addr len r ≡ none))
      ⊎ ((r' : Ram) × (mprotect pgdir addr len r ≡ some (k == len, r'))
          × IsChanged without_write pgdir addr k r r' free)
unfolding mprotect
mprotect_lem pgdir free len addr k r pos small t s =
    elim (protect_with_lem clear_write pgdir free len addr k r pos small t s) [
      | inl fault ↦ inl fault
      | inr (r', e, c) ↦
          inr (r', e, IsChanged-other _ without_write pgdir addr k r r' free clear_write_lem c)
    ]

keeps_user : (w : ℕ) → is_user_page w ≡ true → is_user_page (clear_write w) ≡ true
keeps_user w u = ground arith

write_again : (w : ℕ) → set_write (clear_write w) ≡ with_write w
write_again w = ground arith

abbrev pub is_user_writable : ℕ → Bool
is_user_writable w = is_user_page w && is_writable w

not_writable : (w v : ℕ) → v ≡ clear_write w → is_writable v ≡ false
not_writable w v e = ground arith

writable_again : (w v : ℕ) → is_user_page w ≡ true → v ≡ with_write w → is_user_writable v ≡ true
writable_again w v u e = ground arith

-- Let the page tables be well formed and every page of a range that does not wrap be mapped for the
-- user. Then `mprotect` and `munprotect` of the range, one after the other, return 0; in between no
-- page of the range is writable, after it each is writable by the user, and both times no other bit and
-- no other entry has changed.
pub mprotect-munprotect :
    (pgdir : ℕ) (free : List ℕ) (len addr : ℕ) (r : Ram)
    → 0 < len
    → len < 2 ^ 31
    → IsTree pgdir r free
    → addr + len * pgsize ≤ 2 ^ 32
    → ((i : ℕ) → i < len → is_user_page (lookup pgdir (nth_page addr i) r) ≡ true)
    → (r1 : Ram) × (r2 : Ram) × (mprotect pgdir addr len r ≡ some (true, r1))
      × (munprotect pgdir addr len r1 ≡ some (true, r2))
      × ((i : ℕ) → i < len → is_writable (lookup pgdir (nth_page addr i) r1) ≡ false)
      × ((i : ℕ) → i < len → is_user_writable (lookup pgdir (nth_page addr i) r2) ≡ true)
      × IsChanged without_write pgdir addr len r r1 free
      × IsChanged with_write pgdir addr len r r2 free
unfolding mprotect munprotect
mprotect-munprotect pgdir free len addr r pos small t fits good =
    elim (protect_with_lem clear_write pgdir free len addr len r pos small t
      (record { bound = omega arith; fits = fits; good = good; next = inl refl })) [
        | inl (miss, _) ↦ absurd (no_fault miss)
        | inr (r1, e1, c1) ↦
            elim (protect_with_lem set_write pgdir free len addr len r1 pos small c1.tree (record {
              bound = omega arith;
              fits = fits;
              good = λ i lt.
                  rw (c1.hit i lt) (keeps_user (lookup pgdir (nth_page addr i) r) (good i lt));
              next = inl refl;
            })) [
              | inl (miss, _) ↦ absurd (no_fault1 r1 c1 miss)
              | inr (r2, e2, c2) ↦ (
                r1,
                r2,
                e1 ∙ whole r1,
                e2 ∙ whole r2,
                (λ i lt. not_writable (lookup pgdir (nth_page addr i) r) _ (c1.hit i lt)),
                (λ i lt.
                    writable_again (lookup pgdir (nth_page addr i) r) _ (good i lt)
                      (both r1 r2 c1 c2 i lt)),
                IsChanged-other _ without_write pgdir addr len r r1 free clear_write_lem c1,
                record {
                  tree = c2.tree;
                  hit = both r1 r2 c1 c2;
                  miss = λ vb out. c2.miss vb out ∙ c1.miss vb out;
                },
              )
            ]
      ]
  where
    whole : (q : Ram) → ◌≡◌ {A = Option (Bool × Ram)} (some (len == len, q)) (some (true, q))
    whole q = ground arith

    both :
        (q1 q2 : Ram)
        → IsChanged clear_write pgdir addr len r q1 free
        → IsChanged set_write pgdir addr len q1 q2 free
        → (i : ℕ) → i < len
        → lookup pgdir (nth_page addr i) q2 ≡ with_write (lookup pgdir (nth_page addr i) r)
    both q1 q2 d1 d2 i lt =
        d2.hit i lt ∙ ap set_write (d1.hit i lt) ∙ write_again (lookup pgdir (nth_page addr i) r)

    first :
        (q : Ram)
        → is_user_page (lookup pgdir (nth_page addr 0) q) ≡ true
        → is_present (q.page pgdir (pdx addr)) ≡ false
        → ⊥
    first q u miss =
        let e : nth_page addr 0 ≡ addr = omega arith in
        let u' : is_user_page (lookup pgdir addr q) ≡ true =
          subst (λ v. is_user_page (lookup pgdir v q) ≡ true) e u in
        ground arith

    no_fault : is_present (r.page pgdir (pdx addr)) ≡ false → ⊥
    no_fault miss = first r (good 0 pos) miss

    no_fault1 :
        (q : Ram)
        → IsChanged clear_write pgdir addr len r q free
        → is_present (q.page pgdir (pdx addr)) ≡ false
        → ⊥
    no_fault1 q c miss =
        first q (rw (c.hit 0 pos) (keeps_user (lookup pgdir (nth_page addr 0) r) (good 0 pos))) miss

walkpgdir-page :
    (pgdir va vb : ℕ) (r : Ram)
    → va / pgsize ≡ vb / pgsize
    → walkpgdir pgdir va false r ≡ walkpgdir pgdir vb false r
unfolding walkpgdir
walkpgdir-page pgdir va vb r e =
    let d : pdx va ≡ pdx vb = omega arith in let t : ptx va ≡ ptx vb = omega arith in ap₂ walked d t
  where
    walked : ℕ → ℕ → Option Place × Ram
    walked d t =
        if is_present (r.page pgdir d)
        then (some (record { table = table_at pgdir d r; index = t }), r)
        else (none, r)

uva2ka-page :
    (pgdir va vb : ℕ) (r : Ram) → va / pgsize ≡ vb / pgsize → uva2ka pgdir va r ≡ uva2ka pgdir vb r
unfolding uva2ka
uva2ka-page pgdir va vb r e = rw (walkpgdir-page pgdir va vb r e, uva2ka) refl

check_loop-page :
    (n pgdir va vb : ℕ) (r : Ram)
    → va / pgsize ≡ vb / pgsize
    → check_loop n pgdir va r ≡ check_loop n pgdir vb r
unfolding check_loop
check_loop-page zero pgdir va vb r e = refl
check_loop-page (suc n) pgdir va vb r e =
    let same = uva2ka-page pgdir va vb r e in
    elim (Option-cases (uva2ka pgdir vb r)) [
      | inl fault ↦ rw (same, fault, check_loop) refl
      | inr (a, ka) ↦ elim (Bool-cases (a % pgsize == 0)) [
        | inl ok ↦ rw (same, ka, ok, check_loop) (check_loop-page n pgdir va vb r e)
        | inr bad ↦ rw (same, ka, bad, check_loop) refl
      ]
    ]

change_loop-page :
    (change : ℕ → ℕ) (n pgdir va vb : ℕ) (r : Ram)
    → va / pgsize ≡ vb / pgsize
    → change_loop change n pgdir va r ≡ change_loop change n pgdir vb r
unfolding change_loop
change_loop-page change zero pgdir va vb r e = refl
change_loop-page change (suc n) pgdir va vb r e =
    let same = walkpgdir-page pgdir va vb r e in
    elim (Option-cases (walkpgdir pgdir vb false r).0) [
      | inl missing ↦ rw (same, missing, change_loop) refl
      | inr (x, at) ↦ elim (Bool-cases (is_present (load x r) && is_user (load x r))) [
        | inl good ↦
            rw (same, at, good, change_loop)
              (change_loop-page change n pgdir ((va + pgsize) % 2 ^ 32) ((vb + pgsize) % 2 ^ 32)
                (store x (change (load x r)) r) (omega arith))
        | inr bad ↦ rw (same, at, bad, change_loop) refl
      ]
    ]

protect_with-page :
    (change : ℕ → ℕ) (pgdir va vb len : ℕ) (r : Ram)
    → va / pgsize ≡ vb / pgsize
    → protect_with change pgdir va len r ≡ protect_with change pgdir vb len r
unfolding protect_with after_check
protect_with-page change pgdir va vb len r e = elim (Bool-cases (len == 0 || is_negative len)) [
  | inl bad ↦ rw (bad, protect_with) refl
  | inr ok ↦ elim (Option-cases (check_loop len pgdir vb r)) [
    | inl fault ↦ rw (ok, check_loop-page len pgdir va vb r e, fault, protect_with) refl
    | inr (true, c) ↦
        rw
          (
            ok,
            check_loop-page len pgdir va vb r e,
            c,
            change_loop-page change len pgdir va vb r e,
            protect_with,
          )
          refl
    | inr (false, c) ↦ rw (ok, check_loop-page len pgdir va vb r e, c, protect_with) refl
  ]
]

-- The offset of `addr` in its page makes no difference: `mprotect` and `munprotect` of an address that
-- is not page-aligned do what they do for the start of the page. For a positive length the test for
-- alignment in their first loop refuses no address.
pub protect_unaligned :
    (pgdir addr len : ℕ) (r : Ram)
    → (mprotect pgdir addr len r ≡ mprotect pgdir (pgrounddown addr) len r)
      × (munprotect pgdir addr len r ≡ munprotect pgdir (pgrounddown addr) len r)
      × (check_loop len pgdir addr r ≢ some false)
unfolding mprotect munprotect
protect_unaligned pgdir addr len r =
    let e : addr / pgsize ≡ pgrounddown addr / pgsize = omega arith in
    (
      protect_with-page clear_write pgdir addr (pgrounddown addr) len r e,
      protect_with-page set_write pgdir addr (pgrounddown addr) len r e,
      check_loop-never_refuses pgdir len addr r,
    )
