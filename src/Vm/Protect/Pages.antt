-- ===== src/Vm/Protect/Pages.antt =====
-- `mprotect` and `munprotect` of vm.c: which pages they change.
use p2b.Prelude.{
  ℕ, zero, suc, ◌+◌, ◌*◌, ◌%◌, ◌^◌, ◌<◌, ◌≤◌, ◌≡◌, ◌≢◌, refl, sym, ap, ◌∙◌, ◌⊎◌, inl, inr, Bool,
  true, false, ◌&&◌, ◌||◌, none, some, List, arith, ◌==◌,
}
use mathlib.Core.Path.{subst}
use native.Mathlib.Decide.{ℕ_discrete}
use p2b.Proc.{is_negative}
use p2b.Kalloc.{pgsize}
use p2b.Vm.{Ram, Place, load, store, is_present, is_user, pdx, ptx}
use p2b.Vm.Tree.{
  IsTree, IsPlace, SamePage, lookup, walk_found, load-IsPlace, store-IsTree, lookup-store_same,
  lookup-store_other,
}
use p2b.Vm.Protect.{uva2ka, user_address, check_loop, change_loop, after_check, protect_with}

-- The page of a virtual address is mapped for the user.
abbrev pub is_user_page : ℕ → Bool
is_user_page w = is_present w && is_user w

abbrev pub nth_page : (addr i : ℕ) → ℕ
nth_page addr i = addr + i * pgsize

-- The entries of `k` pages from `addr` on are changed, and no others.
pub record IsChanged (change : ℕ → ℕ) (pgdir addr k : ℕ) (r r' : Ram) (free : List ℕ) : Type 0 where
  pub tree : IsTree pgdir r' free
  pub hit :
      (i : ℕ)
      → i < k
      → lookup pgdir (nth_page addr i) r' ≡ change (lookup pgdir (nth_page addr i) r)
  pub miss :
      (vb : ℕ)
      → ((i : ℕ) → i < k → SamePage (nth_page addr i) vb → ⊥)
      → lookup pgdir vb r' ≡ lookup pgdir vb r

pub SamePage-far : (va j : ℕ) → 0 < j → va + j * pgsize < 2 ^ 32 → SamePage va (va + j * pgsize) → ⊥
SamePage-far va j pos fits (d, t) = omega arith

change_loop-stop :
    (change : ℕ → ℕ) (n pgdir addr : ℕ) (r : Ram)
    → is_user_page (lookup pgdir addr r) ≡ false
    → change_loop change (suc n) pgdir addr r ≡ (false, r)
unfolding change_loop
change_loop-stop change n pgdir addr r bad = elim (walk_found pgdir addr r) [
  | inl (_, e) ↦ rw (e, change_loop) refl
  | inr (p, e, at) ↦
      let bad' : is_user_page (load p r) ≡ false = rw (load-IsPlace pgdir addr r p at) bad in
      rw (e, bad', change_loop) refl
]

change_loop-go :
    (change : ℕ → ℕ) (n pgdir addr : ℕ) (r : Ram)
    → is_user_page (lookup pgdir addr r) ≡ true
    → (p : Place) × IsPlace pgdir addr r p
      × (change_loop change (suc n) pgdir addr r
          ≡ change_loop change n pgdir
              ((addr + pgsize) % 2 ^ 32)
              (store p (change (lookup pgdir addr r)) r))
unfolding change_loop
change_loop-go change n pgdir addr r good = elim (walk_found pgdir addr r) [
  | inl (miss, e) ↦ absurd (ground arith)
  | inr (p, e, at) ↦
      let same = load-IsPlace pgdir addr r p at in
      let good' : is_user_page (load p r) ≡ true = rw same good in
      (
        p,
        at,
        rw (e, good', change_loop)
            (ap (λ w. change_loop change n pgdir ((addr + pgsize) % 2 ^ 32) (store p (change w) r))
              same),
      )
]

change_loop-wrap :
    (change : ℕ → ℕ) (n pgdir addr : ℕ) (r : Ram)
    → addr + n * pgsize ≤ 2 ^ 32
    → change_loop change n pgdir (addr % 2 ^ 32) r ≡ change_loop change n pgdir addr r
unfolding change_loop
change_loop-wrap change zero pgdir addr r fits = refl
change_loop-wrap change (suc n) pgdir addr r fits =
    let e : addr % 2 ^ 32 ≡ addr = omega arith in ap (λ a. change_loop change (suc n) pgdir a r) e

-- The first `k` pages are mapped for the user, and `k` is all or the next page is not.
pub record StopsAt (pgdir n addr k : ℕ) (r : Ram) : Type 0 where
  pub bound : k ≤ n
  pub fits : addr + n * pgsize ≤ 2 ^ 32
  pub good : (i : ℕ) → i < k → is_user_page (lookup pgdir (nth_page addr i) r) ≡ true
  pub next : (k ≡ n) ⊎ (is_user_page (lookup pgdir (nth_page addr k) r) ≡ false)

pub IsChanged-other :
    (f g : ℕ → ℕ) (pgdir addr k : ℕ) (r r' : Ram) (free : List ℕ)
    → ((w : ℕ) → f w ≡ g w)
    → IsChanged f pgdir addr k r r' free
    → IsChanged g pgdir addr k r r' free
IsChanged-other f g pgdir addr k r r' free same c = record {
  tree = c.tree;
  hit = λ i lt. c.hit i lt ∙ same (lookup pgdir (nth_page addr i) r);
  miss = c.miss;
}

-- Each round of the first loop finds a page-aligned address or a null pointer.
uva2ka-aligned :
    (pgdir addr : ℕ) (r : Ram)
    → ((is_present (r.page pgdir (pdx addr)) ≡ false) × (uva2ka pgdir addr r ≡ none))
      ⊎ ((a : ℕ) × (uva2ka pgdir addr r ≡ some a) × ((a % pgsize == 0) ≡ true))
unfolding uva2ka
uva2ka-aligned pgdir addr r = elim (walk_found pgdir addr r) [
  | inl (miss, e) ↦ inl (miss, rw (e, uva2ka) refl)
  | inr (p, e, at) ↦ inr (user_address (load p r), rw (e, uva2ka) refl, ground arith)
]

check_loop-true :
    (pgdir n addr a : ℕ) (r : Ram)
    → uva2ka pgdir addr r ≡ some a
    → (a % pgsize == 0) ≡ true
    → check_loop n pgdir addr r ≡ some true
unfolding check_loop
check_loop-true pgdir zero addr a r e al = refl
check_loop-true pgdir (suc n) addr a r e al =
    rw (e, al, check_loop) (check_loop-true pgdir n addr a r e al)

check_loop-fault :
    (pgdir n addr : ℕ) (r : Ram)
    → 0 < n
    → uva2ka pgdir addr r ≡ none
    → check_loop n pgdir addr r ≡ none
unfolding check_loop
check_loop-fault pgdir zero addr r pos e = absurd (omega arith)
check_loop-fault pgdir (suc n) addr r pos e = rw (e, check_loop) refl

-- The test in the first loop refuses no address.
pub check_loop-never_refuses : (pgdir n addr : ℕ) (r : Ram) → check_loop n pgdir addr r ≢ some false
unfolding check_loop
check_loop-never_refuses pgdir zero addr r refused = ground arith
check_loop-never_refuses pgdir (suc n) addr r refused = elim (uva2ka-aligned pgdir addr r) [
  | inl (miss, e) ↦ ground (arith, check_loop-fault pgdir (suc n) addr r (omega arith) e)
  | inr (a, e, al) ↦ ground (arith, check_loop-true pgdir (suc n) addr a r e al)
]

module _ (change : ℕ → ℕ) (pgdir : ℕ) (free : List ℕ) where
  IsChanged-none :
      (addr : ℕ) (r : Ram) → IsTree pgdir r free → IsChanged change pgdir addr 0 r r free
  IsChanged-none addr r t = record {
    tree = t;
    hit = λ i lt. absurd (omega arith);
    miss = λ vb out. refl;
  }

  module _ (n addr k : ℕ) (r : Ram) (p : Place) (t : IsTree pgdir r free)
      (at : IsPlace pgdir addr r p) (s : StopsAt pgdir (suc n) addr (suc k) r) where
    abbrev r1 : Ram
    r1 = store p (change (lookup pgdir addr r)) r

    shift : (i : ℕ) → nth_page (addr + pgsize) i ≡ nth_page addr (suc i)
    shift i = omega arith

    later :
        (i : ℕ)
        → i < n
        → lookup pgdir (nth_page (addr + pgsize) i) r1 ≡ lookup pgdir (nth_page addr (suc i)) r
    later i lt =
        ap (λ v. lookup pgdir v r1) (shift i)
        ∙ lookup-store_other pgdir addr r p at (change (lookup pgdir addr r))
            (nth_page addr (suc i)) t
            (SamePage-far addr (suc i) (omega arith) (omega (arith, s.fits)))

    StopsAt-next : StopsAt pgdir n (addr + pgsize) k r1
    StopsAt-next = record {
      bound = omega (arith, s.bound);
      fits = omega (arith, s.fits);
      good = λ i lt. rw (later i (omega (arith, s.bound))) (s.good (suc i) (omega arith));
      next = elim (ℕ_discrete k n) [
        | yes e ↦ inl e
        | no ne ↦ elim s.next [
          | inl e ↦ inl (omega arith)
          | inr bad ↦ inr (rw (later k (omega (arith, s.bound))) bad)
        ]
      ];
    }

    IsChanged-next :
        (r' : Ram)
        → IsChanged change pgdir (addr + pgsize) k r1 r' free
        → IsChanged change pgdir addr (suc k) r r' free
    IsChanged-next r' c = record {
      tree = c.tree;
      hit = hit;
      miss = λ vb out.
          c.miss vb (λ i lt sp. out (suc i) (omega arith) (subst (λ v. SamePage v vb) (shift i) sp))
          ∙ lookup-store_other pgdir addr r p at (change (lookup pgdir addr r)) vb t
              (λ sp. out 0 (omega arith) (subst (λ v. SamePage v vb) first sp));
    }
      where
        first : addr ≡ addr + 0 * pgsize
        first = omega arith

        hit :
            (i : ℕ)
            → i < suc k
            → lookup pgdir (nth_page addr i) r' ≡ change (lookup pgdir (nth_page addr i) r)
        hit zero lt =
            ap (λ v. lookup pgdir v r') (sym first)
            ∙ c.miss addr (λ i h (d, e).
              SamePage-far addr (suc i) (omega arith) (omega (arith, s.fits, s.bound))
                (sym d ∙ ap pdx (shift i), sym e ∙ ap ptx (shift i)))
            ∙ lookup-store_same pgdir addr r p at (change (lookup pgdir addr r)) t
            ∙ ap (λ v. change (lookup pgdir v r)) first
        hit (suc i) lt =
            ap (λ v. lookup pgdir v r') (sym (shift i))
            ∙ c.hit i (omega arith)
            ∙ ap change (later i (omega (arith, s.bound)))

  abbrev nth_zero : (addr : ℕ) → nth_page addr 0 ≡ addr
  nth_zero addr = omega arith

  -- The loop changes the pages up to the first that is not mapped for the user, and succeeds just when
  -- there is none.
  change_loop_lem :
      (n addr k : ℕ) (r : Ram)
      → IsTree pgdir r free
      → StopsAt pgdir n addr k r
      → ((change_loop change n pgdir addr r).0 ≡ (k == n))
        × IsChanged change pgdir addr k r (change_loop change n pgdir addr r).1 free
  unfolding change_loop
  change_loop_lem zero addr zero r t s = (refl, IsChanged-none addr r t)
  change_loop_lem zero addr (suc k) r t s = absurd (omega (arith, s.bound))
  change_loop_lem (suc n) addr zero r t s = elim s.next [
    | inl e ↦ absurd (omega arith)
    | inr bad ↦
        subst (λ (o : Bool × Ram). (o.0 ≡ (0 == suc n)) × IsChanged change pgdir addr 0 r o.1 free)
          (sym (change_loop-stop change n pgdir addr r (rw (nth_zero addr) at bad)))
          (ground arith, IsChanged-none addr r t)
  ]
  change_loop_lem (suc n) addr (suc k) r t s =
      let good : is_user_page (lookup pgdir addr r) ≡ true =
        subst (λ v. is_user_page (lookup pgdir v r) ≡ true) (nth_zero addr)
          (s.good 0 (omega arith)) in
      let (p, at, e) = change_loop-go change n pgdir addr r good in
      let r' = store p (change (lookup pgdir addr r)) r in
      let t' = store-IsTree pgdir addr r p at (change (lookup pgdir addr r)) t in
      let ih = change_loop_lem n (addr + pgsize) k r' t' (StopsAt-next n addr k r p t at s) in
      subst
        (λ (o : Bool × Ram).
          (o.0 ≡ (suc k == suc n)) × IsChanged change pgdir addr (suc k) r o.1 free)
        (sym (e ∙ change_loop-wrap change n pgdir (addr + pgsize) r' (omega (arith, s.fits))))
        (ih.0 ∙ ground arith, IsChanged-next n addr k r p t at s _ ih.1)

  pub protect_with_lem :
      (len addr k : ℕ) (r : Ram)
      → 0 < len
      → len < 2 ^ 31
      → IsTree pgdir r free
      → StopsAt pgdir len addr k r
      → ((is_present (r.page pgdir (pdx addr)) ≡ false)
          × (protect_with change pgdir addr len r ≡ none))
        ⊎ ((r' : Ram) × (protect_with change pgdir addr len r ≡ some (k == len, r'))
            × IsChanged change pgdir addr k r r' free)
  unfolding protect_with after_check
  protect_with_lem len addr k r pos small t s =
      let loop = change_loop_lem len addr k r t s in
      let valid : (len == 0 || is_negative len) ≡ false = ground arith in
      elim (uva2ka-aligned pgdir addr r) [
        | inl (miss, e) ↦ inl (miss, rw (valid, check_loop-fault pgdir len addr r pos e) refl)
        | inr (a, e, al) ↦ inr (
          (change_loop change len pgdir addr r).1,
          rw (valid, check_loop-true pgdir len addr a r e al) (ground (arith, loop.0)),
          loop.1,
        )
      ]
