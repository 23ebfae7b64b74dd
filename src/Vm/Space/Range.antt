-- ===== src/Vm/Space/Range.antt =====
-- Mapping a range of pages: `mappages` of vm.c.
use p2b.Prelude.{
  ℕ, zero, suc, ◌+◌, ◌-◌, ◌*◌, ◌%◌, ◌^◌, ◌<◌, ◌≤◌, ◌≡◌, refl, sym, ap, ◌∙◌, inl, inr, Bool, true,
  false, none, some, List, [], arith, ◌==◌, if◌then◌else◌,
}
use mathlib.Core.Path.{subst}
use native.Mathlib.Decide.{ℕ_discrete}
use p2b.Kalloc.{pgsize}
use p2b.Vm.{
  Ram, Place, load, store, walkpgdir, Mapping, map_page, map_loop, mappages, mapped, no_memory,
  is_present, make_pte, pdx, ptx, pgrounddown,
}
use p2b.Vm.Entry.{IsEntry, make_pte-IsEntry}
use p2b.Vm.Tree.{
  IsTree, IsWalked, SamePage, lookup, walk_alloc, load-IsPlace, store-IsTree, lookup-store_same,
  lookup-store_other,
}
use p2b.Vm.Protect.Pages.{SamePage-far}

-- The entries of `k` pages from `a` on are present and for `k` frames from `pa` on, with the flags
-- of `perm`, and no others have changed.
pub record IsMapped (pgdir a pa perm k : ℕ) (r r' : Ram) : Type 0 where
  pub hit : (i : ℕ) → i < k → IsEntry (lookup pgdir (a + i * pgsize) r') (pa + i * pgsize) perm
  pub miss :
      (vb : ℕ)
      → ((i : ℕ) → i < k → SamePage (a + i * pgsize) vb → ⊥)
      → lookup pgdir vb r' ≡ lookup pgdir vb r

module _ (pgdir perm : ℕ) where
  -- No page of the range is mapped yet, the range and its frames do not wrap, the frames are aligned and
  -- `perm` is flags.
  pub record IsClear (n a pa : ℕ) (r : Ram) : Type 0 where
    pub fits : a + n * pgsize ≤ 2 ^ 32
    pub frames : pa + n * pgsize ≤ 2 ^ 32
    pub aligned : pa % pgsize ≡ 0
    pub flags : perm < pgsize
    pub clear : (i : ℕ) → i < n → is_present (lookup pgdir (a + i * pgsize) r) ≡ false

  map_page-free :
      (p : Place) (r : Ram) (w : ℕ) (is_last : Bool) (go_on : Ram → Mapping)
      → is_present (load p r) ≡ false
      → map_page (some p, r) w is_last go_on
        ≡ (if is_last then mapped (store p w r) else go_on (store p w r))
  unfolding map_page
  map_page-free p r w true go_on free = rw (free, map_page) refl
  map_page-free p r w false go_on free = rw (free, map_page) refl

  map_loop-fails :
      (fuel a last pa : ℕ) (r : Ram)
      → walkpgdir pgdir a true r ≡ (none, r)
      → map_loop (suc fuel) pgdir a last pa perm r ≡ no_memory r
  unfolding map_loop map_page
  map_loop-fails fuel a last pa r e =
      ap
        (λ o.
          map_page o (make_pte pa perm) (a == last) (λ r1.
            map_loop fuel pgdir ((a + pgsize) % 2 ^ 32) last ((pa + pgsize) % 2 ^ 32) perm r1))
        e

  map_loop-step :
      (fuel a last pa : ℕ) (r r1 : Ram) (p : Place)
      → walkpgdir pgdir a true r ≡ (some p, r1)
      → is_present (load p r1) ≡ false
      → map_loop (suc fuel) pgdir a last pa perm r ≡ (
          if a == last
          then mapped (store p (make_pte pa perm) r1)
          else map_loop fuel pgdir
              ((a + pgsize) % 2 ^ 32)
              last
              ((pa + pgsize) % 2 ^ 32)
              perm
              (store p (make_pte pa perm) r1))
  unfolding map_loop
  map_loop-step fuel a last pa r r1 p e free =
      let go_on : Ram → Mapping =
        λ q. map_loop fuel pgdir ((a + pgsize) % 2 ^ 32) last ((pa + pgsize) % 2 ^ 32) perm q in
      ap (λ o. map_page o (make_pte pa perm) (a == last) go_on) e
      ∙ map_page-free p r1 (make_pte pa perm) (a == last) go_on free

  -- One page is mapped: the others of the range are as clear as before, and so is the map elsewhere.
  module _ (n a pa : ℕ) (r r1 : Ram) (p : Place) (free : List ℕ) (w : IsWalked pgdir a r p r1 free)
      (c : IsClear (suc n) a pa r) where
    abbrev r2 : Ram
    r2 = store p (make_pte pa perm) r1

    r2-IsTree : IsTree pgdir r2 free
    r2-IsTree = store-IsTree pgdir a r1 p w.place (make_pte pa perm) w.tree

    free_entry : is_present (load p r1) ≡ false
    free_entry =
        let e : lookup pgdir (a + 0 * pgsize) r ≡ load p r1 =
          ap (λ v. lookup pgdir v r) (first a)
          ∙ sym (w.same a)
          ∙ sym (load-IsPlace pgdir a r1 p w.place) in
        subst (λ x. is_present x ≡ false) e (c.clear 0 (omega arith))
      where
        first : (v : ℕ) → v + 0 * pgsize ≡ v
        first v = omega arith

    here : lookup pgdir a r2 ≡ make_pte pa perm
    here = lookup-store_same pgdir a r1 p w.place (make_pte pa perm) w.tree

    elsewhere : (vb : ℕ) → (SamePage a vb → ⊥) → lookup pgdir vb r2 ≡ lookup pgdir vb r
    elsewhere vb ne =
        lookup-store_other pgdir a r1 p w.place (make_pte pa perm) vb w.tree ne ∙ w.same vb

    IsClear-next : IsClear n (a + pgsize) (pa + pgsize) r2
    IsClear-next = record {
      fits = omega (arith, c.fits);
      frames = omega (arith, c.frames);
      aligned = omega (arith, c.aligned);
      flags = c.flags;
      clear = λ i lt.
          let e : a + pgsize + i * pgsize ≡ a + suc i * pgsize = omega arith in
          subst (λ v. is_present v ≡ false)
            (sym (
              ap (λ v. lookup pgdir v r2) e
              ∙ elsewhere (a + suc i * pgsize)
                  (SamePage-far a (suc i) (omega arith) (omega (arith, c.fits)))))
            (c.clear (suc i) (omega arith));
    }

    IsMapped-next :
        (k : ℕ) (r' : Ram)
        → k ≤ n
        → IsMapped pgdir (a + pgsize) (pa + pgsize) perm k r2 r'
        → IsMapped pgdir a pa perm (suc k) r r'
    IsMapped-next k r' le m = record { hit = hit; miss = miss }
      where
        shift : (i : ℕ) → a + pgsize + i * pgsize ≡ a + suc i * pgsize
        shift i = omega arith

        start : a ≡ a + 0 * pgsize
        start = omega arith

        hit :
            (i : ℕ) → i < suc k → IsEntry (lookup pgdir (a + i * pgsize) r') (pa + i * pgsize) perm
        hit zero lt =
            let e : pa ≡ pa + 0 * pgsize = omega arith in
            subst (λ v. IsEntry v (pa + 0 * pgsize) perm)
              (sym (
                ap (λ v. lookup pgdir v r') (sym start)
                ∙ m.miss a (λ i h (d, t).
                  SamePage-far a (suc i) (omega arith) (omega (arith, c.fits))
                    (sym d ∙ ap pdx (shift i), sym t ∙ ap ptx (shift i)))
                ∙ here))
              (subst (λ q. IsEntry (make_pte pa perm) q perm) e
                (make_pte-IsEntry pa perm c.aligned c.flags))
        hit (suc i) lt =
            let e : pa + pgsize + i * pgsize ≡ pa + suc i * pgsize = omega arith in
            subst (λ v. IsEntry v (pa + suc i * pgsize) perm)
              (ap (λ v. lookup pgdir v r') (shift i))
              (subst (λ q. IsEntry (lookup pgdir (a + pgsize + i * pgsize) r') q perm) e
                (m.hit i (omega arith)))

        miss :
            (vb : ℕ)
            → ((i : ℕ) → i < suc k → SamePage (a + i * pgsize) vb → ⊥)
            → lookup pgdir vb r' ≡ lookup pgdir vb r
        miss vb out =
            m.miss vb
              (λ i lt sp. out (suc i) (omega arith) (subst (λ v. SamePage v vb) (shift i) sp))
            ∙ elsewhere vb (λ sp. out 0 (omega arith) (subst (λ v. SamePage v vb) start sp))

  IsMapped-none : (a pa : ℕ) (r : Ram) → IsMapped pgdir a pa perm 0 r r
  IsMapped-none a pa r = record { hit = λ i lt. absurd (omega arith); miss = λ vb out. refl }

  -- All of the range is mapped; or no page is free, and a first part is.
  pub data RangeMapped (n a pa : ℕ) (r : Ram) : Mapping → Type 0 where
    all_mapped :
        {r' : Ram} (free : List ℕ)
        → IsTree pgdir r' free
        → IsMapped pgdir a pa perm n r r'
        → RangeMapped n a pa r (mapped r')
    some_mapped :
        {r' : Ram} (k : ℕ)
        → k < n
        → IsTree pgdir r' []
        → IsMapped pgdir a pa perm k r r'
        → RangeMapped n a pa r (no_memory r')

  RangeMapped-next :
      (n a pa : ℕ) (r r1 : Ram) (p : Place) (free : List ℕ) (w : IsWalked pgdir a r p r1 free)
      (c : IsClear (suc n) a pa r) (x : Mapping)
      → RangeMapped n (a + pgsize) (pa + pgsize) (store p (make_pte pa perm) r1) x
      → RangeMapped (suc n) a pa r x
  RangeMapped-next n a pa r r1 p free w c _ (all_mapped {r' = r'} free' t m) =
      all_mapped free' t (IsMapped-next n a pa r r1 p free w c n r' (omega arith) m)
  RangeMapped-next n a pa r r1 p free w c _ (some_mapped {r' = r'} k lt t m) =
      some_mapped (suc k) (omega arith) t
        (IsMapped-next n a pa r r1 p free w c k r' (omega arith) m)

  -- What is left to do after a round: nothing, or the rest of the range.
  map_last :
      (n fuel a pa : ℕ) (r r1 : Ram) (p : Place) (free : List ℕ)
      → IsWalked pgdir a r p r1 free
      → IsClear (suc n) a pa r
      → n ≡ 0
      → RangeMapped (suc n) a pa r (
          if a == a + n * pgsize
          then mapped (store p (make_pte pa perm) r1)
          else map_loop fuel pgdir
              ((a + pgsize) % 2 ^ 32)
              (a + n * pgsize)
              ((pa + pgsize) % 2 ^ 32)
              perm
              (store p (make_pte pa perm) r1))
  map_last n fuel a pa r r1 p free w c last =
      let stop : (a == a + n * pgsize) ≡ true = ground arith in
      rw stop (
        all_mapped free (r2-IsTree n a pa r r1 p free w c) (
          subst (λ k. IsMapped pgdir a pa perm (suc k) r (store p (make_pte pa perm) r1)) (sym last)
            (IsMapped-next n a pa r r1 p free w c 0 _ (omega arith)
              (IsMapped-none (a + pgsize) (pa + pgsize) (store p (make_pte pa perm) r1)))))

  map_more :
      (k n fuel a pa : ℕ) (r r1 : Ram) (p : Place) (free : List ℕ)
      → IsWalked pgdir a r p r1 free
      → IsClear (suc n) a pa r
      → n ≡ suc k
      → RangeMapped (suc k) (a + pgsize) (pa + pgsize) (store p (make_pte pa perm) r1) (
          map_loop fuel pgdir
            (a + pgsize)
            (a + pgsize + k * pgsize)
            (pa + pgsize)
            perm
            (store p (make_pte pa perm) r1))
      → RangeMapped (suc n) a pa r (
          if a == a + n * pgsize
          then mapped (store p (make_pte pa perm) r1)
          else map_loop fuel pgdir
              ((a + pgsize) % 2 ^ 32)
              (a + n * pgsize)
              ((pa + pgsize) % 2 ^ 32)
              perm
              (store p (make_pte pa perm) r1))
  map_more k n fuel a pa r r1 p free w c e m =
      let more : (a == a + n * pgsize) ≡ false = ground arith in
      let ea : (a + pgsize) % 2 ^ 32 ≡ a + pgsize = omega (arith, c.fits) in
      let ep : (pa + pgsize) % 2 ^ 32 ≡ pa + pgsize = omega (arith, c.frames) in
      let el : a + n * pgsize ≡ a + pgsize + k * pgsize = omega arith in
      let r2 = store p (make_pte pa perm) r1 in
      let go : map_loop fuel pgdir ((a + pgsize) % 2 ^ 32) (a + n * pgsize) ((pa + pgsize) % 2 ^ 32)
            perm r2
          ≡ map_loop fuel pgdir (a + pgsize) (a + pgsize + k * pgsize) (pa + pgsize) perm r2 =
        ap (λ q. map_loop fuel pgdir q (a + n * pgsize) ((pa + pgsize) % 2 ^ 32) perm r2) ea
        ∙ ap (λ q. map_loop fuel pgdir (a + pgsize) (a + n * pgsize) q perm r2) ep
        ∙ ap (λ q. map_loop fuel pgdir (a + pgsize) q (pa + pgsize) perm r2) el in
      rw more (
        subst (RangeMapped (suc n) a pa r) (sym go) (
          RangeMapped-next n a pa r r1 p free w c _ (
            subst
              (λ q.
                RangeMapped q (a + pgsize) (pa + pgsize) r2 (
                  map_loop fuel pgdir (a + pgsize) (a + pgsize + k * pgsize) (pa + pgsize) perm r2))
              (sym e) m)))

  map_loop_lem :
      (n fuel a pa : ℕ) (r : Ram) (free : List ℕ)
      → n < fuel
      → IsTree pgdir r free
      → IsClear (suc n) a pa r
      → RangeMapped (suc n) a pa r (map_loop fuel pgdir a (a + n * pgsize) pa perm r)
  map_loop_lem n zero a pa r free lt t c = absurd (omega arith)
  map_loop_lem n (suc fuel) a pa r free lt t c = elim (walk_alloc pgdir a r free t) [
    | inl (empty, e) ↦
        subst (RangeMapped (suc n) a pa r) (sym (map_loop-fails fuel a (a + n * pgsize) pa r e))
          (some_mapped 0 (omega arith) (subst (IsTree pgdir r) empty t) (IsMapped-none a pa r))
    | inr (p, r1, rest, e, w) ↦
        subst (RangeMapped (suc n) a pa r)
          (sym
            (map_loop-step fuel a (a + n * pgsize) pa r r1 p e (free_entry n a pa r r1 p rest w c)))
          (elim (ℕ_discrete n 0) [
            | yes last ↦ map_last n fuel a pa r r1 p rest w c last
            | no more ↦
                let r2 = store p (make_pte pa perm) r1 in
                map_more (n - 1) n fuel a pa r r1 p rest w c (omega arith) (
                  map_loop_lem (n - 1) fuel (a + pgsize) (pa + pgsize) r2 rest (omega arith)
                    (r2-IsTree n a pa r r1 p rest w c)
                    (let k : n ≡ suc (n - 1) = omega arith in
                      subst (λ m. IsClear m (a + pgsize) (pa + pgsize) r2) k
                        (IsClear-next n a pa r r1 p rest w c)))
          ])
  ]

  -- `mappages` of a page-aligned range that is not mapped yet: if the page tables are well formed and
  -- the frames aligned, it maps each page of the range to its frame and changes no other entry; or no page is free for a
  -- page table, and it has mapped a first part of the range. It does not panic, and the loop ends.
  pub mappages_lem :
      (n va pa : ℕ) (r : Ram) (free : List ℕ)
      → va % pgsize ≡ 0
      → IsTree pgdir r free
      → IsClear (suc n) va pa r
      → RangeMapped (suc n) va pa r (mappages pgdir va (suc n * pgsize) pa perm r)
  unfolding mappages
  mappages_lem n va pa r free aligned t c =
      let first : pgrounddown va ≡ va = omega arith in
      let last : pgrounddown ((va + suc n * pgsize + 2 ^ 32 - 1) % 2 ^ 32) ≡ va + n * pgsize =
        omega (arith, c.fits) in
      rw (first, last) (map_loop_lem n (2 ^ 20) va pa r free (omega (arith, c.fits)) t c)
