-- ===== src/Vm/Tree.antt =====
-- Page tables as maps from virtual pages to entries: `walkpgdir` of vm.c.
use p2b.Prelude.{
  ℕ, ◌+◌, ◌%◌, ◌^◌, ◌<◌, ◌≤◌, ◌≡◌, ◌≢◌, refl, sym, ap, ◌∙◌, ◌⊎◌, inl, inr, Bool, true, false, not,
  none, some, List, [], ◌∷◌, arith, if◌then◌else◌, Bool-cases,
}
use mathlib.Core.Path.{subst}
use native.Mathlib.Decide.{ℕ_discrete}
use p2b.Kalloc.{pgsize, Kmem, kalloc}
use p2b.Kalloc.Free.{FreeList, NotIn, kalloc_lem}
use p2b.Vm.{
  kernbase, v2p, p2v, pdx, ptx, is_present, pte_addr, Ram, Place, load, store, zero_page, set_kmem,
  new_table, walkpgdir,
}

-- The entry of a virtual address: 0 if there is no page table for it.
abbrev pub lookup : (pgdir va : ℕ) → Ram → ℕ
lookup pgdir va r =
    if is_present (r.page pgdir (pdx va))
    then r.page (p2v (pte_addr (r.page pgdir (pdx va)))) (ptx va)
    else 0

abbrev pub table_at : (pgdir i : ℕ) → Ram → ℕ
table_at pgdir i r = p2v (pte_addr (r.page pgdir i))

-- Kernel addresses of whole pages.
abbrev pub ArePages : List ℕ → Type 0
ArePages [] = Unit
ArePages (v ∷ vs) = (v % pgsize ≡ 0) × (kernbase ≤ v) × (v < 2 ^ 32) × ArePages vs

-- The page directory and the page tables are different pages, none of them free.
pub record IsTree (pgdir : ℕ) (r : Ram) (free : List ℕ) : Type 0 where
  pub list : FreeList r.kmem free
  pub pages : ArePages free
  pub root : NotIn pgdir free
  pub used : (i : ℕ) → is_present (r.page pgdir i) ≡ true → NotIn (table_at pgdir i r) free
  pub below : (i : ℕ) → is_present (r.page pgdir i) ≡ true → table_at pgdir i r ≢ pgdir
  pub apart :
      (i j : ℕ)
      → is_present (r.page pgdir i) ≡ true
      → is_present (r.page pgdir j) ≡ true
      → i ≢ j
      → table_at pgdir i r ≢ table_at pgdir j r

abbrev pub SamePage : ℕ → ℕ → Type 0
SamePage va vb = (pdx va ≡ pdx vb) × (ptx va ≡ ptx vb)

-- `at` is the place of the entry of `va`: there is a page table for it.
pub record IsPlace (pgdir va : ℕ) (r : Ram) (p : Place) : Type 0 where
  pub there : is_present (r.page pgdir (pdx va)) ≡ true
  pub table : p.table ≡ table_at pgdir (pdx va) r
  pub index : p.index ≡ ptx va

module _ (pgdir va : ℕ) where
  walkpgdir-there :
      (alloc : Bool) (r : Ram)
      → is_present (r.page pgdir (pdx va)) ≡ true
      → walkpgdir pgdir va alloc r
        ≡ (some (record { table = table_at pgdir (pdx va) r; index = ptx va }), r)
  unfolding walkpgdir
  walkpgdir-there alloc r e = rw e refl

  walkpgdir-missing :
      (alloc : Bool) (r : Ram)
      → is_present (r.page pgdir (pdx va)) ≡ false
      → walkpgdir pgdir va alloc r
        ≡ (if not alloc then (none, r) else new_table pgdir va (kalloc r.kmem) r)
  unfolding walkpgdir
  walkpgdir-missing alloc r e = rw e refl

  pub load-IsPlace : (r : Ram) (p : Place) → IsPlace pgdir va r p → load p r ≡ lookup pgdir va r
  load-IsPlace r p w = rw (w.there, w.table, w.index) refl

  -- Writing an entry changes what its page is mapped to, and nothing else of the map.
  module _ (r : Ram) (p : Place) (at : IsPlace pgdir va r p) (w : ℕ) where
    store-root :
        {free : List ℕ}
        → IsTree pgdir r free
        → (i : ℕ) → (store p w r).page pgdir i ≡ r.page pgdir i
    store-root t i = ground (arith, at.table, t.below (pdx va) at.there)

    pub store-IsTree : {free : List ℕ} → IsTree pgdir r free → IsTree pgdir (store p w r) free
    store-IsTree {free} t = record {
      list = t.list;
      pages = t.pages;
      root = t.root;
      used = λ i e.
          subst (λ v. NotIn (p2v (pte_addr v)) free) (sym (store-root t i))
            (t.used i (ground (arith, store-root t i)));
      below = λ i e. ground (arith, store-root t i, t.below i);
      apart = λ i j e f ne. ground (arith, store-root t i, store-root t j, t.apart i j);
    }

    pub lookup-store_same :
        {free : List ℕ} → IsTree pgdir r free → lookup pgdir va (store p w r) ≡ w
    lookup-store_same t = rw (store-root t (pdx va)) (ground (arith, at.there, at.table, at.index))

    pub lookup-store_other :
        {free : List ℕ} (vb : ℕ)
        → IsTree pgdir r free
        → (SamePage va vb → ⊥)
        → lookup pgdir vb (store p w r) ≡ lookup pgdir vb r
    lookup-store_other vb t other = elim (Bool-cases (is_present (r.page pgdir (pdx vb)))) [
      | inl there ↦ elim (ℕ_discrete (pdx va) (pdx vb)) [
        | yes same ↦
            let ne : p.index ≢ ptx vb = λ e. other (same, sym at.index ∙ e) in
            rw (store-root t (pdx vb)) (ground (arith, there))
        | no ne ↦
            let apart = t.apart (pdx va) (pdx vb) at.there there ne in
            rw (store-root t (pdx vb)) (ground (arith, at.table))
      ]
      | inr miss ↦ rw (store-root t (pdx vb)) (ground (arith, miss))
    ]

  -- What a call of `walkpgdir` that may allocate comes to: no page was free, or the place of the
  -- entry, with the map as before.
  pub record IsWalked (r : Ram) (p : Place) (r' : Ram) (free : List ℕ) : Type 0 where
    pub place : IsPlace pgdir va r' p
    pub tree : IsTree pgdir r' free
    pub same : (vb : ℕ) → lookup pgdir vb r' ≡ lookup pgdir vb r

  module _ (r : Ram) (v : ℕ) (k : Kmem) (free : List ℕ)
      (miss : is_present (r.page pgdir (pdx va)) ≡ false) (t : IsTree pgdir r (v ∷ free))
      (nz : v ≢ 0) (out : NotIn v free) (list : FreeList k free) where
    abbrev grown : Ram
    grown =
        store (record { table = pgdir; index = pdx va }) (v2p v + 7) (zero_page v (set_kmem k r))

    new-v : pgdir ≢ v
    new-v = ground (arith, t.root)

    grown-here : grown.page pgdir (pdx va) ≡ v2p v + 7
    grown-here = ground arith

    grown-there : (i : ℕ) → i ≢ pdx va → grown.page pgdir i ≡ r.page pgdir i
    grown-there i ne = ground (arith, new-v)

    grown-present : is_present (grown.page pgdir (pdx va)) ≡ true
    grown-present = ground (arith, t.pages)

    grown-table : table_at pgdir (pdx va) grown ≡ v
    grown-table = ground (arith, t.pages)

    grown-IsTree : IsTree pgdir grown free
    grown-IsTree = record {
      list = list;
      pages = let (_, _, _, rest) = t.pages in rest;
      root = t.root.1;
      used = λ i e. elim (ℕ_discrete i (pdx va)) [
        | yes same ↦
            subst (λ j. NotIn (table_at pgdir j grown) free) (sym same)
              (subst (λ q. NotIn q free) (sym grown-table) out)
        | no ne ↦
            subst (λ w. NotIn (p2v (pte_addr w)) free) (sym (grown-there i ne))
              (t.used i (ground (arith, grown-there i ne))).1
      ];
      below = λ i e. elim (ℕ_discrete i (pdx va)) [
        | yes same ↦
            subst (λ j. table_at pgdir j grown ≢ pgdir) (sym same)
              (λ q. new-v (sym q ∙ grown-table))
        | no ne ↦ ground (arith, grown-there i ne, t.below i)
      ];
      apart = apart;
    }
      where
        old :
            (i : ℕ)
            → i ≢ pdx va
            → is_present (grown.page pgdir i) ≡ true
            → table_at pgdir i grown ≢ v
        old i ne e = ground (arith, grown-there i ne, t.used i)

        apart :
            (i j : ℕ)
            → is_present (grown.page pgdir i) ≡ true
            → is_present (grown.page pgdir j) ≡ true
            → i ≢ j
            → table_at pgdir i grown ≢ table_at pgdir j grown
        apart i j e f ne = elim (ℕ_discrete i (pdx va)) [
          | yes same ↦ λ q.
              old j (λ s. ne (same ∙ sym s)) f
                (sym q ∙ ap (λ m. table_at pgdir m grown) same ∙ grown-table)
          | no ni ↦ elim (ℕ_discrete j (pdx va)) [
            | yes same ↦ λ q. old i ni e (q ∙ ap (λ m. table_at pgdir m grown) same ∙ grown-table)
            | no nj ↦ ground (arith, grown-there i ni, grown-there j nj, t.apart i j)
          ]
        ]

    grown-new : (j : ℕ) → grown.page v j ≡ 0
    grown-new j = ground (arith, new-v)

    grown-far : (q j : ℕ) → q ≢ v → q ≢ pgdir → grown.page q j ≡ r.page q j
    grown-far q j nv np = ground arith

    grown-same : (vb : ℕ) → lookup pgdir vb grown ≡ lookup pgdir vb r
    grown-same vb = elim (ℕ_discrete (pdx vb) (pdx va)) [
      | yes same ↦
          let there : is_present (grown.page pgdir (pdx vb)) ≡ true =
            subst (λ m. is_present (grown.page pgdir m) ≡ true) (sym same) grown-present in
          let missing : is_present (r.page pgdir (pdx vb)) ≡ false =
            subst (λ m. is_present (r.page pgdir m) ≡ false) (sym same) miss in
          let tab : table_at pgdir (pdx vb) grown ≡ v =
            ap (λ m. table_at pgdir m grown) same ∙ grown-table in
          rw (there, missing, tab) (grown-new (ptx vb))
      | no ne ↦ elim (Bool-cases (is_present (r.page pgdir (pdx vb)))) [
        | inl there ↦
            rw (grown-there (pdx vb) ne, there)
              (grown-far (table_at pgdir (pdx vb) r) (ptx vb) (ground (arith, t.used (pdx vb)))
                (t.below (pdx vb) there))
        | inr missing ↦ rw (grown-there (pdx vb) ne, missing) refl
      ]
    ]

    grown-IsWalked : IsWalked r (record { table = v; index = ptx va }) grown free
    grown-IsWalked = record {
      place = record { there = grown-present; table = sym grown-table; index = refl };
      tree = grown-IsTree;
      same = grown-same;
    }

  -- `walkpgdir` without allocation finds the place of the entry just when there is a page table.
  pub walk_found :
      (r : Ram)
      → ((is_present (r.page pgdir (pdx va)) ≡ false) × (walkpgdir pgdir va false r ≡ (none, r)))
        ⊎ ((p : Place) × (walkpgdir pgdir va false r ≡ (some p, r)) × IsPlace pgdir va r p)
  walk_found r = elim (Bool-cases (is_present (r.page pgdir (pdx va)))) [
    | inl there ↦ inr (
      record { table = table_at pgdir (pdx va) r; index = ptx va },
      walkpgdir-there false r there,
      record { there = there; table = refl; index = refl },
    )
    | inr miss ↦ inl (miss, walkpgdir-missing false r miss)
  ]

  new_table-some :
      (v : ℕ) (k : Kmem) (r : Ram)
      → v ≢ 0
      → new_table pgdir va (v, k) r ≡ (
        some (record { table = v; index = ptx va }),
        store (record { table = pgdir; index = pdx va }) (v2p v + 7) (zero_page v (set_kmem k r)),
      )
  unfolding new_table
  new_table-some v k r nz = ground arith

  -- `walkpgdir` with allocation keeps the map from virtual pages to entries, and finds the place of the
  -- entry, with a new page table if there was none; it fails only when no page is free, and then
  -- changes nothing.
  pub walk_alloc :
      (r : Ram) (free : List ℕ)
      → IsTree pgdir r free
      → ((free ≡ []) × (walkpgdir pgdir va true r ≡ (none, r)))
        ⊎ ((p : Place) × (r' : Ram) × (rest : List ℕ) × (walkpgdir pgdir va true r ≡ (some p, r'))
            × IsWalked r p r' rest)
  unfolding new_table
  walk_alloc r free t = elim (Bool-cases (is_present (r.page pgdir (pdx va)))) [
    | inl there ↦ inr (
      record { table = table_at pgdir (pdx va) r; index = ptx va },
      r,
      free,
      walkpgdir-there true r there,
      record {
        place = record { there = there; table = refl; index = refl };
        tree = t;
        same = λ vb. refl;
      },
    )
    | inr miss ↦ elim (kalloc_lem r.kmem free t.list) [
      | inl (empty, e) ↦ inl (empty, walkpgdir-missing true r miss ∙ rw e refl)
      | inr (v, ws, cons, first, nz, out, list) ↦
          let k = (kalloc r.kmem).1 in
          let t' : IsTree pgdir r (v ∷ ws) = subst (IsTree pgdir r) cons t in
          let e : walkpgdir pgdir va true r ≡ new_table pgdir va (v, k) r =
            walkpgdir-missing true r miss ∙ ap (λ u. new_table pgdir va (u, k) r) first in
          inr (
            record { table = v; index = ptx va },
            grown r v k ws miss t' nz out list,
            ws,
            e ∙ new_table-some v k r nz,
            grown-IsWalked r v k ws miss t' nz out list,
          )
    ]
  ]
