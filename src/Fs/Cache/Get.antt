-- ===== src/Fs/Cache/Get.antt =====
-- `iget` of fs.c: at most one entry of the table for each inode.
use p2b.Prelude.{
  update_here, update_other, ℕ, zero, suc, ◌+◌, ◌-◌, ◌*◌, ◌%◌, ◌^◌, ◌<◌, ◌≤◌, ◌≡◌, ◌≢◌, refl, sym,
  ap, ◌∙◌, ◌⊎◌, inl, inr, Bool, true, false, not, ◌&&◌, Option, none, some, arith, ◌==◌, ltb,
  if◌then◌else◌, update, find_first, find_first-some, find_first-none, IsFirst, Option-cases,
  Bool-cases,
}
use mathlib.Core.Path.{subst}
use native.Mathlib.Decide.{ℕ_discrete}
use p2b.Fs.Inode.{Inode}
use p2b.Fs.Cache.{ninode, Icache, holds, is_empty, remember, look_for, take_entry, iget}

-- No two entries in use are for one inode.
abbrev pub IsCache : Icache → Type 0
IsCache c =
    (i j inum : ℕ)
    → i < ninode
    → j < ninode
    → holds inum (c i) ≡ true
    → holds inum (c j) ≡ true
    → i ≡ j

or_else : Option ℕ → Option ℕ → Option ℕ
or_else none e = e
or_else (some k) e = some k

outcome : Option ℕ → Option ℕ → ℕ ⊎ Option ℕ
outcome (some k) e = inl k
outcome none e = inr e

-- The loop finds the first entry of the inode, or else the first empty slot.
look_for_lem :
    (n i : ℕ) (empty : Option ℕ) (inum : ℕ) (c : Icache)
    → look_for n i empty inum c
      ≡ outcome (find_first (holds inum) n i c) (or_else empty (find_first is_empty n i c))
unfolding look_for remember or_else outcome p2b.Prelude.find_first
look_for_lem zero i none inum c = refl
look_for_lem zero i (some e) inum c = refl
look_for_lem (suc n) i none inum c = elim (Bool-cases (holds inum (c i))) [
  | inl held ↦ rw held refl
  | inr other ↦ elim (Bool-cases (is_empty (c i))) [
    | inl free ↦ rw (other, free) (look_for_lem n (i + 1) (some i) inum c)
    | inr used ↦ rw (other, used) (look_for_lem n (i + 1) none inum c)
  ]
]
look_for_lem (suc n) i (some e) inum c = elim (Bool-cases (holds inum (c i))) [
  | inl held ↦ rw held refl
  | inr other ↦ rw other (look_for_lem n (i + 1) (some e) inum c)
]

holds-inum : (num : ℕ) (ip : Inode) → holds num ip ≡ true → ip.inum ≡ num
holds-inum num ip h = ground arith

holds-more :
    (inum : ℕ) (ip : Inode)
    → holds inum ip ≡ true
    → ip.ref + 1 < 2 ^ 31
    → holds inum (record ip { ref = (ip.ref + 1) % 2 ^ 32 }) ≡ true
holds-more inum ip h lt =
    let exact : (ip.ref + 1) % 2 ^ 32 ≡ ip.ref + 1 = omega arith in ground arith

-- Entry `i` is for inode `inum` now, and no other is.
module _ (c : Icache) (valid : IsCache c) (inum i : ℕ) (e : Inode) (is_inum : e.inum ≡ inum)
    (alone : (j : ℕ) → j < ninode → j ≢ i → holds inum (c j) ≡ false) where
  at_i : (j : ℕ) → j ≡ i → update c i e j ≡ e
  at_i j eq = let hit : (i == j) ≡ true = ground arith in rw hit refl

  off_i : (j : ℕ) → j ≢ i → update c i e j ≡ c j
  off_i j ne = let miss : (i == j) ≡ false = ground arith in rw miss refl

  not_both :
      (j k num : ℕ)
      → j ≡ i
      → k ≢ i
      → k < ninode
      → holds num (update c i e j) ≡ true
      → holds num (update c i e k) ≡ true
      → ⊥
  not_both j k num eq ne lt hj hk =
      let same : e.inum ≡ num =
        holds-inum num e (subst (λ ip. holds num ip ≡ true) (at_i j eq) hj) in
      let other : holds num (c k) ≡ true = subst (λ ip. holds num ip ≡ true) (off_i k ne) hk in
      let clash : holds inum (c k) ≡ true =
        subst (λ n. holds n (c k) ≡ true) (sym same ∙ is_inum) other in
      ground (arith, alone k lt ne)

  IsCache-update : IsCache (update c i e)
  IsCache-update j k num hj hk pj pk = elim (ℕ_discrete j i) [
    | yes ej ↦ elim (ℕ_discrete k i) [
      | yes ek ↦ ej ∙ sym ek
      | no nk ↦ absurd (not_both j k num ej nk hk pj pk)
    ]
    | no nj ↦ elim (ℕ_discrete k i) [
      | yes ek ↦ absurd (not_both k j num ek nj hj pk pj)
      | no nk ↦
          valid j k num hj hk (subst (λ ip. holds num ip ≡ true) (off_i j nj) pj)
            (subst (λ ip. holds num ip ≡ true) (off_i k nk) pk)
    ]
  ]

-- Entry `i` has one reference more, or is a new one for an inode that had none.
pub record IsGot (inum : ℕ) (c : Icache) (i : ℕ) (c' : Icache) : Type 0 where
  pub below : i < ninode
  pub entry : holds inum (c' i) ≡ true
  pub others : (j : ℕ) → j ≢ i → c' j ≡ c j
  pub cache : IsCache c'
  pub how :
      ((holds inum (c i) ≡ true) × (c' i ≡ record (c i) { ref = (c i).ref + 1 }))
      ⊎ (((j : ℕ) → j < ninode → holds inum (c j) ≡ false)
          × (is_empty (c i) ≡ true)
          × (c' i ≡ record (c i) { inum = inum; ref = 1; valid = false }))

-- Let no two entries in use be for one inode, and no count of references be about to pass 2 ^ 31. Then
-- `iget` panics just when no entry is for the inode and none is empty. Else it returns an entry for the
-- inode: the one that there was, with a reference more, or an empty one, with one reference and not
-- read from the disk yet. No other entry changes, and there still are no two for one inode.
pub iget_lem :
    (inum : ℕ) (c : Icache)
    → IsCache c
    → ((i : ℕ) → i < ninode → (c i).ref + 1 < 2 ^ 31)
    → ((iget inum c ≡ none)
        × ((j : ℕ) → j < ninode → (holds inum (c j) ≡ false) × (is_empty (c j) ≡ false)))
      ⊎ ((i : ℕ) × (c' : Icache) × (iget inum c ≡ some (i, c')) × IsGot inum c i c')
unfolding iget take_entry or_else outcome
iget_lem inum c valid bound = elim (Option-cases (find_first (holds inum) ninode 0 c)) [
  | inr (i, hit) ↦
      let first = find_first-some (holds inum) ninode 0 c i hit in
      let lt : i < ninode = omega (arith, first.upper) in
      let e : Inode = record (c i) { ref = ((c i).ref + 1) % 2 ^ 32 } in
      let exact : ((c i).ref + 1) % 2 ^ 32 ≡ (c i).ref + 1 = omega (arith, bound i lt) in
      inr (
        i,
        update c i e,
        ap (take_entry inum c) (look_for_lem ninode 0 none inum c)
            ∙ rw (hit, outcome, take_entry) refl,
        record {
          below = lt;
          entry =
              subst (λ ip. holds inum ip ≡ true) (sym (update_here c i e))
                (holds-more inum (c i) first.passes (bound i lt));
          others = update_other c i e;
          cache = IsCache-update c valid inum i e (holds-inum inum (c i) first.passes) (λ j hj ne.
              elim (Bool-cases (holds inum (c j))) [
                | inl h ↦ absurd (ne (valid j i inum hj lt h first.passes))
                | inr free ↦ free
              ]);
          how = inl (first.passes, update_here c i e ∙ ap (λ n. record (c i) { ref = n }) exact);
        },
      )
  | inl miss ↦ elim (Option-cases (find_first is_empty ninode 0 c)) [
    | inl full ↦ inl (
      ap (take_entry inum c) (look_for_lem ninode 0 none inum c)
          ∙ rw (miss, full, or_else, outcome, take_entry) refl,
      λ j lt. (
        find_first-none (holds inum) ninode 0 c miss j (omega arith) (omega arith),
        find_first-none is_empty ninode 0 c full j (omega arith) (omega arith),
      ),
    )
    | inr (i, free) ↦
        let first = find_first-some is_empty ninode 0 c i free in
        let lt : i < ninode = omega (arith, first.upper) in
        let e : Inode = record (c i) { inum = inum; ref = 1; valid = false } in
        let nobody : (j : ℕ) → j < ninode → holds inum (c j) ≡ false =
          λ j lt. find_first-none (holds inum) ninode 0 c miss j (omega arith) (omega arith) in
        inr (
          i,
          update c i e,
          ap (take_entry inum c) (look_for_lem ninode 0 none inum c)
              ∙ rw (miss, free, or_else, outcome, take_entry) refl,
          record {
            below = lt;
            entry = subst (λ ip. holds inum ip ≡ true) (sym (update_here c i e)) (ground arith);
            others = update_other c i e;
            cache = IsCache-update c valid inum i e refl (λ j hj ne. nobody j hj);
            how = inr (nobody, first.passes, update_here c i e);
          },
        )
  ]
]
