-- ===== src/Fs/Inode/Room.antt =====
-- Free blocks for `balloc` of fs.c.
use p2b.Prelude.{
  ℕ, suc, ◌<◌, ◌≡◌, ◌≢◌, sym, ◌∙◌, inl, inr, true, false, some, arith, ◌==◌, if◌then◌else◌,
}
use native.Mathlib.Decide.{ℕ_discrete}
use p2b.Fs.{Disk, is_free, balloc}
use p2b.Fs.Bitmap.{IsBitmap, Allocated, balloc_lem}

-- At least `q` blocks are free.
pub record IsRoom (q : ℕ) (d : Disk) : Type 0 where
  pub pick : ℕ → ℕ
  pub below : (i : ℕ) → i < q → pick i < d.sb.size
  pub free : (i : ℕ) → i < q → is_free d (pick i) ≡ true
  pub different : (i j : ℕ) → i < q → j < q → pick i ≡ pick j → i ≡ j

-- An allocation of `b` takes one of them: the last stands in for `b`.
module _ (q : ℕ) (d : Disk) (b : ℕ) (room : IsRoom (suc q) d) where
  stand_in : ℕ → ℕ
  stand_in i = if room.pick i == b then q else i

  stand_in_below : (i : ℕ) → i < q → stand_in i < suc q
  unfolding stand_in
  stand_in_below i lt = ground arith

  stand_in_other : (i : ℕ) → i < q → room.pick (stand_in i) ≢ b
  unfolding stand_in
  stand_in_other i lt e = elim (ℕ_discrete (room.pick i) b) [
    | yes taken ↦
        let eq : (room.pick i == b) ≡ true = ground arith in
        let last : room.pick q ≡ b = rw eq at e in
        let same : i ≡ q = room.different i q (omega arith) (omega arith) (taken ∙ sym last) in
        omega arith
    | no ne ↦ let eq : (room.pick i == b) ≡ false = ground arith in ne (rw eq at e)
  ]

  stand_in_different : (i j : ℕ) → i < q → j < q → stand_in i ≡ stand_in j → i ≡ j
  unfolding stand_in
  stand_in_different i j hi hj e = elim (ℕ_discrete (room.pick i) b) [
    | yes ti ↦ elim (ℕ_discrete (room.pick j) b) [
      | yes tj ↦ room.different i j (omega arith) (omega arith) (ti ∙ sym tj)
      | no nj ↦ absurd (ground arith)
    ]
    | no ni ↦ ground arith
  ]

  pub IsRoom-Allocated : (d' : Disk) → Allocated d b d' → IsRoom q d'
  IsRoom-Allocated d' al = record {
    pick = λ i. room.pick (stand_in i);
    below = λ i lt. rw al.sb (room.below (stand_in i) (stand_in_below i lt));
    free = λ i lt.
        let other : (b == room.pick (stand_in i)) ≡ false = ground (arith, stand_in_other i lt) in
        al.marks (room.pick (stand_in i)) (room.below (stand_in i) (stand_in_below i lt))
        ∙ rw other (room.free (stand_in i) (stand_in_below i lt));
    different = λ i j hi hj e.
        stand_in_different i j hi hj
          (room.different (stand_in i) (stand_in j) (stand_in_below i hi) (stand_in_below j hj) e);
  }

-- With room there is a block to allocate.
pub balloc-IsRoom :
    (d : Disk)
    → IsBitmap d
    → IsRoom 1 d
    → (b : ℕ) × (d' : Disk) × (balloc d ≡ some (b, d')) × Allocated d b d'
balloc-IsRoom d bm room = elim (balloc_lem d bm) [
  | inl (_, full) ↦
      absurd
        (let used = full (room.pick 0) (room.below 0 (omega arith)) in ground (arith, room.free 0))
  | inr found ↦ found
]

pub IsRoom-less : (q : ℕ) (d : Disk) → IsRoom (suc q) d → IsRoom q d
IsRoom-less q d room = record {
  pick = room.pick;
  below = λ i lt. room.below i (omega arith);
  free = λ i lt. room.free i (omega arith);
  different = λ i j hi hj e. room.different i j (omega arith) (omega arith) e;
}
