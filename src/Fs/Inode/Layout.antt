-- ===== src/Fs/Inode/Layout.antt =====
-- How fs.c lays an inode out in its block: `iupdate` and `ilock`.
use p2b.Prelude.{
  ◌≢◌, sym, ap, ◌∙◌, ◌⊎◌, inl, inr, ◌≤◌, ℕ, ◌+◌, ◌-◌, ◌*◌, ◌/◌, ◌%◌, ◌^◌, ◌<◌, ◌≡◌, refl, true,
  false, arith, ◌==◌, ltb, leb,
}
use mathlib.Core.Path.{subst}
use native.Mathlib.Decide.{ℕ_discrete, dec_lt}
use p2b.Fs.{Disk}
use p2b.Fs.Inode.{
  Inode, byte_of, get_short, get_word, put_dinode, inode_offset, inode_block, iupdate, read_dinode,
}

-- The fields fit in their bytes.
pub record FitsDisk (ip : Inode) : Type 0 where
  pub itype : ip.itype < 2 ^ 16
  pub major : ip.major < 2 ^ 16
  pub minor : ip.minor < 2 ^ 16
  pub nlink : ip.nlink < 2 ^ 16
  pub size : ip.size < 2 ^ 32
  pub addrs : (i : ℕ) → ip.addrs i < 2 ^ 32

-- The two inodes agree in what is on the disk.
pub record SameDinode (ip iq : Inode) : Type 0 where
  pub itype : ip.itype ≡ iq.itype
  pub major : ip.major ≡ iq.major
  pub minor : ip.minor ≡ iq.minor
  pub nlink : ip.nlink ≡ iq.nlink
  pub size : ip.size ≡ iq.size
  pub addrs : (i : ℕ) → i < 13 → ip.addrs i ≡ iq.addrs i

pub word_at :
    (g : ℕ → ℕ) (at v : ℕ)
    → v < 2 ^ 32
    → g (at + 0) ≡ byte_of v 0
    → g (at + 1) ≡ byte_of v 1
    → g (at + 2) ≡ byte_of v 2
    → g (at + 3) ≡ byte_of v 3
    → get_word g at ≡ v
word_at g at v lt b0 b1 b2 b3 =
    let first : at + 0 ≡ at = omega arith in
    let b0' : g at ≡ byte_of v 0 = subst (λ k. g k ≡ byte_of v 0) first b0 in omega arith

module _ (at : ℕ) (ip : Inode) (b : ℕ → ℕ) (f : FitsDisk ip) where
  itype_lem : get_short (put_dinode at ip b) at ≡ ip.itype
  itype_lem = ground (arith, f.itype)

  major_lem : get_short (put_dinode at ip b) (at + 2) ≡ ip.major
  major_lem = ground (arith, f.major)

  minor_lem : get_short (put_dinode at ip b) (at + 4) ≡ ip.minor
  minor_lem = ground (arith, f.minor)

  nlink_lem : get_short (put_dinode at ip b) (at + 6) ≡ ip.nlink
  nlink_lem = ground (arith, f.nlink)

  size_lem : get_word (put_dinode at ip b) (at + 8) ≡ ip.size
  size_lem =
      word_at (put_dinode at ip b) (at + 8) ip.size f.size (size_byte 0 (omega arith))
        (size_byte 1 (omega arith)) (size_byte 2 (omega arith)) (size_byte 3 (omega arith))
    where
      size_byte : (j : ℕ) → j < 4 → put_dinode at ip b (at + 8 + j) ≡ byte_of ip.size j
      size_byte j small =
          let at_j : at + 8 + j - (at + 8) ≡ j = omega arith in
          let low : leb (at + 8) (at + 8 + j) ≡ true = ground arith in
          let high : ltb (at + 8 + j) (at + 8 + 4) ≡ true = ground arith in
          let under : leb (at + 12) (at + 8 + j) ≡ false = ground arith in
          rw (under, low, high, at_j) refl

  -- Byte `j` of address `i`.
  addr_byte :
      (i j : ℕ) → i < 13 → j < 4 → put_dinode at ip b (at + 12 + 4 * i + j) ≡ byte_of (ip.addrs i) j
  addr_byte i j lt small =
      let at_i : (at + 12 + 4 * i + j - (at + 12)) / 4 ≡ i = omega arith in
      let at_j : (at + 12 + 4 * i + j - (at + 12)) % 4 ≡ j = omega arith in
      let low : leb (at + 12) (at + 12 + 4 * i + j) ≡ true = ground arith in
      let high : ltb (at + 12 + 4 * i + j) (at + 12 + 52) ≡ true = ground arith in
      rw (low, high, at_i, at_j) refl

  addrs_lem : (i : ℕ) → i < 13 → get_word (put_dinode at ip b) (at + 12 + 4 * i) ≡ ip.addrs i
  addrs_lem i lt =
      word_at (put_dinode at ip b) (at + 12 + 4 * i) (ip.addrs i) (f.addrs i)
        (addr_byte i 0 lt (omega arith)) (addr_byte i 1 lt (omega arith))
        (addr_byte i 2 lt (omega arith)) (addr_byte i 3 lt (omega arith))

put_dinode-outside :
    (at : ℕ) (ip : Inode) (b : ℕ → ℕ) (k : ℕ)
    → (k < at) ⊎ (at + 64 ≤ k)
    → put_dinode at ip b k ≡ b k
put_dinode-outside at ip b k (inl below) = ground arith
put_dinode-outside at ip b k (inr above) = ground arith

-- The block of an inode after `iupdate` of it.
written :
    (ip : Inode) (d : Disk)
    → (iupdate ip d).bytes (inode_block d ip.inum)
      ≡ put_dinode (inode_offset ip.inum) ip (d.bytes (inode_block d ip.inum))
unfolding iupdate
written ip d = ground arith

own_dinode :
    (ip iq : Inode) (d : Disk)
    → FitsDisk ip
    → SameDinode (read_dinode (record iq { inum = ip.inum }) (iupdate ip d)) ip
unfolding read_dinode iupdate
own_dinode ip iq d f = rw (written ip d) (record {
  itype = itype_lem (inode_offset ip.inum) ip (d.bytes (inode_block d ip.inum)) f;
  major = major_lem (inode_offset ip.inum) ip (d.bytes (inode_block d ip.inum)) f;
  minor = minor_lem (inode_offset ip.inum) ip (d.bytes (inode_block d ip.inum)) f;
  nlink = nlink_lem (inode_offset ip.inum) ip (d.bytes (inode_block d ip.inum)) f;
  size = size_lem (inode_offset ip.inum) ip (d.bytes (inode_block d ip.inum)) f;
  addrs = addrs_lem (inode_offset ip.inum) ip (d.bytes (inode_block d ip.inum)) f;
})

elsewhere :
    (ip iq : Inode) (d : Disk)
    → iq.inum ≢ ip.inum
    → (k : ℕ) → k < 64
    → (iupdate ip d).bytes (inode_block d iq.inum) (inode_offset iq.inum + k)
      ≡ d.bytes (inode_block d iq.inum) (inode_offset iq.inum + k)
unfolding iupdate
elsewhere ip iq d ne k lt = elim (ℕ_discrete (inode_block d ip.inum) (inode_block d iq.inum)) [
  | yes same ↦ rw (written_at same) (
      put_dinode-outside (inode_offset ip.inum) ip (d.bytes (inode_block d ip.inum))
        (inode_offset iq.inum + k) (apart same)
      ∙ ap (λ c. d.bytes c (inode_offset iq.inum + k)) same)
  | no other ↦ ground arith
]
  where
    written_at :
        inode_block d ip.inum ≡ inode_block d iq.inum
        → (inode_block d ip.inum == inode_block d iq.inum) ≡ true
    written_at same = ground arith

    apart :
        inode_block d ip.inum ≡ inode_block d iq.inum
        → (inode_offset iq.inum + k < inode_offset ip.inum)
          ⊎ (inode_offset ip.inum + 64 ≤ inode_offset iq.inum + k)
    apart same = elim (dec_lt (inode_offset iq.inum + k) (inode_offset ip.inum)) [
      | yes below ↦ inl below
      | no above ↦ inr (omega arith)
    ]

-- Blocks that agree in the 64 bytes of an inode hold the same numbers there.
module _ (at : ℕ) (g h : ℕ → ℕ) (same : (k : ℕ) → k < 64 → g (at + k) ≡ h (at + k)) where
  pick : (i : ℕ) → at ≤ i → i < at + 64 → g i ≡ h i
  pick i low high =
      let e : at + (i - at) ≡ i = omega arith in
      subst (λ k. g k ≡ h k) e (same (i - at) (omega arith))

  same_short : (i : ℕ) → at ≤ i → i + 2 ≤ at + 64 → get_short g i ≡ get_short h i
  same_short i low high =
      rw (pick i low (omega arith), pick (i + 1) (omega arith) (omega arith)) refl

  same_word : (i : ℕ) → at ≤ i → i + 4 ≤ at + 64 → get_word g i ≡ get_word h i
  same_word i low high =
      rw
        (
          pick i low (omega arith),
          pick (i + 1) (omega arith) (omega arith),
          pick (i + 2) (omega arith) (omega arith),
          pick (i + 3) (omega arith) (omega arith),
        )
        refl

other_dinode :
    (ip iq : Inode) (d : Disk)
    → iq.inum ≢ ip.inum
    → SameDinode (read_dinode iq (iupdate ip d)) (read_dinode iq d)
unfolding read_dinode iupdate
other_dinode ip iq d ne = record {
  itype = short (inode_offset iq.inum) (omega arith) (omega arith);
  major = short (inode_offset iq.inum + 2) (omega arith) (omega arith);
  minor = short (inode_offset iq.inum + 4) (omega arith) (omega arith);
  nlink = short (inode_offset iq.inum + 6) (omega arith) (omega arith);
  size = word (inode_offset iq.inum + 8) (omega arith) (omega arith);
  addrs = λ i lt. word (inode_offset iq.inum + 12 + 4 * i) (omega arith) (omega arith);
}
  where
    short :
        (i : ℕ)
        → inode_offset iq.inum ≤ i
        → i + 2 ≤ inode_offset iq.inum + 64
        → get_short ((iupdate ip d).bytes (inode_block d iq.inum)) i
          ≡ get_short (d.bytes (inode_block d iq.inum)) i
    short i low high =
        same_short (inode_offset iq.inum) ((iupdate ip d).bytes (inode_block d iq.inum))
          (d.bytes (inode_block d iq.inum)) (elsewhere ip iq d ne) i low high

    word :
        (i : ℕ)
        → inode_offset iq.inum ≤ i
        → i + 4 ≤ inode_offset iq.inum + 64
        → get_word ((iupdate ip d).bytes (inode_block d iq.inum)) i
          ≡ get_word (d.bytes (inode_block d iq.inum)) i
    word i low high =
        same_word (inode_offset iq.inum) ((iupdate ip d).bytes (inode_block d iq.inum))
          (d.bytes (inode_block d iq.inum)) (elsewhere ip iq d ne) i low high

-- Let the fields of `ip` fit. After `iupdate` of it, what `ilock` reads for an inode of that number is
-- what `ip` has, and for any other number what it read before.
pub read_dinode-iupdate :
    (ip iq : Inode) (d : Disk)
    → FitsDisk ip
    → ((iq.inum ≡ ip.inum) × SameDinode (read_dinode iq (iupdate ip d)) ip)
      ⊎ ((iq.inum ≢ ip.inum) × SameDinode (read_dinode iq (iupdate ip d)) (read_dinode iq d))
unfolding read_dinode iupdate
read_dinode-iupdate ip iq d f = elim (ℕ_discrete iq.inum ip.inum) [
  | yes same ↦ inl (
    same,
    subst (λ n. SameDinode (read_dinode (record iq { inum = n }) (iupdate ip d)) ip) (sym same)
        (own_dinode ip iq d f),
  )
  | no other ↦ inr (other, other_dinode ip iq d other)
]
