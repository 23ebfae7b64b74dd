-- ===== src/Fs/Inode/Blocks.antt =====
-- Which blocks an inode of fs.c refers to.
use p2b.Prelude.{
  ℕ, ◌+◌, ◌/◌, ◌%◌, ◌^◌, ◌<◌, ◌≡◌, ◌≢◌, refl, sym, ap, ◌∙◌, true, false, arith, ◌==◌, if◌then◌else◌,
}
use mathlib.Core.Path.{subst}
use native.Mathlib.Decide.{ℕ_discrete}
use p2b.Fs.{bsize, Disk, bitmap_block, is_free}
use p2b.Fs.Bitmap.{IsBitmap, Allocated}
use p2b.Fs.Inode.{ndirect, max_file, Inode, inode_block}
use p2b.Fs.Inode.Read.{block_at, file_byte}

-- A block in use that is none of the bitmap's own.
pub record IsOwn (d : Disk) (b : ℕ) : Type 0 where
  pub below : b < d.sb.size
  pub used : is_free d b ≡ false
  pub off_bitmap : (c : ℕ) → c < d.sb.size → bitmap_block d c ≢ b

-- The blocks of a file, its table of indirect blocks at 140, and the block of the inode at 141.
abbrev pub ref_at : (j : ℕ) → Inode → Disk → ℕ
ref_at j ip d =
    if j == 141
    then inode_block d ip.inum
    else if j == max_file
    then ip.addrs ndirect
    else block_at j ip d

-- An inode refers to different blocks, in use. Block 0 is never free.
pub record IsFile (ip : Inode) (d : Disk) : Type 0 where
  pub bitmap : IsBitmap d
  pub origin : is_free d 0 ≡ false
  pub nonempty : 0 < d.sb.size
  pub fits : d.sb.size < 2 ^ 32
  pub home : inode_block d ip.inum ≢ 0
  pub refs : (j : ℕ) → j < 142 → ref_at j ip d ≢ 0 → IsOwn d (ref_at j ip d)
  pub apart :
      (i j : ℕ) → i < 142 → j < 142 → ref_at i ip d ≢ 0 → ref_at i ip d ≡ ref_at j ip d → i ≡ j

-- Block `b` has gone into use, and the blocks in use have stayed so.
pub record IsFresh (d : Disk) (b : ℕ) (d' : Disk) : Type 0 where
  pub bitmap : IsBitmap d'
  pub sb : d'.sb ≡ d.sb
  pub positive : b ≢ 0
  pub own : IsOwn d' b
  pub keeps : (c : ℕ) → IsOwn d c → IsOwn d' c
  pub new : (c : ℕ) → IsOwn d c → c ≢ b
  pub origin : is_free d' 0 ≡ false

module _ (d : Disk) (b : ℕ) (d' : Disk) (bm : IsBitmap d) (origin : is_free d 0 ≡ false)
    (nonempty : 0 < d.sb.size) (al : Allocated d b d') where
  same_map : (c : ℕ) → bitmap_block d' c ≡ bitmap_block d c
  same_map c = ap (λ s. c / 4096 + s.bmapstart) al.sb

  same_size : d'.sb.size ≡ d.sb.size
  same_size = ap (λ s. s.size) al.sb

  off_bitmap : (c : ℕ) → c < d.sb.size → bitmap_block d c ≢ b
  off_bitmap c lt e =
      let used : is_free d b ≡ false = subst (λ q. is_free d q ≡ false) e (bm.in_use c lt) in
      ground (arith, al.was_free)

  new-b : (c : ℕ) → is_free d c ≡ false → c ≢ b
  new-b c used e =
      let free : is_free d c ≡ true = subst (λ q. is_free d q ≡ true) (sym e) al.was_free in
      ground arith

  still_used : (c : ℕ) → c < d.sb.size → is_free d c ≡ false → is_free d' c ≡ false
  still_used c lt used =
      let other : (b == c) ≡ false = ground (arith, new-b c used) in al.marks c lt ∙ rw other used

  pub Allocated-IsFresh : IsFresh d b d'
  Allocated-IsFresh = record {
    bitmap = al.bitmap;
    sb = al.sb;
    positive = λ e. new-b 0 origin (sym e);
    own = record {
      below = rw same_size al.below;
      used = al.marks b al.below ∙ (let eq : (b == b) ≡ true = ground arith in rw eq refl);
      off_bitmap = λ c lt e. off_bitmap c (subst (λ n. c < n) same_size lt) (sym (same_map c) ∙ e);
    };
    keeps = λ c o. record {
      below = rw same_size o.below;
      used = still_used c o.below o.used;
      off_bitmap =
          λ e lt q. o.off_bitmap e (subst (λ n. e < n) same_size lt) (sym (same_map e) ∙ q);
    };
    new = λ c o. new-b c o.used;
    origin = still_used 0 nonempty origin;
  }

pub ref_at-block : (j : ℕ) (ip : Inode) (d : Disk) → j < max_file → ref_at j ip d ≡ block_at j ip d
ref_at-block j ip d lt =
    let not_home : (j == 141) ≡ false = ground arith in
    let not_table : (j == max_file) ≡ false = ground arith in rw (not_home, not_table) refl

-- Byte `i` of block `r`, or of none.
abbrev pub byte_in : (r : ℕ) (d : Disk) (i : ℕ) → ℕ
byte_in r d i = if r == 0 then 0 else d.bytes r i

-- The references of an inode when one of them, which was 0, has become `b`.
abbrev pub IsRefAdded : (x b : ℕ) (ip : Inode) (d : Disk) (ip' : Inode) (d' : Disk) → Type 0
IsRefAdded x b ip d ip' d' =
    (j : ℕ) → j < 142 → ref_at j ip' d' ≡ (if j == x then b else ref_at j ip d)

module _ (ip : Inode) (d : Disk) (file : IsFile ip d) (x b : ℕ) (ip' : Inode) (d' : Disk)
    (fresh : IsFresh d b d') (added : IsRefAdded x b ip d ip' d') (empty : ref_at x ip d ≡ 0) where
  ref_new : (j : ℕ) → j < 142 → j ≡ x → ref_at j ip' d' ≡ b
  ref_new j lt e = let eq : (j == x) ≡ true = ground arith in added j lt ∙ rw eq refl

  ref_old : (j : ℕ) → j < 142 → j ≢ x → ref_at j ip' d' ≡ ref_at j ip d
  ref_old j lt ne = let eq : (j == x) ≡ false = ground arith in added j lt ∙ rw eq refl

  refs-added : (j : ℕ) → j < 142 → ref_at j ip' d' ≢ 0 → IsOwn d' (ref_at j ip' d')
  refs-added j lt nz = elim (ℕ_discrete j x) [
    | yes e ↦ subst (IsOwn d') (sym (ref_new j lt e)) fresh.own
    | no ne ↦
        subst (IsOwn d') (sym (ref_old j lt ne))
          (fresh.keeps (ref_at j ip d) (file.refs j lt (λ z. nz (ref_old j lt ne ∙ z))))
  ]

  not_b : (j : ℕ) → j < 142 → j ≢ x → ref_at j ip' d' ≢ 0 → ref_at j ip' d' ≢ b
  not_b j lt ne nz e =
      fresh.new (ref_at j ip d) (file.refs j lt (λ z. nz (ref_old j lt ne ∙ z)))
        (sym (ref_old j lt ne) ∙ e)

  apart-added :
      (i j : ℕ)
      → i < 142
      → j < 142
      → ref_at i ip' d' ≢ 0
      → ref_at i ip' d' ≡ ref_at j ip' d'
      → i ≡ j
  apart-added i j hi hj nz e = elim (ℕ_discrete i x) [
    | yes ix ↦ elim (ℕ_discrete j x) [
      | yes jx ↦ ix ∙ sym jx
      | no jn ↦ absurd (not_b j hj jn (λ z. nz (e ∙ z)) (sym e ∙ ref_new i hi ix))
    ]
    | no inn ↦ elim (ℕ_discrete j x) [
      | yes jx ↦ absurd (not_b i hi inn nz (e ∙ ref_new j hj jx))
      | no jn ↦
          file.apart i j hi hj (λ z. nz (ref_old i hi inn ∙ z))
            (sym (ref_old i hi inn) ∙ e ∙ ref_old j hj jn)
    ]
  ]

  home-added : x ≢ 141 → ref_at 141 ip' d' ≢ 0
  home-added ne z = file.home (sym (ref_old 141 (omega arith) (λ e. ne (sym e))) ∙ z)

  pub IsFile-added : x ≢ 141 → IsFile ip' d'
  IsFile-added ne = record {
    bitmap = fresh.bitmap;
    origin = fresh.origin;
    nonempty = subst (λ s. 0 < s.size) (sym fresh.sb) file.nonempty;
    fits = subst (λ s. s.size < 2 ^ 32) (sym fresh.sb) file.fits;
    home = home-added ne;
    refs = refs-added;
    apart = apart-added;
  }

  -- A new block of 0 bytes in place of none leaves the bytes of the file as they were.
  pub bytes-added :
      (x < max_file → (i : ℕ) → d'.bytes b i ≡ 0)
      → ((c i : ℕ) → IsOwn d c → c ≢ ip.addrs ndirect → d'.bytes c i ≡ d.bytes c i)
      → (k : ℕ) → k / bsize < max_file
      → file_byte k ip' d' ≡ file_byte k ip d
  bytes-added zeros keep k lt = elim (ℕ_discrete (k / bsize) x) [
    | yes e ↦
        let old : block_at (k / bsize) ip d ≡ 0 =
          sym (ref_at-block (k / bsize) ip d lt) ∙ ap (λ j. ref_at j ip d) e ∙ empty in
        let now : block_at (k / bsize) ip' d' ≡ b =
          sym (ref_at-block (k / bsize) ip' d' lt) ∙ ref_new (k / bsize) (omega arith) e in
        let there : (b == 0) ≡ false = ground (arith, fresh.positive) in
        ap (λ r. byte_in r d' (k % bsize)) now
        ∙ rw there (zeros (omega arith) (k % bsize))
        ∙ sym (ap (λ r. byte_in r d (k % bsize)) old)
    | no ne ↦
        let same : block_at (k / bsize) ip' d' ≡ block_at (k / bsize) ip d =
          sym (ref_at-block (k / bsize) ip' d' lt)
          ∙ ref_old (k / bsize) (omega arith) ne
          ∙ ref_at-block (k / bsize) ip d lt in
        ap (λ r. byte_in r d' (k % bsize)) same ∙ kept (ℕ_discrete (block_at (k / bsize) ip d) 0)
  ]
    where
      not_table : block_at (k / bsize) ip d ≢ 0 → block_at (k / bsize) ip d ≢ ip.addrs ndirect
      not_table nz e =
          let is_ref = ref_at-block (k / bsize) ip d lt in
          let i : k / bsize ≡ max_file =
            file.apart (k / bsize) max_file (omega arith) (omega arith) (λ z. nz (sym is_ref ∙ z))
              (is_ref ∙ e) in
          omega arith

      kept :
          Dec (block_at (k / bsize) ip d ≡ 0)
          → byte_in (block_at (k / bsize) ip d) d' (k % bsize)
            ≡ byte_in (block_at (k / bsize) ip d) d (k % bsize)
      kept (yes none_there) =
          ap (λ r. byte_in r d' (k % bsize)) none_there
          ∙ sym (ap (λ r. byte_in r d (k % bsize)) none_there)
      kept (no nz) =
          let there : (block_at (k / bsize) ip d == 0) ≡ false = ground arith in
          let is_ref = ref_at-block (k / bsize) ip d lt in
          let own =
            subst (IsOwn d) is_ref
              (file.refs (k / bsize) (omega arith) (λ z. nz (sym is_ref ∙ z))) in
          rw there (keep (block_at (k / bsize) ip d) (k % bsize) own (λ e. not_table nz e))
