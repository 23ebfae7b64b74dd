-- ===== src/Tests/FileSystem.antt =====
-- The theorems on the file system, for a disk of four blocks.
use p2b.Prelude.{
  sym, ◌∙◌, zero, suc, inl, inr, ◌/◌, ◌≤◌, ◌+◌, ℕ, ◌<◌, ◌≡◌, ◌≢◌, refl, ◌⊎◌, true, false, none,
  some, arith, ◌==◌, if◌then◌else◌,
}
use p2b.Fs.{Disk, bitmap_block, is_free, balloc, bfree}
use p2b.Fs.Inode.{Inode, Access, Device, minus_one, readi, writei, bmap, read_dinode, iupdate}
use p2b.Fs.Inode.Layout.{FitsDisk, SameDinode, read_dinode-iupdate}
use p2b.Fs.Inode.Read.{HasBytes, IsRead, readi_lem}
use p2b.Fs.Inode.Blocks.{IsOwn, IsFile, ref_at}
use p2b.Fs.Inode.Room.{IsRoom}
use p2b.Fs.Inode.Bmap.{Finds, bmap_lem}
use p2b.Fs.Inode.Grow.{IsStored}
use p2b.Fs.Inode.Writei.{writei_lem}
use p2b.Fs.Cache.{Icache, holds, is_empty, iget, itrunc}
use p2b.Fs.Cache.Itrunc.{IsTruncated, itrunc_lem}
use p2b.Fs.Cache.Get.{IsCache, IsGot, iget_lem}
use p2b.Fs.Bitmap.{IsBitmap, Allocated, Freed, balloc_lem, bfree_lem}

-- Block 0 is the bitmap, and block 2 is in use.
abbrev four_blocks : Disk
four_blocks = record {
  sb = record {
    size = 4;
    nblocks = 3;
    ninodes = 0;
    nlog = 0;
    logstart = 0;
    inodestart = 0;
    bmapstart = 0;
  };
  bytes = λ b i. if b == 0 then if i == 0 then 5 else 0 else 0;
}

four_blocks-IsBitmap : IsBitmap four_blocks
four_blocks-IsBitmap = record {
  bytes = λ b i. ground arith;
  inside = λ b lt. omega arith;
  in_use = λ b lt. let first : bitmap_block four_blocks b ≡ 0 = omega arith in rw first refl;
}

balloc_lem_example :
    ((balloc four_blocks ≡ none) × ((b : ℕ) → b < 4 → is_free four_blocks b ≡ false))
    ⊎ ((b : ℕ) × (d' : Disk) × (balloc four_blocks ≡ some (b, d')) × Allocated four_blocks b d')
balloc_lem_example = balloc_lem four_blocks four_blocks-IsBitmap

not_bitmap : (c : ℕ) → c < 4 → bitmap_block four_blocks c ≢ 2
not_bitmap c lt e = omega arith

bfree_lem_example :
    ((is_free four_blocks 2 ≡ true) × (bfree 2 four_blocks ≡ none))
    ⊎ ((is_free four_blocks 2 ≡ false)
        × ((d' : Disk) × (bfree 2 four_blocks ≡ some d') × Freed four_blocks 2 d'))
bfree_lem_example = bfree_lem four_blocks 2 four_blocks-IsBitmap (omega arith) not_bitmap

-- A file of five bytes, in block 2.
abbrev short_file : Inode
short_file = record {
  inum = 1;
  ref = 1;
  valid = true;
  itype = 2;
  major = 0;
  minor = 0;
  nlink = 1;
  size = 5;
  addrs = λ i. if i == 0 then 2 else 0;
}

abbrev opened : Access
opened = record { inode = short_file; disk = four_blocks; mem = λ i. 7 }

no_devices : ℕ → Device
no_devices major = record { read = none; write = none }

opened-HasBytes : HasBytes 0 5 short_file four_blocks
opened-HasBytes k low high =
    let first : k / 512 ≡ 0 = omega arith in
    record { small = omega arith; block = rw first (omega arith) }

-- Bytes 2, 3 and 4 of ten that are asked for.
readi_lem_example :
    (((5 < 2) ⊎ (4294967296 ≤ 2 + 10))
      × (readi no_devices 100 2 10 opened ≡ some (minus_one, opened)))
    ⊎ ((2 ≤ 5)
        × (2 + 10 < 4294967296)
        × ((a' : Access) × (readi no_devices 100 2 10 opened ≡ some (3, a'))
            × IsRead 3 2 100 opened a'))
readi_lem_example =
    readi_lem no_devices 100 2 10 opened (omega arith) (omega arith) (omega arith) (omega arith)
      opened-HasBytes

short_file-FitsDisk : FitsDisk short_file
short_file-FitsDisk = record {
  itype = omega arith;
  major = omega arith;
  minor = omega arith;
  nlink = omega arith;
  size = omega arith;
  addrs = λ i. ground arith;
}

abbrev stale : Inode
stale = record short_file { size = 9 }

read_dinode-iupdate_example :
    ((stale.inum ≡ short_file.inum)
      × SameDinode (read_dinode stale (iupdate short_file four_blocks)) short_file)
    ⊎ ((stale.inum ≢ short_file.inum)
        × SameDinode
            (read_dinode stale (iupdate short_file four_blocks))
            (read_dinode stale four_blocks))
read_dinode-iupdate_example = read_dinode-iupdate short_file stale four_blocks short_file-FitsDisk

-- A disk with the bitmap in block 0, the inodes in block 1, and the file in block 2.
abbrev sixteen_blocks : Disk
sixteen_blocks = record {
  sb = record {
    size = 16;
    nblocks = 14;
    ninodes = 8;
    nlog = 0;
    logstart = 0;
    inodestart = 1;
    bmapstart = 0;
  };
  bytes = λ b i. if b == 0 then if i == 0 then 7 else 0 else 0;
}

short_file-ref :
    (j : ℕ) → ref_at j short_file sixteen_blocks ≡ (if j == 141 then 1 else if j == 0 then 2 else 0)
short_file-ref j = ground arith

first_map : (c : ℕ) → c < 16 → bitmap_block sixteen_blocks c ≡ 0
first_map c lt = omega arith

in_use : (b : ℕ) → (b ≡ 1) ⊎ (b ≡ 2) → IsOwn sixteen_blocks b
in_use b (inl e) = record {
  below = omega arith;
  used = rw e refl;
  off_bitmap = λ c lt q. omega (arith, first_map c lt);
}
in_use b (inr e) = record {
  below = omega arith;
  used = rw e refl;
  off_bitmap = λ c lt q. omega (arith, first_map c lt);
}

short_file-IsFile : IsFile short_file sixteen_blocks
short_file-IsFile = record {
  bitmap = record {
    bytes = λ b i. ground arith;
    inside = λ b lt. omega arith;
    in_use = λ b lt. rw (first_map b lt) refl;
  };
  origin = refl;
  nonempty = omega arith;
  fits = omega arith;
  home = omega arith;
  refs = λ j lt nz. in_use (ref_at j short_file sixteen_blocks) (ground (arith, short_file-ref j));
  apart = λ i j hi hj nz e. ground (arith, short_file-ref i, short_file-ref j);
}

four_free : IsRoom 4 sixteen_blocks
four_free = record {
  pick = λ i. i + 3;
  below = λ i lt. omega arith;
  free = free;
  different = λ i j hi hj e. omega arith;
}
  where
    free : (i : ℕ) → i < 4 → is_free sixteen_blocks (i + 3) ≡ true
    free zero lt = refl
    free (suc zero) lt = refl
    free (suc (suc zero)) lt = refl
    free (suc (suc (suc zero))) lt = refl
    free (suc (suc (suc (suc i)))) lt = absurd (omega arith)

-- Block 20 of the file needs a table of indirect blocks.
bmap_lem_example : Finds 2 20 short_file sixteen_blocks (bmap 20 short_file sixteen_blocks)
bmap_lem_example = bmap_lem 2 20 short_file sixteen_blocks (omega arith) short_file-IsFile four_free

abbrev on_sixteen : Access
on_sixteen = record { inode = short_file; disk = sixteen_blocks; mem = λ i. 7 }

-- 600 bytes from byte 3 on reach into a second block.
writei_lem_example :
    (((5 < 3) ⊎ (71680 < 3 + 600))
      × (writei no_devices 100 3 600 on_sixteen ≡ some (minus_one, on_sixteen)))
    ⊎ ((3 ≤ 5)
        × (3 + 600 ≤ 71680)
        × ((a' : Access) × (writei no_devices 100 3 600 on_sixteen ≡ some (600, a'))
            × IsStored 600 3 100 on_sixteen a'))
writei_lem_example =
    writei_lem no_devices 100 3 600 on_sixteen (omega arith) (omega arith) (omega arith)
      (λ i. omega arith) short_file-IsFile four_free

-- Entry 3 is for inode 1, with one reference; the others are empty.
abbrev one_entry : Icache
one_entry i = if i == 3 then short_file else record short_file { ref = 0 }

only_third : (i inum : ℕ) → holds inum (one_entry i) ≡ true → i ≡ 3
only_third i inum h = ground arith

one_entry-IsCache : IsCache one_entry
one_entry-IsCache i j inum hi hj p q = only_third i inum p ∙ sym (only_third j inum q)

iget_lem_example :
    ((iget 2 one_entry ≡ none)
      × ((j : ℕ) → j < 50 → (holds 2 (one_entry j) ≡ false) × (is_empty (one_entry j) ≡ false)))
    ⊎ ((i : ℕ) × (c' : Icache) × (iget 2 one_entry ≡ some (i, c')) × IsGot 2 one_entry i c')
iget_lem_example = iget_lem 2 one_entry one_entry-IsCache (λ i lt. ground arith)

itrunc_lem_example :
    (ip' : Inode) × (d' : Disk) × (itrunc short_file sixteen_blocks ≡ some (ip', d'))
    × IsTruncated short_file sixteen_blocks ip' d'
itrunc_lem_example = itrunc_lem short_file sixteen_blocks short_file-IsFile
