-- ===== src/Fs.antt =====
-- fs.c: the file system. A block is its array of bytes, as the buffer cache holds it: `bread` reads it,
-- and a block that is changed and given to `log_write` keeps its new bytes there. There is one device.
-- `none` is a panic.
pub mod Bitmap
pub mod Inode
pub mod Cache
use Prim.Native.Nat.{bit_or, bit_and}
use p2b.Prelude.{
  ℕ, zero, suc, ◌+◌, ◌-◌, ◌*◌, ◌/◌, ◌%◌, ◌^◌, Bool, true, false, not, Option, none, some, ◌==◌, ltb,
  leb, if◌then◌else◌, update, find_first,
}

abbrev pub bsize : ℕ
bsize = 512

-- BPB
abbrev pub bpb : ℕ
bpb = 4096

pub record Superblock : Type 0 where
  pub size : ℕ
  pub nblocks : ℕ
  pub ninodes : ℕ
  pub nlog : ℕ
  pub logstart : ℕ
  pub inodestart : ℕ
  pub bmapstart : ℕ

pub record Disk : Type 0 where
  pub sb : Superblock
  pub bytes : ℕ → ℕ → ℕ

-- BBLOCK(b, sb)
abbrev pub bitmap_block : Disk → ℕ → ℕ
bitmap_block d b = b / bpb + d.sb.bmapstart

-- The byte of the bitmap for a block, and the test of its bit.
abbrev pub map_byte : Disk → ℕ → ℕ
map_byte d b = d.bytes (bitmap_block d b) (b % bpb / 8)

abbrev pub is_free : Disk → ℕ → Bool
is_free d b = bit_and (map_byte d b) (2 ^ (b % 8)) == 0

abbrev pub set_byte : Disk → (block i v : ℕ) → Disk
set_byte d block i v = record d { bytes = update d.bytes block (update (d.bytes block) i v) }

-- bp->data[bi/8] |= m and bp->data[bi/8] &= ~m
abbrev pub mark : ℕ → Disk → Disk
mark b d = set_byte d (bitmap_block d b) (b % bpb / 8) (bit_or (map_byte d b) (2 ^ (b % 8)))

abbrev pub unmark : ℕ → Disk → Disk
unmark b d =
    set_byte d (bitmap_block d b) (b % bpb / 8) (bit_and (map_byte d b) (255 - 2 ^ (b % 8)))

abbrev pub bzero : ℕ → Disk → Disk
bzero b d = record d { bytes = update d.bytes b (λ _. 0) }

-- The two loops of `balloc` look at the blocks in order.
pub balloc : Disk → Option (ℕ × Disk)
balloc d = elim (find_first (λ free. free) d.sb.size 0 (is_free d)) [
  | none ↦ none
  | some b ↦ some (b, bzero b (mark b d))
]

pub bfree : ℕ → Disk → Option Disk
bfree b d = if is_free d b then none else some (unmark b d)
