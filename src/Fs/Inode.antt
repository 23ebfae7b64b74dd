-- ===== src/Fs/Inode.antt =====
-- fs.c: inodes on the disk and in memory, and the bytes of a file. A number of several bytes is
-- little-endian. A short and an int are their bit patterns. `none` is a panic. One inode is an argument
-- and a result of its operations; Fs/Cache has the table of them.
pub mod Layout
pub mod Read
pub mod Blocks
pub mod Room
pub mod Map
pub mod Indirect
pub mod Bmap
pub mod Stored
pub mod Write
pub mod Grow
pub mod Writei
use p2b.Prelude.{
  ℕ, zero, suc, ◌+◌, ◌-◌, ◌*◌, ◌/◌, ◌%◌, ◌^◌, Bool, true, false, not, ◌&&◌, ◌||◌, Option, none,
  some, ◌==◌, ltb, leb, if◌then◌else◌, update,
}
use p2b.Fs.{bsize, Disk, balloc, bfree}
use p2b.StringOps.{Memory}

abbrev pub ndirect : ℕ
ndirect = 12

abbrev pub nindirect : ℕ
nindirect = 128

-- MAXFILE
abbrev pub max_file : ℕ
max_file = 140

-- IPB, and the size of a `struct dinode`.
abbrev pub ipb : ℕ
ipb = 8

abbrev pub dinode_size : ℕ
dinode_size = 64

-- T_DEV and NDEV
abbrev pub t_dev : ℕ
t_dev = 3

abbrev pub ndev : ℕ
ndev = 10

-- The result -1.
abbrev pub minus_one : ℕ
minus_one = 2 ^ 32 - 1

pub record Inode : Type 0 where
  pub inum : ℕ
  pub ref : ℕ
  pub valid : Bool
  pub itype : ℕ
  pub major : ℕ
  pub minor : ℕ
  pub nlink : ℕ
  pub size : ℕ
  pub addrs : ℕ → ℕ

-- memmove of `n` bytes to an object, from a source that begins with `f`.
abbrev pub blit : (at n : ℕ) (f old : ℕ → ℕ) → ℕ → ℕ
blit at n f old i = if leb at i && ltb i (at + n) then f (i - at) else old i

-- Numbers of two and of four bytes in a block.
abbrev pub byte_of : (v i : ℕ) → ℕ
byte_of v i = v / 256 ^ i % 256

abbrev pub put_short : (at v : ℕ) → (ℕ → ℕ) → ℕ → ℕ
put_short at v old = blit at 2 (byte_of v) old

abbrev pub put_word : (at v : ℕ) → (ℕ → ℕ) → ℕ → ℕ
put_word at v old = blit at 4 (byte_of v) old

abbrev pub get_short : (ℕ → ℕ) → (at : ℕ) → ℕ
get_short b at = b at + 256 * b (at + 1)

abbrev pub get_word : (ℕ → ℕ) → (at : ℕ) → ℕ
get_word b at = b at + 256 * b (at + 1) + 65536 * b (at + 2) + 16777216 * b (at + 3)

abbrev pub set_block : Disk → (block : ℕ) → (ℕ → ℕ) → Disk
set_block d block f = record d { bytes = update d.bytes block f }

-- IBLOCK(i, sb), and where the inode begins in the block.
abbrev pub inode_block : Disk → ℕ → ℕ
inode_block d inum = inum / ipb + d.sb.inodestart

abbrev pub inode_offset : ℕ → ℕ
inode_offset inum = inum % ipb * dinode_size

-- The fields of a `struct dinode` that begins at `at`, in their order.
abbrev pub put_dinode : (at : ℕ) → Inode → (ℕ → ℕ) → ℕ → ℕ
put_dinode at ip b =
    let b1 = put_short at ip.itype b in
    let b2 = put_short (at + 2) ip.major b1 in
    let b3 = put_short (at + 4) ip.minor b2 in
    let b4 = put_short (at + 6) ip.nlink b3 in
    let b5 = put_word (at + 8) ip.size b4 in
    blit (at + 12) 52 (λ j. byte_of (ip.addrs (j / 4)) (j % 4)) b5

unfoldable pub iupdate : Inode → Disk → Disk
iupdate ip d =
    set_block d (inode_block d ip.inum)
      (put_dinode (inode_offset ip.inum) ip (d.bytes (inode_block d ip.inum)))

-- What `ilock` reads from the disk.
pub read_dinode : Inode → Disk → Inode
read_dinode ip d =
    let b = d.bytes (inode_block d ip.inum) in
    let at = inode_offset ip.inum in
    record ip {
      itype = get_short b at;
      major = get_short b (at + 2);
      minor = get_short b (at + 4);
      nlink = get_short b (at + 6);
      size = get_word b (at + 8);
      addrs = λ i. get_word b (at + 12 + 4 * i);
      valid = true;
    }

-- `ilock`, when it has got the sleep lock.
pub ilock : Inode → Disk → Option Inode
ilock ip d =
    if ip.ref == 0 || leb (2 ^ 31) ip.ref
    then none
    else if ip.valid
    then some ip
    else if (read_dinode ip d).itype == 0
    then none
    else some (read_dinode ip d)

-- `if((addr = ip->addrs[x]) == 0) ip->addrs[x] = addr = balloc(ip->dev);`
pub slot : (x : ℕ) → Inode → Disk → Option (ℕ × Inode × Disk)
slot x ip d = elim (ip.addrs x == 0) [
  | false ↦ some (ip.addrs x, ip, d)
  | true ↦ elim (balloc d) [
    | none ↦ none
    | some (b, d1) ↦ some (b, record ip { addrs = update ip.addrs x b }, d1)
  ]
]

-- Entry `x` of the indirect block `addr`.
pub indirect : (x : ℕ) → Option (ℕ × Inode × Disk) → Option (ℕ × Inode × Disk)
indirect x none = none
indirect x (some (addr, ip, d)) = elim (get_word (d.bytes addr) (4 * x) == 0) [
  | false ↦ some (get_word (d.bytes addr) (4 * x), ip, d)
  | true ↦ elim (balloc d) [
    | none ↦ none
    | some (b, d1) ↦ some (b, ip, set_block d1 addr (put_word (4 * x) b (d1.bytes addr)))
  ]
]

pub bmap : (bn : ℕ) → Inode → Disk → Option (ℕ × Inode × Disk)
unfolding slot indirect
bmap bn ip d =
    if ltb bn ndirect
    then slot bn ip d
    else if ltb (bn - ndirect) nindirect
    then indirect (bn - ndirect) (slot ndirect ip d)
    else none

-- An open inode, the disk, and the memory of the caller.
pub record Access : Type 0 where
  pub inode : Inode
  pub disk : Disk
  pub mem : Memory

-- The functions of a device: what they return, and what they leave.
pub record Device : Type 0 where
  pub read : Option (Inode → (dst n : ℕ) → Access → ℕ × Access)
  pub write : Option (Inode → (src n : ℕ) → Access → ℕ × Access)

-- ip->major < 0 || ip->major >= NDEV
abbrev pub bad_major : ℕ → Bool
bad_major m = leb (2 ^ 15) m || leb ndev m

-- min(n - tot, BSIZE - off%BSIZE)
abbrev pub chunk : (left off : ℕ) → ℕ
chunk left off = if ltb left (bsize - off % bsize) then left else bsize - off % bsize

-- The loop of `readi`, with `left` for `n - tot`. A round takes a byte at least.
read_loop : (rounds left off dst : ℕ) → Access → Option Access
read_loop zero left off dst a = some a
read_loop (suc rounds) left off dst a = elim (left == 0) [
  | true ↦ some a
  | false ↦ elim (bmap (off / bsize) a.inode a.disk) [
    | none ↦ none
    | some (b, ip, d) ↦
        let m = chunk left off in
        read_loop rounds (left - m) (off + m) (dst + m) (record {
          inode = ip;
          disk = d;
          mem = blit dst m (λ j. d.bytes b (off % bsize + j)) a.mem;
        })
  ]
]

-- The result and the state of a call that has returned `r`.
abbrev pub returns : (r : ℕ) → Option Access → Option (ℕ × Access)
returns r none = none
returns r (some a) = some (r, a)

-- `readi`, once `n` bytes are to be read.
abbrev pub clip : (size off n : ℕ) → ℕ
clip size off n = if ltb size (off + n) then size - off else n

pub readi : (devsw : ℕ → Device) (dst off n : ℕ) → Access → Option (ℕ × Access)
unfolding read_loop
readi devsw dst off n a =
    if a.inode.itype == t_dev
    then (if bad_major a.inode.major then some (minus_one, a) else elim (devsw a.inode.major).read [
      | none ↦ some (minus_one, a)
      | some f ↦ some (f a.inode dst n a)
    ])
    else if ltb a.inode.size off || ltb ((off + n) % 2 ^ 32) off
    then some (minus_one, a)
    else let m = clip a.inode.size off n in returns m (read_loop m m off dst a)

-- The loop of `writei`, with the offset that it ends at.
pub write_loop : (rounds left off src : ℕ) → Access → Option (ℕ × Access)
write_loop zero left off src a = some (off, a)
write_loop (suc rounds) left off src a = elim (left == 0) [
  | true ↦ some (off, a)
  | false ↦ elim (bmap (off / bsize) a.inode a.disk) [
    | none ↦ none
    | some (b, ip, d) ↦
        let m = chunk left off in
        write_loop rounds (left - m) (off + m) (src + m) (record a {
          inode = ip;
          disk = set_block d b (blit (off % bsize) m (λ j. a.mem (src + j)) (d.bytes b));
        })
  ]
]

-- `writei`, when it has written.
pub grow : (n : ℕ) → Option (ℕ × Access) → Option (ℕ × Access)
grow n none = none
grow n (some (off, a)) =
    if not (n == 0) && ltb a.inode.size off
    then (let ip = record a.inode { size = off } in
        some (n, record a { inode = ip; disk = iupdate ip a.disk }))
    else some (n, a)

pub writei : (devsw : ℕ → Device) (src off n : ℕ) → Access → Option (ℕ × Access)
unfolding write_loop grow
writei devsw src off n a =
    if a.inode.itype == t_dev
    then (if bad_major a.inode.major
        then some (minus_one, a)
        else elim (devsw a.inode.major).write [
          | none ↦ some (minus_one, a)
          | some f ↦ some (f a.inode src n a)
        ])
    else if ltb a.inode.size off || ltb ((off + n) % 2 ^ 32) off
    then some (minus_one, a)
    else if ltb (max_file * bsize) ((off + n) % 2 ^ 32)
    then some (minus_one, a)
    else grow n (write_loop n n off src a)
