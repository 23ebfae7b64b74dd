-- ===== src/Fs/Inode/Read.antt =====
-- `bmap` and `readi` of fs.c, on the blocks that a file has.
use p2b.Prelude.{
  ℕ, zero, suc, ◌+◌, ◌-◌, ◌*◌, ◌/◌, ◌%◌, ◌^◌, ◌<◌, ◌≤◌, ◌≡◌, ◌≢◌, refl, sym, ap, ◌∙◌, ◌⊎◌, inl, inr,
  true, false, ◌||◌, some, arith, ◌==◌, ltb, leb, if◌then◌else◌, Bool-cases,
}
use mathlib.Core.Path.{subst, ap₂}
use native.Mathlib.Decide.{dec_lt}
use p2b.Fs.{bsize, Disk}
use p2b.Fs.Inode.{
  ndirect, nindirect, max_file, t_dev, minus_one, Inode, blit, get_word, slot, indirect, bmap,
  Access, Device, chunk, read_loop, clip, readi,
}

-- Block `bn` of a file: 0 if it has none.
abbrev pub block_at : (bn : ℕ) → Inode → Disk → ℕ
block_at bn ip d =
    if ltb bn ndirect
    then ip.addrs bn
    else if ip.addrs ndirect == 0
    then 0
    else get_word (d.bytes (ip.addrs ndirect)) (4 * (bn - ndirect))

-- The file has its block `bn`.
pub record HasBlock (bn : ℕ) (ip : Inode) (d : Disk) : Type 0 where
  pub small : bn < max_file
  pub block : block_at bn ip d ≢ 0

bmap-HasBlock :
    (bn : ℕ) (ip : Inode) (d : Disk)
    → HasBlock bn ip d
    → bmap bn ip d ≡ some (block_at bn ip d, ip, d)
unfolding bmap
bmap-HasBlock bn ip d h = elim (Bool-cases (ltb bn ndirect)) [
  | inl low ↦
      let nz : (ip.addrs bn == 0) ≡ false = ground (arith, h.block) in
      rw (low, slot_lem bn ip d nz) refl
  | inr high ↦
      let at_table : (ip.addrs ndirect == 0) ≡ false = ground (arith, h.block) in
      let inside : ltb (bn - ndirect) nindirect ≡ true = ground (arith, h.small) in
      let nz : (get_word (d.bytes (ip.addrs ndirect)) (4 * (bn - ndirect)) == 0) ≡ false =
        ground (arith, h.block) in
      rw (high, at_table, inside, slot_lem ndirect ip d at_table)
        (indirect_lem (bn - ndirect) (ip.addrs ndirect) ip d nz)
]
  where
    slot_lem :
        (x : ℕ) (iq : Inode) (e : Disk)
        → (iq.addrs x == 0) ≡ false
        → slot x iq e ≡ some (iq.addrs x, iq, e)
    slot_lem x iq e nz = rw (nz, slot) refl

    indirect_lem :
        (x addr : ℕ) (iq : Inode) (e : Disk)
        → (get_word (e.bytes addr) (4 * x) == 0) ≡ false
        → indirect x (some (addr, iq, e)) ≡ some (get_word (e.bytes addr) (4 * x), iq, e)
    indirect_lem x addr iq e nz = rw (nz, indirect) refl

-- The bytes of a file; a block that it does not have is all 0.
abbrev pub file_byte : (k : ℕ) → Inode → Disk → ℕ
file_byte k ip d =
    if block_at (k / bsize) ip d == 0 then 0 else d.bytes (block_at (k / bsize) ip d) (k % bsize)

abbrev pub HasBytes : (from upto : ℕ) → Inode → Disk → Type 0
HasBytes from upto ip d = (k : ℕ) → from ≤ k → k < upto → HasBlock (k / bsize) ip d

-- Memory with the bytes of the file from `off` on at `dst`, and the rest as before.
pub record IsRead (left off dst : ℕ) (a a' : Access) : Type 0 where
  pub inode : a'.inode ≡ a.inode
  pub disk : a'.disk ≡ a.disk
  pub hit : (j : ℕ) → j < left → a'.mem (dst + j) ≡ file_byte (off + j) a.inode a.disk
  pub miss : (i : ℕ) → (i < dst) ⊎ (dst + left ≤ i) → a'.mem i ≡ a.mem i

module _ (left off dst : ℕ) (a : Access) where
  -- One round: the bytes up to the end of the block, or of what is to be read.
  abbrev round_of : Access
  round_of = record a {
    mem =
        blit dst (chunk left off)
          (λ j. a.disk.bytes (block_at (off / bsize) a.inode a.disk) (off % bsize + j)) a.mem;
  }

  read_loop-step :
      (rounds : ℕ)
      → (left == 0) ≡ false
      → HasBlock (off / bsize) a.inode a.disk
      → read_loop (suc rounds) left off dst a
        ≡ read_loop rounds
            (left - chunk left off)
            (off + chunk left off)
            (dst + chunk left off)
            round_of
  unfolding read_loop
  read_loop-step rounds some_left h =
      rw (some_left, bmap-HasBlock (off / bsize) a.inode a.disk h, read_loop) refl

  round_of-hit :
      (j : ℕ)
      → j < chunk left off
      → HasBlock (off / bsize) a.inode a.disk
      → round_of.mem (dst + j) ≡ file_byte (off + j) a.inode a.disk
  round_of-hit j lt h =
      let room : chunk left off ≤ bsize - off % bsize = ground arith in
      let same_block : (off + j) / bsize ≡ off / bsize = omega arith in
      let same_byte : (off + j) % bsize ≡ off % bsize + j = omega arith in
      let index : dst + j - dst ≡ j = omega arith in
      let low : leb dst (dst + j) ≡ true = ground arith in
      let high : ltb (dst + j) (dst + chunk left off) ≡ true = ground arith in
      let here : round_of.mem (dst + j)
          ≡ a.disk.bytes (block_at (off / bsize) a.inode a.disk) (off % bsize + j) =
        rw (low, high, index) refl in
      let there : (block_at (off / bsize) a.inode a.disk == 0) ≡ false = ground (arith, h.block) in
      here
      ∙ sym (
          ap₂
            (λ b i.
              if block_at b a.inode a.disk == 0
              then 0
              else a.disk.bytes (block_at b a.inode a.disk) i)
            same_block same_byte
          ∙ ap
              (λ z.
                if z
                then 0
                else a.disk.bytes (block_at (off / bsize) a.inode a.disk) (off % bsize + j))
              there)

  round_of-miss : (i : ℕ) → (i < dst) ⊎ (dst + chunk left off ≤ i) → round_of.mem i ≡ a.mem i
  round_of-miss i (inl below) = ground arith
  round_of-miss i (inr above) = ground arith

  chunk_bounds : (left == 0) ≡ false → (0 < chunk left off) × (chunk left off ≤ left)
  chunk_bounds some_left = (ground arith, ground arith)

  IsRead-step :
      (a' : Access)
      → (left == 0) ≡ false
      → HasBlock (off / bsize) a.inode a.disk
      → IsRead (left - chunk left off) (off + chunk left off) (dst + chunk left off) round_of a'
      → IsRead left off dst a a'
  IsRead-step a' some_left h r = record {
    inode = r.inode;
    disk = r.disk;
    hit = λ j lt. elim (dec_lt j (chunk left off)) [
      | yes now ↦ r.miss (dst + j) (inl (omega arith)) ∙ round_of-hit j now h
      | no later ↦
          let m = chunk left off in
          let e : dst + m + (j - m) ≡ dst + j = omega arith in
          let f : off + m + (j - m) ≡ off + j = omega arith in
          subst (λ i. a'.mem i ≡ file_byte (off + j) a.inode a.disk) e
            (r.hit (j - m) (omega arith) ∙ ap (λ k. file_byte k a.inode a.disk) f)
    ];
    miss = λ i out. elim out [
      | inl below ↦ r.miss i (inl (omega arith)) ∙ round_of-miss i (inl below)
      | inr above ↦
          r.miss i (inr (omega (arith, chunk_bounds some_left)))
          ∙ round_of-miss i (inr (omega (arith, chunk_bounds some_left)))
    ];
  }

read_loop_lem :
    (rounds left off dst : ℕ) (a : Access)
    → left ≤ rounds
    → HasBytes off (off + left) a.inode a.disk
    → (a' : Access) × (read_loop rounds left off dst a ≡ some a') × IsRead left off dst a a'
unfolding read_loop
read_loop_lem zero left off dst a enough h = (
  a,
  refl,
  record { inode = refl; disk = refl; hit = λ j lt. absurd (omega arith); miss = λ i out. refl },
)
read_loop_lem (suc rounds) left off dst a enough h = elim (Bool-cases (left == 0)) [
  | inl done ↦ (
    a,
    rw (done, read_loop) refl,
    record { inode = refl; disk = refl; hit = λ j lt. absurd (ground arith); miss = λ i out. refl },
  )
  | inr some_left ↦
      let m = chunk left off in
      let (pos, le) = chunk_bounds left off dst a some_left in
      let (a', e, r) =
        read_loop_lem rounds (left - m) (off + m) (dst + m) (round_of left off dst a) (omega arith)
          (λ k low high. h k (omega arith) (omega arith)) in
      (
        a',
        read_loop-step left off dst a rounds some_left (h off (omega arith) (ground arith)) ∙ e,
        IsRead-step left off dst a a' some_left (h off (omega arith) (ground arith)) r,
      )
]

-- `readi` of an inode that is no device and has the blocks of its bytes: beyond the end of the file,
-- and where the range wraps, it returns -1 and changes nothing. Else it returns the number of bytes
-- from `off` on that are asked for and in the file; they are at `dst` then, and the rest of memory, the
-- inode and the disk are as before.
pub readi_lem :
    (devsw : ℕ → Device) (dst off n : ℕ) (a : Access)
    → a.inode.itype ≢ t_dev
    → a.inode.size < 2 ^ 32
    → off < 2 ^ 32
    → n < 2 ^ 32
    → HasBytes 0 a.inode.size a.inode a.disk
    → (((a.inode.size < off) ⊎ (2 ^ 32 ≤ off + n))
        × (readi devsw dst off n a ≡ some (minus_one, a)))
      ⊎ ((off ≤ a.inode.size)
          × (off + n < 2 ^ 32)
          × ((a' : Access) × (readi devsw dst off n a ≡ some (clip a.inode.size off n, a'))
              × IsRead (clip a.inode.size off n) off dst a a'))
unfolding readi
readi_lem devsw dst off n a file fits_size fits_off fits_n h =
    let no_device : (a.inode.itype == t_dev) ≡ false = ground arith in
    elim (Bool-cases (ltb a.inode.size off || ltb ((off + n) % 2 ^ 32) off)) [
      | inl bad ↦ inl (outside bad, rw (no_device, bad, readi) refl)
      | inr good ↦
          let m = clip a.inode.size off n in
          let start : off ≤ a.inode.size = ground arith in
          let no_wrap : off ≤ (off + n) % 2 ^ 32 = ground arith in
          let (a', e, r) =
            read_loop_lem m m off dst a (omega arith)
              (λ k low high. h k (omega arith) (ground arith)) in
          inr (start, omega arith, (a', rw (no_device, good, e, readi) refl, r))
    ]
  where
    outside :
        (ltb a.inode.size off || ltb ((off + n) % 2 ^ 32) off) ≡ true
        → (a.inode.size < off) ⊎ (2 ^ 32 ≤ off + n)
    outside bad = elim (dec_lt a.inode.size off) [
      | yes beyond ↦ inl beyond
      | no inside ↦ inr (let wraps : (off + n) % 2 ^ 32 < off = ground arith in omega arith)
    ]
