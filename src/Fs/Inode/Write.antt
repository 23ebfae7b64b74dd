-- ===== src/Fs/Inode/Write.antt =====
-- `writei` of fs.c, on the bytes of a file.
use p2b.Prelude.{
  ℕ, suc, ◌+◌, ◌-◌, ◌*◌, ◌/◌, ◌%◌, ◌<◌, ◌≤◌, ◌≡◌, refl, sym, ap, ◌∙◌, ◌⊎◌, inl, inr, true, false,
  some, arith, ◌==◌, ltb, leb,
}
use native.Mathlib.Decide.{ℕ_discrete}
use p2b.Fs.{bsize, Disk}
use p2b.StringOps.{Memory}
use p2b.Fs.Inode.{max_file, Inode, blit, set_block, bmap, Access, chunk, write_loop}
use p2b.Fs.Inode.Read.{block_at, file_byte}
use p2b.Fs.Inode.Blocks.{ref_at, IsFile, ref_at-block, byte_in}
use p2b.Fs.Inode.Room.{IsRoom}
use p2b.Fs.Inode.Map.{IsBlockOf}
use p2b.Fs.Inode.Indirect.{set_block-IsRoom}
use p2b.Fs.Inode.Stored.{set_block-IsFile, byte_here, byte_kept, own}

-- Memory holds bytes.
abbrev pub AreBytes : Memory → Type 0
AreBytes mem = (i : ℕ) → mem i < 256

-- The bytes of the file from `off` on are those of memory from `src` on, and the others as before.
pub record IsWritten (left off src : ℕ) (a a' : Access) : Type 0 where
  pub file : IsFile a'.inode a'.disk
  pub mem : a'.mem ≡ a.mem
  pub hit : (j : ℕ) → j < left → file_byte (off + j) a'.inode a'.disk ≡ a.mem (src + j)
  pub miss :
      (k : ℕ)
      → k / bsize < max_file
      → (k < off) ⊎ (off + left ≤ k)
      → file_byte k a'.inode a'.disk ≡ file_byte k a.inode a.disk
  pub fields : a'.inode ≡ record a.inode { addrs = a'.inode.addrs }

-- One round, for the block that `bmap` has found.
module _ (left off src : ℕ) (a : Access) (mem : AreBytes a.mem)
    (fits : off + left ≤ max_file * bsize) (some_left : (left == 0) ≡ false) (b : ℕ) (ip : Inode)
    (d : Disk) (found : IsBlockOf (off / bsize) b a.inode a.disk ip d) where
  abbrev pub new_bytes : ℕ → ℕ
  new_bytes = blit (off % bsize) (chunk left off) (λ j. a.mem (src + j)) (d.bytes b)

  abbrev pub after_round : Access
  after_round = record a { inode = ip; disk = set_block d b new_bytes }

  pub chunk_bounds :
      (0 < chunk left off) × (chunk left off ≤ left) × (chunk left off ≤ bsize - off % bsize)
  chunk_bounds = (ground arith, ground arith, ground arith)

  pub low_block : off / bsize < max_file
  low_block = omega (arith, chunk_bounds.0, chunk_bounds.1)

  new_bytes_small : (i : ℕ) → new_bytes i < 256
  new_bytes_small i = ground (arith, mem (src + (i - off % bsize)), found.file.bitmap.bytes b i)

  pub round-IsFile : IsFile ip (set_block d b new_bytes)
  round-IsFile =
      set_block-IsFile ip d found.file (off / bsize) (omega (arith, low_block))
        (λ e. omega (arith, low_block)) b found.block found.positive new_bytes new_bytes_small

  pub round-IsRoom : (q : ℕ) → IsRoom q d → IsRoom q (set_block d b new_bytes)
  round-IsRoom q room =
      set_block-IsRoom d found.file.bitmap b
        (own ip d found.file (off / bsize) (omega (arith, low_block))
          (λ e. omega (arith, low_block)) b found.block found.positive new_bytes new_bytes_small)
        new_bytes new_bytes_small q room

  in_block :
      (k : ℕ)
      → k / bsize ≡ off / bsize
      → file_byte k ip (set_block d b new_bytes) ≡ new_bytes (k % bsize)
  in_block k e =
      byte_here ip d found.file (off / bsize) (omega (arith, low_block))
        (λ e. omega (arith, low_block)) b found.block found.positive new_bytes new_bytes_small k e
        low_block

  pub round-hit :
      (j : ℕ)
      → j < chunk left off
      → file_byte (off + j) ip (set_block d b new_bytes) ≡ a.mem (src + j)
  round-hit j lt =
      let same_block : (off + j) / bsize ≡ off / bsize = omega (arith, chunk_bounds.2) in
      let same_byte : (off + j) % bsize ≡ off % bsize + j = omega (arith, chunk_bounds.2) in
      let index : off % bsize + j - off % bsize ≡ j = omega arith in
      let low : leb (off % bsize) (off % bsize + j) ≡ true = ground arith in
      let high : ltb (off % bsize + j) (off % bsize + chunk left off) ≡ true = ground arith in
      in_block (off + j) same_block ∙ ap new_bytes same_byte ∙ rw (low, high, index) refl

  pub round-miss :
      (k : ℕ)
      → k / bsize < max_file
      → (k < off) ⊎ (off + chunk left off ≤ k)
      → file_byte k ip (set_block d b new_bytes) ≡ file_byte k a.inode a.disk
  round-miss k lt out = elim (ℕ_discrete (k / bsize) (off / bsize)) [
    | yes e ↦
        let block : block_at (k / bsize) ip d ≡ b =
          sym (ref_at-block (k / bsize) ip d lt) ∙ ap (λ j. ref_at j ip d) e ∙ found.block in
        let there : (b == 0) ≡ false = ground (arith, found.positive) in
        in_block k e
        ∙ outside k e out
        ∙ sym (ap (λ c. byte_in c d (k % bsize)) block ∙ rw there refl)
        ∙ found.same k lt
    | no ne ↦
        byte_kept ip d found.file (off / bsize) (omega (arith, low_block))
          (λ e. omega (arith, low_block)) b found.block found.positive new_bytes new_bytes_small k
          lt ne
        ∙ found.same k lt
  ]
    where
      outside :
          (i : ℕ)
          → i / bsize ≡ off / bsize
          → (i < off) ⊎ (off + chunk left off ≤ i)
          → new_bytes (i % bsize) ≡ d.bytes b (i % bsize)
      outside i e (inl below) =
          let low : leb (off % bsize) (i % bsize) ≡ false = ground arith in rw low refl
      outside i e (inr above) =
          let high : ltb (i % bsize) (off % bsize + chunk left off) ≡ false = ground arith in
          ground arith

  pub write_loop-step :
      (rounds : ℕ)
      → bmap (off / bsize) a.inode a.disk ≡ some (b, ip, d)
      → write_loop (suc rounds) left off src a
        ≡ write_loop rounds
            (left - chunk left off)
            (off + chunk left off)
            (src + chunk left off)
            after_round
  unfolding write_loop
  write_loop-step rounds e = rw (some_left, e, write_loop) refl
