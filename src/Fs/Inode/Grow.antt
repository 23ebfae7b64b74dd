-- ===== src/Fs/Inode/Grow.antt =====
-- The end of `writei` of fs.c, where a file grows.
use p2b.Prelude.{
  ℕ, ◌+◌, ◌-◌, ◌*◌, ◌/◌, ◌%◌, ◌<◌, ◌≤◌, ◌≡◌, refl, sym, ap, ◌∙◌, ◌⊎◌, true, false, not, ◌&&◌, some,
  arith, ◌==◌, ltb, if◌then◌else◌,
}
use native.Mathlib.Decide.{dec_lt}
use p2b.Fs.{bsize, Disk}
use p2b.Fs.Inode.{
  max_file, Inode, blit, byte_of, Access, grow, iupdate, inode_block, put_dinode, inode_offset,
}
use p2b.Fs.Inode.Read.{file_byte}
use p2b.Fs.Inode.Blocks.{IsFile}
use p2b.Fs.Inode.Stored.{set_block-IsFile, byte_kept}
use p2b.Fs.Inode.Write.{IsWritten}

-- The inode and the disk after a write of `n` bytes that has succeeded.
pub record IsStored (n off src : ℕ) (a a' : Access) : Type 0 where
  pub file : IsFile a'.inode a'.disk
  pub mem : a'.mem ≡ a.mem
  pub hit : (j : ℕ) → j < n → file_byte (off + j) a'.inode a'.disk ≡ a.mem (src + j)
  pub miss :
      (k : ℕ)
      → k / bsize < max_file
      → (k < off) ⊎ (off + n ≤ k)
      → file_byte k a'.inode a'.disk ≡ file_byte k a.inode a.disk
  pub size : a'.inode.size ≡ (if ltb a.inode.size (off + n) then off + n else a.inode.size)
  pub fields : a'.inode ≡ record a.inode { addrs = a'.inode.addrs; size = a'.inode.size }

blit_bytes :
    (at n : ℕ) (f old : ℕ → ℕ)
    → ((i : ℕ) → f i < 256)
    → ((i : ℕ) → old i < 256)
    → (i : ℕ) → blit at n f old i < 256
blit_bytes at n f old hf ho i = ground (arith, hf (i - at), ho i)

byte_of_bytes : (v i : ℕ) → byte_of v i < 256
byte_of_bytes v i = omega arith

pub put_dinode_bytes :
    (at : ℕ) (ip : Inode) (b : ℕ → ℕ) → ((i : ℕ) → b i < 256) → (i : ℕ) → put_dinode at ip b i < 256
put_dinode_bytes at ip b h =
    blit_bytes _ _ _ _ (λ j. byte_of_bytes (ip.addrs (j / 4)) (j % 4))
      (blit_bytes _ _ _ _ (byte_of_bytes ip.size) (
        blit_bytes _ _ _ _ (byte_of_bytes ip.nlink) (
          blit_bytes _ _ _ _ (byte_of_bytes ip.minor) (
            blit_bytes _ _ _ _ (byte_of_bytes ip.major)
              (blit_bytes _ _ _ _ (byte_of_bytes ip.itype) h)))))

-- The size of an inode is none of its references.
sized-IsFile :
    (ip : Inode) (d : Disk) (size : ℕ) → IsFile ip d → IsFile (record ip { size = size }) d
sized-IsFile ip d size file = record {
  bitmap = file.bitmap;
  origin = file.origin;
  nonempty = file.nonempty;
  fits = file.fits;
  home = file.home;
  refs = file.refs;
  apart = file.apart;
}

module _ (ip : Inode) (d : Disk) (file : IsFile ip d) where
  iupdate-IsFile : IsFile ip (iupdate ip d)
  unfolding iupdate
  iupdate-IsFile =
      set_block-IsFile ip d file 141 (omega arith) (omega arith) (inode_block d ip.inum) refl
        file.home (put_dinode (inode_offset ip.inum) ip (d.bytes (inode_block d ip.inum)))
        (put_dinode_bytes (inode_offset ip.inum) ip (d.bytes (inode_block d ip.inum))
          (file.bitmap.bytes (inode_block d ip.inum)))

  iupdate-byte_kept :
      (k : ℕ) → k / bsize < max_file → file_byte k ip (iupdate ip d) ≡ file_byte k ip d
  unfolding iupdate
  iupdate-byte_kept k lt =
      byte_kept ip d file 141 (omega arith) (omega arith) (inode_block d ip.inum) refl file.home
        (put_dinode (inode_offset ip.inum) ip (d.bytes (inode_block d ip.inum)))
        (put_dinode_bytes (inode_offset ip.inum) ip (d.bytes (inode_block d ip.inum))
          (file.bitmap.bytes (inode_block d ip.inum)))
        k lt (λ e. omega arith)

pub grow_lem :
    (n off src : ℕ) (a a1 : Access)
    → off ≤ a.inode.size
    → off + n ≤ max_file * bsize
    → IsWritten n off src a a1
    → (a' : Access) × (grow n (some (off + n, a1)) ≡ some (n, a')) × IsStored n off src a a'
unfolding grow
grow_lem n off src a a1 start fits w = elim (dec_lt a.inode.size (off + n)) [
  | yes more ↦
      let test : (not (n == 0) && ltb a1.inode.size (off + n)) ≡ true = ground (arith, same_size) in
      let ip = record a1.inode { size = off + n } in
      let file1 = sized-IsFile a1.inode a1.disk (off + n) w.file in
      let grows : ltb a.inode.size (off + n) ≡ true = ground arith in
      (
        record a1 { inode = ip; disk = iupdate ip a1.disk },
        rw (test, grow) refl,
        record {
          file = iupdate-IsFile ip a1.disk file1;
          mem = w.mem;
          hit = λ j lt. iupdate-byte_kept ip a1.disk file1 (off + j) (omega arith) ∙ w.hit j lt;
          miss = λ k lt out. iupdate-byte_kept ip a1.disk file1 k lt ∙ w.miss k lt out;
          size = rw grows refl;
          fields = ap (λ i. with_size (off + n) i) w.fields;
        },
      )
  | no inside ↦
      let test : (not (n == 0) && ltb a1.inode.size (off + n)) ≡ false =
        ground (arith, same_size) in
      let stays : ltb a.inode.size (off + n) ≡ false = ground arith in
      (
        a1,
        rw (test, grow) refl,
        record {
          file = w.file;
          mem = w.mem;
          hit = w.hit;
          miss = w.miss;
          size = rw stays same_size;
          fields =
              w.fields
              ∙ ap (λ s. with_size s (record a.inode { addrs = a1.inode.addrs })) (sym same_size);
        },
      )
]
  where
    same_size : a1.inode.size ≡ a.inode.size
    same_size = ap (λ i. i.size) w.fields

    with_size : ℕ → Inode → Inode
    with_size s i = record i { size = s }
