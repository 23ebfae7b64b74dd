-- ===== src/Fs/Inode/Stored.antt =====
-- A write to one block of a file, as in `writei` and `iupdate` of fs.c.
use p2b.Prelude.{ℕ, ◌-◌, ◌*◌, ◌/◌, ◌%◌, ◌<◌, ◌≡◌, ◌≢◌, refl, sym, ap, ◌∙◌, true, false, arith, ◌==◌}
use mathlib.Core.Path.{subst}
use native.Mathlib.Decide.{ℕ_discrete, dec_lt}
use p2b.Fs.{bsize, Disk}
use p2b.Fs.Inode.{ndirect, max_file, Inode, get_word, set_block}
use p2b.Fs.Inode.Read.{block_at, file_byte}
use p2b.Fs.Inode.Blocks.{IsOwn, ref_at, IsFile, ref_at-block, byte_in}
use p2b.Fs.Inode.Map.{block_at-low, block_at-none, block_at-table}
use p2b.Fs.Inode.Indirect.{set_block-IsBitmap, set_block-IsOwn, free_same}

-- Block `b`, that reference `r` is to, gets the bytes `f`; it is not the table of indirect blocks.
module _ (ip : Inode) (d : Disk) (file : IsFile ip d) (r : ℕ) (small_r : r < 142)
    (no_table : r ≢ max_file) (b : ℕ) (is_ref : ref_at r ip d ≡ b) (positive : b ≢ 0) (f : ℕ → ℕ)
    (bytes : (i : ℕ) → f i < 256) where
  pub own : IsOwn d b
  own = subst (IsOwn d) is_ref (file.refs r small_r (λ z. positive (sym is_ref ∙ z)))

  -- Another reference is to another block.
  other_block : (j : ℕ) → j < 142 → j ≢ r → ref_at j ip d ≢ 0 → b ≢ ref_at j ip d
  other_block j lt ne nz e = ne (file.apart j r lt small_r nz (sym (is_ref ∙ e)))

  bytes_kept : (c i : ℕ) → b ≢ c → (set_block d b f).bytes c i ≡ d.bytes c i
  bytes_kept c i ne = let other : (b == c) ≡ false = ground arith in rw other refl

  block_kept : (j : ℕ) → block_at j ip (set_block d b f) ≡ block_at j ip d
  block_kept j = elim (dec_lt j ndirect) [
    | yes low ↦ block_at-low j ip (set_block d b f) low ∙ sym (block_at-low j ip d low)
    | no high ↦ elim (ℕ_discrete (ip.addrs ndirect) 0) [
      | yes z ↦
          block_at-none j ip (set_block d b f) (omega arith) z
          ∙ sym (block_at-none j ip d (omega arith) z)
      | no nz ↦
          block_at-table j ip (set_block d b f) (omega arith) nz
          ∙ word_kept (4 * (j - ndirect)) nz
          ∙ sym (block_at-table j ip d (omega arith) nz)
    ]
  ]
    where
      word_kept :
          (p : ℕ)
          → ip.addrs ndirect ≢ 0
          → get_word ((set_block d b f).bytes (ip.addrs ndirect)) p
            ≡ get_word (d.bytes (ip.addrs ndirect)) p
      word_kept p nz =
          let other : (b == ip.addrs ndirect) ≡ false =
            ground (arith, other_block max_file (omega arith) (λ e. no_table (sym e)) nz) in
          rw other refl

  pub ref_kept : (j : ℕ) → j < 142 → ref_at j ip (set_block d b f) ≡ ref_at j ip d
  ref_kept j lt = elim (ℕ_discrete j 141) [
    | yes e ↦ subst (λ i. ref_at i ip (set_block d b f) ≡ ref_at i ip d) (sym e) refl
    | no ne ↦ elim (ℕ_discrete j max_file) [
      | yes e ↦ subst (λ i. ref_at i ip (set_block d b f) ≡ ref_at i ip d) (sym e) refl
      | no nt ↦
          ref_at-block j ip (set_block d b f) (omega arith)
          ∙ block_kept j
          ∙ sym (ref_at-block j ip d (omega arith))
    ]
  ]

  pub set_block-IsFile : IsFile ip (set_block d b f)
  set_block-IsFile = record {
    bitmap = set_block-IsBitmap d file.bitmap b own f bytes;
    origin = free_same d file.bitmap b own f bytes 0 file.nonempty ∙ file.origin;
    nonempty = file.nonempty;
    fits = file.fits;
    home = file.home;
    refs = λ j lt nz. subst (IsOwn (set_block d b f)) (sym (ref_kept j lt)) (
        set_block-IsOwn d file.bitmap b own f bytes (ref_at j ip d)
          (file.refs j lt (λ z. nz (ref_kept j lt ∙ z))));
    apart = λ i j hi hj nz e.
        file.apart i j hi hj (λ z. nz (ref_kept i hi ∙ z))
          (sym (ref_kept i hi) ∙ e ∙ ref_kept j hj);
  }

  -- The bytes of the file in that block are now those of `f`, and the others are as before.
  pub byte_here :
      (k : ℕ) → k / bsize ≡ r → r < max_file → file_byte k ip (set_block d b f) ≡ f (k % bsize)
  byte_here k e low =
      let block : block_at (k / bsize) ip (set_block d b f) ≡ b =
        block_kept (k / bsize)
        ∙ ap (λ j. block_at j ip d) e
        ∙ sym (ref_at-block r ip d low)
        ∙ is_ref in
      let there : (b == 0) ≡ false = ground arith in
      let same : (b == b) ≡ true = ground arith in
      ap (λ c. byte_in c (set_block d b f) (k % bsize)) block ∙ rw (there, same) refl

  pub byte_kept :
      (k : ℕ)
      → k / bsize < max_file
      → k / bsize ≢ r
      → file_byte k ip (set_block d b f) ≡ file_byte k ip d
  byte_kept k lt ne =
      ap (λ c. byte_in c (set_block d b f) (k % bsize)) (block_kept (k / bsize))
      ∙ elim (ℕ_discrete (block_at (k / bsize) ip d) 0) [
        | yes z ↦
            let zero_now : (block_at (k / bsize) ip d == 0) ≡ true = ground arith in
            rw zero_now refl
        | no nz ↦
            let is_block = ref_at-block (k / bsize) ip d lt in
            let there : (block_at (k / bsize) ip d == 0) ≡ false = ground arith in
            rw there (
              bytes_kept (block_at (k / bsize) ip d) (k % bsize) (λ e.
                other_block (k / bsize) (omega arith) ne (λ z. nz (sym is_block ∙ z))
                  (e ∙ sym is_block)))
      ]
