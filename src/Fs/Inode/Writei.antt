-- ===== src/Fs/Inode/Writei.antt =====
-- `writei` of fs.c as a whole.
use p2b.Prelude.{
  ℕ, zero, suc, ◌+◌, ◌-◌, ◌*◌, ◌/◌, ◌%◌, ◌^◌, ◌<◌, ◌≤◌, ◌≡◌, ◌≢◌, refl, sym, ap, ◌∙◌, ◌⊎◌, inl, inr,
  true, false, ◌||◌, some, arith, ◌==◌, ltb, if◌then◌else◌, Bool-cases,
}
use mathlib.Core.Path.{subst}
use native.Mathlib.Decide.{dec_lt}
use p2b.Fs.{bsize, Disk}
use p2b.Fs.Inode.{max_file, t_dev, minus_one, Inode, Access, Device, chunk, write_loop, writei}
use p2b.Fs.Inode.Read.{file_byte}
use p2b.Fs.Inode.Blocks.{IsFile}
use p2b.Fs.Inode.Room.{IsRoom}
use p2b.Fs.Inode.Map.{IsBlockOf}
use p2b.Fs.Inode.Bmap.{bmap_lem}
use p2b.Fs.Inode.Write.{
  AreBytes, IsWritten, after_round, chunk_bounds, round-IsFile, round-IsRoom, round-hit, round-miss,
  write_loop-step,
}
use p2b.Fs.Inode.Grow.{IsStored, grow_lem}

-- The blocks that a write touches.
abbrev pub blocks_of : (off n : ℕ) → ℕ
blocks_of off n = if n == 0 then 0 else (off % bsize + n + 511) / bsize

IsWritten-none : (off src : ℕ) (a : Access) → IsFile a.inode a.disk → IsWritten 0 off src a a
IsWritten-none off src a file = record {
  file = file;
  mem = refl;
  hit = λ j lt. absurd (omega arith);
  miss = λ k lt out. refl;
  fields = refl;
}

module _ (left off src : ℕ) (a : Access) (mem : AreBytes a.mem)
    (fits : off + left ≤ max_file * bsize) (some_left : (left == 0) ≡ false) (b : ℕ) (ip : Inode)
    (d : Disk) (found : IsBlockOf (off / bsize) b a.inode a.disk ip d) where
  bounds : (0 < chunk left off) × (chunk left off ≤ left) × (chunk left off ≤ bsize - off % bsize)
  bounds = chunk_bounds left off src a mem fits some_left b ip d found

  IsWritten-step :
      (a' : Access)
      → IsWritten
          (left - chunk left off)
          (off + chunk left off)
          (src + chunk left off)
          (after_round left off src a mem fits some_left b ip d found)
          a'
      → IsWritten left off src a a'
  IsWritten-step a' w = record {
    file = w.file;
    mem = w.mem;
    hit = λ j lt. elim (dec_lt j (chunk left off)) [
      | yes now ↦
          w.miss (off + j) (omega (arith, bounds.2)) (inl (omega arith))
          ∙ round-hit left off src a mem fits some_left b ip d found j now
      | no later ↦
          let e : off + chunk left off + (j - chunk left off) ≡ off + j = omega arith in
          let f : src + chunk left off + (j - chunk left off) ≡ src + j = omega arith in
          subst (λ k. file_byte k a'.inode a'.disk ≡ a.mem (src + j)) e
            (w.hit (j - chunk left off) (omega arith) ∙ ap a.mem f)
    ];
    miss = λ k lt out.
        w.miss k lt (later k out)
        ∙ round-miss left off src a mem fits some_left b ip d found k lt (now k out);
    fields = w.fields ∙ ap with_addrs found.fields;
  }
    where
      with_addrs : Inode → Inode
      with_addrs i = record i { addrs = a'.inode.addrs }

      later :
          (k : ℕ)
          → (k < off) ⊎ (off + left ≤ k)
          → (k < off + chunk left off) ⊎ (off + chunk left off + (left - chunk left off) ≤ k)
      later k (inl below) = inl (omega arith)
      later k (inr above) = inr (omega (arith, bounds.1))

      now : (k : ℕ) → (k < off) ⊎ (off + left ≤ k) → (k < off) ⊎ (off + chunk left off ≤ k)
      now k (inl below) = inl below
      now k (inr above) = inr (omega (arith, bounds.1))

  fewer_blocks :
      (q : ℕ)
      → blocks_of off left ≤ suc q
      → blocks_of (off + chunk left off) (left - chunk left off) ≤ q
  fewer_blocks q le =
      let some_blocks : (off % bsize + left + 511) / bsize ≤ suc q = rw some_left at le in
      elim (Bool-cases (left - chunk left off == 0)) [
        | inl done ↦ rw done (omega arith)
        | inr more ↦
            let to_end : chunk left off ≡ bsize - off % bsize = ground arith in
            rw (more, to_end) (omega (arith, some_blocks))
      ]

write_loop-none :
    (rounds left off src : ℕ) (a : Access)
    → left ≡ 0
    → IsFile a.inode a.disk
    → write_loop rounds left off src a ≡ some (off, a)
    → (a' : Access) × (write_loop rounds left off src a ≡ some (off + left, a'))
      × IsWritten left off src a a'
write_loop-none rounds left off src a z file e =
    let end : off ≡ off + left = omega arith in
    (
      a,
      e ∙ ap (λ o. some (o, a)) end,
      subst (λ n. IsWritten n off src a a) (sym z) (IsWritten-none off src a file),
    )

write_loop_lem :
    (rounds q left off src : ℕ) (a : Access)
    → left ≤ rounds
    → off + left ≤ max_file * bsize
    → AreBytes a.mem
    → IsFile a.inode a.disk
    → blocks_of off left ≤ q
    → IsRoom (2 * q) a.disk
    → (a' : Access) × (write_loop rounds left off src a ≡ some (off + left, a'))
      × IsWritten left off src a a'
unfolding write_loop
write_loop_lem zero q left off src a enough fits mem file few room =
    let z : left ≡ 0 = omega arith in write_loop-none zero left off src a z file refl
write_loop_lem (suc rounds) q left off src a enough fits mem file few room =
    elim (Bool-cases (left == 0)) [
      | inl done ↦
          let z : left ≡ 0 = ground arith in
          write_loop-none (suc rounds) left off src a z file (rw (done, write_loop) refl)
      | inr more ↦
          let positive : 0 < q = some_blocks more in
          let room2 : IsRoom (suc (suc (2 * (q - 1)))) a.disk =
            subst (λ n. IsRoom n a.disk)
              (let e : 2 * q ≡ suc (suc (2 * (q - 1))) = omega arith in e) room in
          let (b, ip, d, e, found, room1) =
            bmap_lem (2 * (q - 1)) (off / bsize) a.inode a.disk (below more) file room2 in
          let few1 : blocks_of off left ≤ suc (q - 1) = omega arith in
          let (a', e', w) =
            write_loop_lem rounds (q - 1) (left - chunk left off) (off + chunk left off)
              (src + chunk left off) (after_round left off src a mem fits more b ip d found)
              (omega (arith, (bounds left off src a mem fits more b ip d found).0))
              (omega (arith, (bounds left off src a mem fits more b ip d found).1)) mem
              (round-IsFile left off src a mem fits more b ip d found)
              (fewer_blocks left off src a mem fits more b ip d found (q - 1) few1)
              (round-IsRoom left off src a mem fits more b ip d found (2 * (q - 1)) room1) in
          let end : off + chunk left off + (left - chunk left off) ≡ off + left =
            omega (arith, (bounds left off src a mem fits more b ip d found).1) in
          (
            a',
            write_loop-step left off src a mem fits more b ip d found rounds e
                ∙ e'
                ∙ ap (λ o. some (o, a')) end,
            IsWritten-step left off src a mem fits more b ip d found a' w,
          )
    ]
  where
    some_blocks : (left == 0) ≡ false → 0 < q
    some_blocks more =
        let le : (off % bsize + left + 511) / bsize ≤ q = rw more at few in ground arith

    below : (left == 0) ≡ false → off / bsize < max_file
    below more = let pos : 0 < left = ground arith in omega arith

-- Let the inode be no device, the blocks that it refers to be in use and different, memory hold bytes,
-- and two blocks be free for each block that the write touches. If the offset lies beyond the end of
-- the file, or the range wraps or goes beyond the largest file, `writei` returns -1 and changes
-- nothing. Else it returns `n`: the bytes of the file in the range are those of memory, all others,
-- those of blocks that it did not have counting as 0, are as before, the file has grown to the end of
-- the range if it was shorter, and the inode is well formed again.
pub writei_lem :
    (devsw : ℕ → Device) (src off n : ℕ) (a : Access)
    → a.inode.itype ≢ t_dev
    → off < 2 ^ 32
    → n < 2 ^ 32
    → AreBytes a.mem
    → IsFile a.inode a.disk
    → IsRoom (2 * blocks_of off n) a.disk
    → (((a.inode.size < off) ⊎ (max_file * bsize < off + n))
        × (writei devsw src off n a ≡ some (minus_one, a)))
      ⊎ ((off ≤ a.inode.size)
          × (off + n ≤ max_file * bsize)
          × ((a' : Access) × (writei devsw src off n a ≡ some (n, a')) × IsStored n off src a a'))
unfolding writei
writei_lem devsw src off n a regular fits_off fits_n mem file room =
    elim (Bool-cases (ltb a.inode.size off || ltb ((off + n) % 2 ^ 32) off)) [
      | inl bad ↦ inl (outside bad, rw (no_device, bad, writei) refl)
      | inr good ↦
          let start : off ≤ a.inode.size = ground arith in
          let no_wrap : off ≤ (off + n) % 2 ^ 32 = ground arith in
          let exact : (off + n) % 2 ^ 32 ≡ off + n = omega arith in
          elim (dec_lt (max_file * bsize) (off + n)) [
            | yes large ↦
                let test : ltb (max_file * bsize) ((off + n) % 2 ^ 32) ≡ true = ground arith in
                inl (inr large, rw (no_device, good, test, writei) refl)
            | no small ↦
                let test : ltb (max_file * bsize) ((off + n) % 2 ^ 32) ≡ false = ground arith in
                let (a1, e, w) =
                  write_loop_lem n (blocks_of off n) n off src a (omega arith) (omega arith) mem
                    file (omega arith) room in
                let (a', e', s) = grow_lem n off src a a1 start (omega arith) w in
                inr (start, omega arith, (a', rw (no_device, good, test, e, writei) e', s))
          ]
    ]
  where
    no_device : (a.inode.itype == t_dev) ≡ false
    no_device = ground arith

    outside :
        (ltb a.inode.size off || ltb ((off + n) % 2 ^ 32) off) ≡ true
        → (a.inode.size < off) ⊎ (max_file * bsize < off + n)
    outside bad = elim (dec_lt a.inode.size off) [
      | yes beyond ↦ inl beyond
      | no inside ↦ inr (let wraps : (off + n) % 2 ^ 32 < off = ground arith in omega arith)
    ]
