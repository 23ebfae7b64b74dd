-- ===== src/Fs/Inode/Bmap.antt =====
-- `bmap` of fs.c as a whole.
use p2b.Prelude.{
  ℕ, suc, ◌+◌, ◌-◌, ◌*◌, ◌<◌, ◌≡◌, ◌≢◌, refl, sym, ap, ◌∙◌, true, false, Option, some, arith, ◌==◌,
  ltb,
}
use mathlib.Core.Path.{subst}
use native.Mathlib.Decide.{ℕ_discrete, dec_lt}
use p2b.Fs.{Disk, balloc}
use p2b.Fs.Inode.{
  ndirect, nindirect, max_file, Inode, get_word, put_word, set_block, indirect, bmap,
}
use p2b.Fs.Inode.Blocks.{ref_at, IsFile, Allocated-IsFresh, ref_at-block}
use p2b.Fs.Inode.Room.{IsRoom, IsRoom-Allocated, IsRoom-less, balloc-IsRoom}
use p2b.Fs.Inode.Map.{IsBlockOf, IsBlockOf-here, block_at-table, ref_of, slot_lem}
use p2b.Fs.Inode.Indirect.{set_block-IsRoom, indirect-new, stored, IsOwn-table, small_entries}

indirect-old :
    (x : ℕ) (ip : Inode) (d : Disk) (t : ℕ)
    → get_word (d.bytes t) (4 * x) ≢ 0
    → indirect x (some (t, ip, d)) ≡ some (get_word (d.bytes t) (4 * x), ip, d)
unfolding indirect
indirect-old x ip d t nz =
    let there : (get_word (d.bytes t) (4 * x) == 0) ≡ false = ground arith in
    rw (there, indirect) refl

indirect-alloc :
    (x : ℕ) (ip : Inode) (d : Disk) (t b : ℕ) (d' : Disk)
    → get_word (d.bytes t) (4 * x) ≡ 0
    → balloc d ≡ some (b, d')
    → indirect x (some (t, ip, d)) ≡ some (b, ip, set_block d' t (put_word (4 * x) b (d'.bytes t)))
unfolding indirect
indirect-alloc x ip d t b d' z e =
    let missing : (get_word (d.bytes t) (4 * x) == 0) ≡ true = ground arith in
    rw (missing, e, indirect) refl

-- What a call of `bmap` comes to, with room for `q` more blocks after it.
abbrev pub Finds : (q r : ℕ) (ip : Inode) (d : Disk) → Option (ℕ × Inode × Disk) → Type 0
Finds q r ip d result =
    (b : ℕ) × (ip' : Inode) × (d' : Disk) × (result ≡ some (b, ip', d'))
    × IsBlockOf r b ip d ip' d'
    × IsRoom q d'

indirect_lem :
    (q x : ℕ) (ip : Inode) (d : Disk)
    → x < nindirect
    → IsFile ip d
    → ip.addrs ndirect ≢ 0
    → IsRoom (suc q) d
    → Finds q (x + ndirect) ip d (indirect x (some (ip.addrs ndirect, ip, d)))
indirect_lem q x ip d lt file table room =
    elim (ℕ_discrete (get_word (d.bytes (ip.addrs ndirect)) (4 * x)) 0) [
      | yes z ↦
          let (b, d', e, al) = balloc-IsRoom d file.bitmap (record {
            pick = room.pick;
            below = λ i lt. room.below i (omega arith);
            free = λ i lt. room.free i (omega arith);
            different = λ i j hi hj e. room.different i j (omega arith) (omega arith) e;
          }) in
          let fresh = Allocated-IsFresh d b d' file.bitmap file.origin file.nonempty al in
          (
            b,
            ip,
            stored x lt ip d file table z b d' al,
            indirect-alloc x ip d (ip.addrs ndirect) b d' z e,
            indirect-new x lt ip d file table z b d' al,
            set_block-IsRoom d' al.bitmap (ip.addrs ndirect)
                (fresh.keeps (ip.addrs ndirect) (IsOwn-table x lt ip d file table z b d' al))
                (put_word (4 * x) b (d'.bytes (ip.addrs ndirect)))
                (small_entries x lt ip d file table z b d' al) q
                (IsRoom-Allocated q d b room d' al),
          )
      | no nz ↦ (
        get_word (d.bytes (ip.addrs ndirect)) (4 * x),
        ip,
        d,
        indirect-old x ip d (ip.addrs ndirect) nz,
        subst (λ r. IsBlockOf (x + ndirect) r ip d ip d) here
            (IsBlockOf-here (x + ndirect) ip d file (λ z. nz (sym here ∙ z))),
        IsRoom-less q d room,
      )
    ]
  where
    here : ref_at (x + ndirect) ip d ≡ get_word (d.bytes (ip.addrs ndirect)) (4 * x)
    here =
        let index : x + ndirect - ndirect ≡ x = omega arith in
        ref_at-block (x + ndirect) ip d (omega arith)
        ∙ block_at-table (x + ndirect) ip d (omega arith) table
        ∙ ap (λ y. get_word (d.bytes (ip.addrs ndirect)) (4 * y)) index

-- One call after another: the first may give the file its table of indirect blocks.
IsBlockOf-trans :
    (r s b c : ℕ) (ip : Inode) (d : Disk) (ip1 : Inode) (d1 : Disk) (ip2 : Inode) (d2 : Disk)
    → IsBlockOf r b ip d ip1 d1
    → IsBlockOf s c ip1 d1 ip2 d2
    → IsBlockOf s c ip d ip2 d2
IsBlockOf-trans r s b c ip d ip1 d1 ip2 d2 f g = record {
  file = g.file;
  block = g.block;
  positive = g.positive;
  same = λ k lt. g.same k lt ∙ f.same k lt;
  fields = g.fields ∙ ap with_addrs f.fields;
  sb = g.sb ∙ f.sb;
}
  where
    with_addrs : Inode → Inode
    with_addrs i = record i { addrs = ip2.addrs }

-- Let the blocks that the inode refers to be in use and different, and two blocks be free. Then `bmap`
-- of a block number below the limit does not panic: it finds the block, or allocates it and perhaps the
-- table of indirect blocks; the inode stays well formed, and no byte of the file changes, where a
-- block that the file does not have counts as 0.
pub bmap_lem :
    (q bn : ℕ) (ip : Inode) (d : Disk)
    → bn < max_file
    → IsFile ip d
    → IsRoom (suc (suc q)) d
    → Finds q bn ip d (bmap bn ip d)
unfolding bmap
bmap_lem q bn ip d lt file room = elim (dec_lt bn ndirect) [
  | yes low ↦
      let (b, ip', d', e, f, r) = slot_lem (suc q) bn ip d (omega arith) file room in
      let is_low : ltb bn ndirect ≡ true = ground arith in
      let index : ref_of bn ≡ bn = ground arith in
      (
        b,
        ip',
        d',
        rw (is_low, bmap) e,
        subst (λ j. IsBlockOf j b ip d ip' d') index f,
        IsRoom-less q d' r,
      )
  | no high ↦
      let (t, ip1, d1, e, f, r) = slot_lem (suc q) ndirect ip d (omega arith) file room in
      let is_high : ltb bn ndirect ≡ false = ground arith in
      let inside : ltb (bn - ndirect) nindirect ≡ true = ground arith in
      let table : ip1.addrs ndirect ≢ 0 = λ z. f.positive (sym f.block ∙ z) in
      let (b, ip2, d2, e2, g, r2) =
        indirect_lem q (bn - ndirect) ip1 d1 (omega arith) f.file table r in
      let index : bn - ndirect + ndirect ≡ bn = omega arith in
      (
        b,
        ip2,
        d2,
        rw (is_high, inside, e, bmap)
            (ap (λ v. indirect (bn - ndirect) (some (v, ip1, d1))) (sym f.block) ∙ e2),
        subst (λ j. IsBlockOf j b ip d ip2 d2) index
            (IsBlockOf-trans max_file (bn - ndirect + ndirect) t b ip d ip1 d1 ip2 d2 f g),
        r2,
      )
]
