-- ===== src/Fs/Cache/Itrunc.antt =====
-- `itrunc` of fs.c: its loops and the write of the inode, put together.
use p2b.Prelude.{
  ℕ, ◌+◌, ◌*◌, ◌/◌, ◌<◌, ◌≡◌, ◌≢◌, refl, sym, ap, ◌∙◌, inr, true, false, some, arith, ◌==◌, update,
}
use mathlib.Core.Path.{subst}
use native.Mathlib.Decide.{ℕ_discrete}
use p2b.Fs.{Disk, bfree}
use p2b.Fs.Inode.{
  Inode, ndirect, nindirect, get_word, inode_block, iupdate, inode_offset, put_dinode,
}
use p2b.Fs.Inode.Blocks.{IsOwn, IsFile}
use p2b.Fs.Inode.Indirect.{set_block-IsBitmap, free_same}
use p2b.Fs.Inode.Grow.{put_dinode_bytes}
use p2b.Fs.Cache.{free_direct, free_entries, free_indirect, itrunc}
use p2b.Fs.Cache.Truncate.{among, IsCleared, bfree-IsOwn, free_direct_lem}
use p2b.Fs.Cache.Emptied.{
  IsRefTo, IsEmptied, AreOwn-direct, IsOwn-table, table_out, freed_rest, IsEmptied-direct,
  IsEmptied-table, home_kept, home_left, not_entry, ref_below,
}

iupdate-IsEmptied :
    (ip iq : Inode) (d d' : Disk)
    → IsEmptied ip d d'
    → IsOwn d' (inode_block d' iq.inum)
    → ((c : ℕ) → IsRefTo ip d c → c < d.sb.size)
    → IsEmptied ip d (iupdate iq d')
unfolding iupdate
iupdate-IsEmptied ip iq d d' e own below = record {
  bitmap = set_block-IsBitmap d' e.bitmap (inode_block d' iq.inum) own bytes small;
  sb = e.sb;
  freed = λ c (j, lt, nz, q).
      free_same d' e.bitmap (inode_block d' iq.inum) own bytes small c
        (subst (λ s. c < s.size) (sym e.sb) (below c (j, lt, nz, q)))
      ∙ e.freed c (j, lt, nz, q);
  kept = λ c lt out.
      free_same d' e.bitmap (inode_block d' iq.inum) own bytes small c
        (subst (λ s. c < s.size) (sym e.sb) lt)
      ∙ e.kept c lt out;
}
  where
    bytes : ℕ → ℕ
    bytes = put_dinode (inode_offset iq.inum) iq (d'.bytes (inode_block d' iq.inum))

    small :
        (i : ℕ) → put_dinode (inode_offset iq.inum) iq (d'.bytes (inode_block d' iq.inum)) i < 256
    small =
        put_dinode_bytes (inode_offset iq.inum) iq (d'.bytes (inode_block d' iq.inum))
          (e.bitmap.bytes (inode_block d' iq.inum))

not_zero : (v : ℕ) → v ≢ 0 → (v == 0) ≡ false
not_zero v nz = ground arith

free_indirect-none :
    (ip : Inode) (d : Disk) → ip.addrs ndirect ≡ 0 → free_indirect ip d ≡ some (ip, d)
unfolding free_indirect
free_indirect-none ip d z =
    let none_there : (ip.addrs ndirect == 0) ≡ true = ground arith in
    rw (none_there, free_indirect) refl

free_indirect-some :
    (ip : Inode) (d d2 d3 : Disk)
    → ip.addrs ndirect ≢ 0
    → free_entries nindirect 0 (ip.addrs ndirect) d ≡ some d2
    → bfree (ip.addrs ndirect) d2 ≡ some d3
    → free_indirect ip d ≡ some (record ip { addrs = update ip.addrs ndirect 0 }, d3)
unfolding free_indirect
free_indirect-some ip d d2 d3 nz e f =
    let there = not_zero (ip.addrs ndirect) nz in rw (there, e, f, free_indirect) refl

itrunc-steps :
    (ip ip1 ip2 : Inode) (d d1 d2 : Disk)
    → free_direct ndirect 0 ip d ≡ some (ip1, d1)
    → free_indirect ip1 d1 ≡ some (ip2, d2)
    → itrunc ip d ≡ some (record ip2 { size = 0 }, iupdate (record ip2 { size = 0 }) d2)
unfolding itrunc
itrunc-steps ip ip1 ip2 d d1 d2 e f = rw (e, f, itrunc) refl

-- The inode is left without blocks.
pub record IsTruncated (ip : Inode) (d : Disk) (ip' : Inode) (d' : Disk) : Type 0 where
  pub blocks : IsEmptied ip d d'
  pub addrs : (j : ℕ) → j < 13 → ip'.addrs j ≡ 0
  pub size : ip'.size ≡ 0
  pub fields : ip' ≡ record ip { addrs = ip'.addrs; size = 0 }

-- After the second loop, with `ip2` for the inode and `d3` for the disk.
IsTruncated-iupdate :
    (ip ip1 ip2 : Inode) (d d1 d3 : Disk)
    → IsCleared 12 0 ip ip1
    → ip2 ≡ record ip1 { addrs = ip2.addrs }
    → ((j : ℕ) → j < 12 → ip2.addrs j ≡ ip1.addrs j)
    → ip2.addrs ndirect ≡ 0
    → IsEmptied ip d d3
    → IsOwn d3 (inode_block d ip.inum)
    → ((c : ℕ) → IsRefTo ip d c → c < d.sb.size)
    → IsTruncated ip d (record ip2 { size = 0 }) (iupdate (record ip2 { size = 0 }) d3)
IsTruncated-iupdate ip ip1 ip2 d d1 d3 k fields direct table e own below = record {
  blocks = iupdate-IsEmptied ip (record ip2 { size = 0 }) d d3 e (subst (IsOwn d3) home own) below;
  addrs = λ j lt. elim (ℕ_discrete j ndirect) [
    | yes t ↦ ap ip2.addrs t ∙ table
    | no nt ↦ direct j (omega arith) ∙ k.cleared j (omega arith) (omega arith)
  ];
  size = refl;
  fields = ap sized (fields ∙ ap with_addrs k.fields);
}
  where
    sized : Inode → Inode
    sized i = record i { size = 0 }

    with_addrs : Inode → Inode
    with_addrs i = record i { addrs = ip2.addrs }

    same_inum : ip2.inum ≡ ip.inum
    same_inum = ap (λ i. i.inum) fields ∙ ap (λ i. i.inum) k.fields

    home : inode_block d ip.inum ≡ inode_block d3 ip2.inum
    home =
        ap (λ n. inode_block d n) (sym same_inum) ∙ ap (λ s. ip2.inum / 8 + s.inodestart) (sym e.sb)

-- `itrunc` of an inode whose blocks are in use and different does not panic: the blocks that it refers
-- to, the table of indirect blocks included, are free then, every other block is free just when it was
-- before, and the inode has no blocks and the size 0.
pub itrunc_lem :
    (ip : Inode) (d : Disk)
    → IsFile ip d
    → (ip' : Inode) × (d' : Disk) × (itrunc ip d ≡ some (ip', d')) × IsTruncated ip d ip' d'
itrunc_lem ip d file =
    let (ip1, d1, e1, f, k) =
      free_direct_lem 12 0 ip.addrs ip d file.bitmap (AreOwn-direct ip d file) (λ j _. refl) in
    let same : ip1.addrs ndirect ≡ ip.addrs ndirect = k.rest ndirect (inr (omega arith)) in
    elim (ℕ_discrete (ip.addrs ndirect) 0) [
      | yes z ↦ (
        record ip1 { size = 0 },
        iupdate (record ip1 { size = 0 }) d1,
        itrunc-steps ip ip1 ip1 d d1 d1 e1 (free_indirect-none ip1 d1 (same ∙ z)),
        IsTruncated-iupdate ip ip1 ip1 d d1 d1 k refl (λ j _. refl) (same ∙ z)
            (IsEmptied-direct ip d file d1 f z) (home_kept ip d file d1 f)
            (ref_below ip d file d1 f),
      )
      | no nz ↦
          let (d2, e2, f2) = freed_rest ip d file d1 f nz in
          let own2 =
            f2.keeps (ip.addrs ndirect)
              (f.keeps (ip.addrs ndirect) (IsOwn-table ip d file d1 f nz)
                (table_out ip d file d1 f nz))
              (table_not_entry nz) in
          let (d3, e3, o) = bfree-IsOwn (ip.addrs ndirect) d2 f2.bitmap own2 in
          let ip2 : Inode = record ip1 { addrs = update ip1.addrs ndirect 0 } in
          (
            record ip2 { size = 0 },
            iupdate (record ip2 { size = 0 }) d3,
            itrunc-steps ip ip1 ip2 d d1 d3 e1 (
                free_indirect-some ip1 d1 d2 d3 (λ z. nz (sym same ∙ z))
                  (ap (λ t. free_entries nindirect 0 t d1) same ∙ e2)
                  (ap (λ t. bfree t d2) same ∙ e3)),
            IsTruncated-iupdate ip ip1 ip2 d d1 d3 k refl (λ j lt. below_table ip1 j lt) refl
                (IsEmptied-table ip d file d1 f nz d2 f2 d3 o)
                (home_left ip d file d1 f nz d2 f2 d3 o) (ref_below ip d file d1 f),
          )
    ]
  where
    table_not_entry :
        ip.addrs ndirect ≢ 0
        → among (λ j. get_word (d.bytes (ip.addrs ndirect)) (4 * j)) 128 0 (ip.addrs ndirect)
          ≡ false
    table_not_entry nz =
        not_entry ip d file 140 (ip.addrs ndirect) (omega arith) (omega arith) refl nz nz

    below_table : (iq : Inode) (j : ℕ) → j < 12 → update iq.addrs ndirect 0 j ≡ iq.addrs j
    below_table iq j lt = let miss : (ndirect == j) ≡ false = ground arith in rw miss refl
