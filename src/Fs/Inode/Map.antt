-- ===== src/Fs/Inode/Map.antt =====
-- `bmap` of fs.c: the references of the inode itself to blocks that the file does not have yet.
use p2b.Prelude.{
  ℕ, suc, ◌+◌, ◌-◌, ◌*◌, ◌/◌, ◌<◌, ◌≤◌, ◌≡◌, ◌≢◌, refl, sym, ap, ◌∙◌, true, false, some, arith,
  ◌==◌, ltb, if◌then◌else◌, update,
}
use mathlib.Core.Path.{subst}
use native.Mathlib.Decide.{ℕ_discrete, dec_lt}
use p2b.Fs.{bsize, Disk, balloc}
use p2b.Fs.Bitmap.{Allocated}
use p2b.Fs.Inode.{ndirect, max_file, Inode, get_word, slot}
use p2b.Fs.Inode.Read.{block_at, file_byte}
use p2b.Fs.Inode.Room.{IsRoom, IsRoom-Allocated, IsRoom-less, balloc-IsRoom}
use p2b.Fs.Inode.Blocks.{
  IsOwn, ref_at, IsFile, IsFresh, Allocated-IsFresh, IsRefAdded, IsFile-added, bytes-added,
  ref_at-block,
}

-- What `bmap` of block `bn` comes to: the block is `b`, and the bytes of the file are as before.
pub record IsBlockOf (r b : ℕ) (ip : Inode) (d : Disk) (ip' : Inode) (d' : Disk) : Type 0 where
  pub file : IsFile ip' d'
  pub block : ref_at r ip' d' ≡ b
  pub positive : b ≢ 0
  pub same : (k : ℕ) → k / bsize < max_file → file_byte k ip' d' ≡ file_byte k ip d
  pub fields : ip' ≡ record ip { addrs = ip'.addrs }
  pub sb : d'.sb ≡ d.sb

-- The bytes of the blocks in use stay.
pub Allocated-bytes :
    (d : Disk) (b : ℕ) (d' : Disk)
    → Allocated d b d'
    → (c i : ℕ) → IsOwn d c
    → c ≢ b
    → d'.bytes c i ≡ d.bytes c i
Allocated-bytes d b d' al c i own ne = al.others c i ne (λ e. own.off_bitmap b al.below (sym e))

pub block_at-low : (j : ℕ) (ip : Inode) (d : Disk) → j < ndirect → block_at j ip d ≡ ip.addrs j
block_at-low j ip d lt = let low : ltb j ndirect ≡ true = ground arith in rw low refl

pub block_at-none :
    (j : ℕ) (ip : Inode) (d : Disk) → ndirect ≤ j → ip.addrs ndirect ≡ 0 → block_at j ip d ≡ 0
block_at-none j ip d le z =
    let high : ltb j ndirect ≡ false = ground arith in
    let no_table : (ip.addrs ndirect == 0) ≡ true = ground arith in rw (high, no_table) refl

pub block_at-table :
    (j : ℕ) (ip : Inode) (d : Disk)
    → ndirect ≤ j
    → ip.addrs ndirect ≢ 0
    → block_at j ip d ≡ get_word (d.bytes (ip.addrs ndirect)) (4 * (j - ndirect))
block_at-table j ip d le nz =
    let high : ltb j ndirect ≡ false = ground arith in
    let table : (ip.addrs ndirect == 0) ≡ false = ground arith in rw (high, table) refl

-- The index of the reference that `slot x` sets.
abbrev pub ref_of : ℕ → ℕ
ref_of x = if x == ndirect then max_file else x

module _ (x : ℕ) (lt : x < 13) (ip : Inode) (d : Disk) (file : IsFile ip d) (b : ℕ) (d' : Disk)
    (al : Allocated d b d') (empty : ip.addrs x ≡ 0) where
  abbrev with_b : Inode
  with_b = record ip { addrs = update ip.addrs x b }

  fresh : IsFresh d b d'
  fresh = Allocated-IsFresh d b d' file.bitmap file.origin file.nonempty al

  word_kept : (t p : ℕ) → IsOwn d t → get_word (d'.bytes t) p ≡ get_word (d.bytes t) p
  word_kept t p own =
      let keep : (i : ℕ) → d'.bytes t i ≡ d.bytes t i =
        λ i. Allocated-bytes d b d' al t i own (fresh.new t own) in
      rw (keep p, keep (p + 1), keep (p + 2), keep (p + 3)) refl

  word_zero : (p : ℕ) → get_word (d'.bytes b) p ≡ 0
  word_zero p = rw (al.zeros p, al.zeros (p + 1), al.zeros (p + 2), al.zeros (p + 3)) refl

  Added : ℕ → Type 0
  Added j = ref_at j with_b d' ≡ (if j == ref_of x then b else ref_at j ip d)

  Added-home : Added 141
  unfolding Added
  Added-home =
      let other : (141 == ref_of x) ≡ false = ground arith in
      rw other (ap (λ s. ip.inum / 8 + s.inodestart) al.sb)

  Added-table : Added max_file
  unfolding Added
  Added-table = elim (ℕ_discrete x ndirect) [
    | yes e ↦
        let here : (max_file == ref_of x) ≡ true = ground arith in
        let hit : (x == ndirect) ≡ true = ground arith in rw (here, hit) refl
    | no ne ↦
        let other : (max_file == ref_of x) ≡ false = ground arith in
        let miss : (x == ndirect) ≡ false = ground arith in rw (other, miss) refl
  ]

  Added-low : (j : ℕ) → j < ndirect → Added j
  unfolding Added
  Added-low j low =
      ref_at-block j with_b d' (omega arith)
      ∙ block_at-low j with_b d' low
      ∙ elim (ℕ_discrete j x) [
        | yes e ↦
            let here : (j == ref_of x) ≡ true = ground arith in
            let hit : (x == j) ≡ true = ground arith in rw (here, hit) refl
        | no ne ↦
            let other : (j == ref_of x) ≡ false = ground arith in
            let miss : (x == j) ≡ false = ground arith in
            rw (other, miss) (sym (ref_at-block j ip d (omega arith) ∙ block_at-low j ip d low))
      ]

  -- A new table of indirect blocks is all 0.
  new_table : x ≡ ndirect → (j : ℕ) → ndirect ≤ j → block_at j with_b d' ≡ block_at j ip d
  new_table e j high =
      let hit : (x == ndirect) ≡ true = ground arith in
      let table : with_b.addrs ndirect ≡ b = rw hit refl in
      block_at-table j with_b d' high (λ z. fresh.positive (sym table ∙ z))
      ∙ ap (λ t. get_word (d'.bytes t) (4 * (j - ndirect))) table
      ∙ word_zero (4 * (j - ndirect))
      ∙ sym (block_at-none j ip d high (ap ip.addrs (sym e) ∙ empty))

  old_table : x ≢ ndirect → (j : ℕ) → ndirect ≤ j → block_at j with_b d' ≡ block_at j ip d
  old_table ne j high =
      let miss : (x == ndirect) ≡ false = ground arith in
      let table : with_b.addrs ndirect ≡ ip.addrs ndirect = rw miss refl in
      elim (ℕ_discrete (ip.addrs ndirect) 0) [
        | yes z ↦ block_at-none j with_b d' high (table ∙ z) ∙ sym (block_at-none j ip d high z)
        | no nz ↦
            block_at-table j with_b d' high (λ z. nz (sym table ∙ z))
            ∙ ap (λ t. get_word (d'.bytes t) (4 * (j - ndirect))) table
            ∙ word_kept (ip.addrs ndirect) (4 * (j - ndirect)) (file.refs max_file (omega arith) nz)
            ∙ sym (block_at-table j ip d high nz)
      ]

  Added-high : (j : ℕ) → ndirect ≤ j → j < max_file → Added j
  unfolding Added
  Added-high j high small =
      let other : (j == ref_of x) ≡ false = ground arith in
      let same : block_at j with_b d' ≡ block_at j ip d = elim (ℕ_discrete x ndirect) [
        | yes e ↦ new_table e j high
        | no ne ↦ old_table ne j high
      ] in
      rw other (ref_at-block j with_b d' small ∙ same ∙ sym (ref_at-block j ip d small))

  added : IsRefAdded (ref_of x) b ip d with_b d'
  unfolding Added
  added j small = elim (ℕ_discrete j 141) [
    | yes e ↦ subst Added (sym e) Added-home
    | no ne ↦ elim (ℕ_discrete j max_file) [
      | yes e ↦ subst Added (sym e) Added-table
      | no nt ↦ elim (dec_lt j ndirect) [
        | yes low ↦ Added-low j low
        | no high ↦ Added-high j (omega arith) (omega arith)
      ]
    ]
  ]

  was_empty : ref_at (ref_of x) ip d ≡ 0
  was_empty = elim (ℕ_discrete x ndirect) [
    | yes e ↦
        let hit : ref_of x ≡ max_file = ground arith in
        ap (λ j. ref_at j ip d) hit ∙ ap ip.addrs (sym e) ∙ empty
    | no ne ↦
        let hit : ref_of x ≡ x = ground arith in
        ap (λ j. ref_at j ip d) hit
        ∙ ref_at-block x ip d (omega arith)
        ∙ block_at-low x ip d (omega arith)
        ∙ empty
  ]

  slot-new : IsBlockOf (ref_of x) b ip d with_b d'
  slot-new = record {
    file = IsFile-added ip d file (ref_of x) b with_b d' fresh added was_empty (ground arith);
    block =
        added (ref_of x) (ground arith)
        ∙ (let eq : (ref_of x == ref_of x) ≡ true = ground arith in rw eq refl);
    positive = fresh.positive;
    same =
        bytes-added ip d file (ref_of x) b with_b d' fresh added was_empty (λ _. al.zeros)
          (λ c i own nt. Allocated-bytes d b d' al c i own (fresh.new c own));
    fields = refl;
    sb = al.sb;
  }

pub IsBlockOf-here :
    (r : ℕ) (ip : Inode) (d : Disk)
    → IsFile ip d
    → ref_at r ip d ≢ 0
    → IsBlockOf r (ref_at r ip d) ip d ip d
IsBlockOf-here r ip d file nz = record {
  file = file;
  block = refl;
  positive = nz;
  same = λ k lt. refl;
  fields = refl;
  sb = refl;
}

slot-old : (x : ℕ) (ip : Inode) (d : Disk) → ip.addrs x ≢ 0 → slot x ip d ≡ some (ip.addrs x, ip, d)
unfolding slot
slot-old x ip d nz = let there : (ip.addrs x == 0) ≡ false = ground arith in rw (there, slot) refl

slot-alloc :
    (x : ℕ) (ip : Inode) (d : Disk) (b : ℕ) (d' : Disk)
    → ip.addrs x ≡ 0
    → balloc d ≡ some (b, d')
    → slot x ip d ≡ some (b, record ip { addrs = update ip.addrs x b }, d')
unfolding slot
slot-alloc x ip d b d' z e =
    let missing : (ip.addrs x == 0) ≡ true = ground arith in rw (missing, e, slot) refl

ref_at-ref_of : (x : ℕ) (ip : Inode) (d : Disk) → x < 13 → ref_at (ref_of x) ip d ≡ ip.addrs x
ref_at-ref_of x ip d lt = elim (ℕ_discrete x ndirect) [
  | yes e ↦
      let hit : ref_of x ≡ max_file = ground arith in
      ap (λ j. ref_at j ip d) hit ∙ ap ip.addrs (sym e)
  | no ne ↦
      let hit : ref_of x ≡ x = ground arith in
      ap (λ j. ref_at j ip d) hit
      ∙ ref_at-block x ip d (omega arith)
      ∙ block_at-low x ip d (omega arith)
]

pub slot_lem :
    (q x : ℕ) (ip : Inode) (d : Disk)
    → x < 13
    → IsFile ip d
    → IsRoom (suc q) d
    → (b : ℕ) × (ip' : Inode) × (d' : Disk) × (slot x ip d ≡ some (b, ip', d'))
      × IsBlockOf (ref_of x) b ip d ip' d'
      × IsRoom q d'
slot_lem q x ip d lt file room = elim (ℕ_discrete (ip.addrs x) 0) [
  | yes z ↦
      let (b, d', e, al) = balloc-IsRoom d file.bitmap (record {
        pick = room.pick;
        below = λ i lt. room.below i (omega arith);
        free = λ i lt. room.free i (omega arith);
        different = λ i j hi hj e. room.different i j (omega arith) (omega arith) e;
      }) in
      (
        b,
        with_b x lt ip d file b d' al z,
        d',
        slot-alloc x ip d b d' z e,
        slot-new x lt ip d file b d' al z,
        IsRoom-Allocated q d b room d' al,
      )
  | no nz ↦ (
    ip.addrs x,
    ip,
    d,
    slot-old x ip d nz,
    subst (λ r. IsBlockOf (ref_of x) r ip d ip d) (ref_at-ref_of x ip d lt)
        (IsBlockOf-here (ref_of x) ip d file (λ z. nz (sym (ref_at-ref_of x ip d lt) ∙ z))),
    IsRoom-less q d room,
  )
]
